-- ===== src/Sst/Convert.antt =====
-- The conversions between files and protobuf messages, and `==` on files.
use horaedb.Prelude.{◌≡◌, true, ◌↔◌, arith}
use horaedb.Prelude.Result.{ok}
use horaedb.Sst.{SstFile, FileMeta, PbSstFile, sst_try_from, pb_sst_from, sst_eq, meta_eq}

-- A file survives the message form, and no other message converts to it.
pub sst_try_from_iff : (p : PbSstFile) (f : SstFile) → (sst_try_from p ≡ ok f) ↔ (p ≡ pb_sst_from f)
unfolding sst_try_from pb_sst_from
sst_try_from_iff p f = (λ h. ground arith, λ h. ground arith)

meta_eq_refl : (m : FileMeta) → meta_eq m m ≡ true
unfolding meta_eq
meta_eq_refl m = ground arith

-- Two files are `==` exactly when their ids agree, whatever their metadata.
pub sst_eq_iff : (a b : SstFile) → (sst_eq a b ≡ true) ↔ (a.id ≡ b.id)
unfolding sst_eq
sst_eq_iff a b = ground (arith, meta_eq_refl a.meta)
