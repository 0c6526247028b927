-- ===== src/Manifest/Merge/Replay.antt =====
-- A delta file that is merged and then not deleted, so that a later merge reads it again.
use horaedb.Prelude.{
  ℕ, ◌+◌, ◌≡◌, refl, ap, ◌∙◌, Bool, true, false, ◌&&◌, List, [], ◌∷◌, ◌++◌, map, append-nil, length,
  retain, retain-append, retain-retain, arith,
}
use horaedb.Prelude.Result.{ok}
use horaedb.Sst.{SstFile}
use horaedb.Manifest.Encoding.{ManifestUpdate, Snapshot, into_ssts}
use horaedb.Manifest.Encoding.Edit.{HasRoom, HasRoom-mono, stored, kept}
use horaedb.Manifest.Merge.{merge_snapshot}
use horaedb.Manifest.Merge.Recovery.{into_ssts-merge_snapshot}
use mathlib.Core.Path.{fun_ext}

and_self : (b : Bool) → (b && b) ≡ b
and_self true = refl
and_self false = refl

retain-retain_self : (p : SstFile → Bool) (l : List SstFile) → retain p (retain p l) ≡ retain p l
retain-retain_self p l =
    retain-retain p p l ∙ ap (λ (q : SstFile → Bool). retain q l) (fun_ext (λ f. and_self (p f)))

merge_one :
    (s : Snapshot) (u : ManifestUpdate) (n : ℕ) {s' : Snapshot}
    → HasRoom s (length u.to_adds + n)
    → merge_snapshot false s (ok u ∷ []) ≡ ok s'
    → HasRoom s' n
      × (into_ssts s' ≡ retain (kept u.to_deletes) (into_ssts s ++ map stored u.to_adds))
merge_one s u n h e =
    rw (append-nil, append-nil) at (into_ssts-merge_snapshot false s (u ∷ []) n (rw append-nil h) e)

-- When a merged delta file could not be deleted, the next merge adds the files that it kept of this
-- delta a second time: the snapshot lists them twice.
pub merged_twice :
    (s : Snapshot) (u : ManifestUpdate) {s' s'' : Snapshot}
    → HasRoom s (length u.to_adds + length u.to_adds)
    → merge_snapshot false s (ok u ∷ []) ≡ ok s'
    → merge_snapshot false s' (ok u ∷ []) ≡ ok s''
    → into_ssts s'' ≡ into_ssts s' ++ retain (kept u.to_deletes) (map stored u.to_adds)
merged_twice s u {s'} h e e' =
    let (room, first) = merge_one s u (length u.to_adds) h e in
    let (_r, second) = merge_one s' u 0 (HasRoom-mono s' room (omega arith)) e' in
    let stays : retain (kept u.to_deletes) (into_ssts s') ≡ into_ssts s' =
      rw first (retain-retain_self (kept u.to_deletes) (into_ssts s ++ map stored u.to_adds)) in
    second
    ∙ retain-append (kept u.to_deletes) (into_ssts s') (map stored u.to_adds)
    ∙ ap (λ l. l ++ retain (kept u.to_deletes) (map stored u.to_adds)) stays
