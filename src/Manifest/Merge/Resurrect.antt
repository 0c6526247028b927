-- ===== src/Manifest/Merge/Resurrect.antt =====
-- What becomes of a deleted file when only some of the merged delta files could be deleted.
use horaedb.Prelude.{
  Bool-cases, inl, inr, ℕ, ◌+◌, ◌≡◌, refl, ap, ◌∙◌, Bool, true, false, not, ◌&&◌, ◌||◌, List, [],
  ◌∷◌, ◌++◌, map, any, length, ◌==◌, ==_iff, arith,
}
use horaedb.Prelude.Result.{ok}
use horaedb.Sst.{FileId, SstFile}
use horaedb.Manifest.Encoding.{ManifestUpdate, Snapshot, into_ssts, contains, record_from, sst_from}
use horaedb.Manifest.Encoding.Edit.{HasRoom, HasRoom-mono, stored, kept}
use horaedb.Manifest.Merge.{merge_snapshot}
use horaedb.Manifest.Merge.Recovery.{
  all_adds, all_deletes, into_ssts-merge_snapshot, contains-append,
}
use horaedb.Prelude.{retain}

-- Whether a file of this id is listed.
abbrev pub lists : List SstFile → FileId → Bool
lists ssts i = any (λ f. f.id == i) ssts

lists-append : (xs ys : List SstFile) (i : FileId) → lists (xs ++ ys) i ≡ (lists xs i || lists ys i)
lists-append [] ys i = refl
lists-append (x ∷ xs) ys i = ground (arith, lists-append xs ys i)

lists-stored : (xs : List SstFile) (i : FileId) → lists (map stored xs) i ≡ lists xs i
unfolding record_from sst_from
lists-stored [] i = refl
lists-stored (x ∷ xs) i = ground (arith, lists-stored xs i)

kept_same :
    (ids : List FileId) (f : SstFile) (i : FileId)
    → (f.id == i) ≡ true
    → kept ids f ≡ not (contains ids i)
kept_same ids f i e = ap (λ j. not (contains ids j)) ((==_iff f.id i).0 e)

lists-retain :
    (ids : List FileId) (xs : List SstFile) (i : FileId)
    → lists (retain (kept ids) xs) i ≡ (lists xs i && not (contains ids i))
lists-retain ids [] i = refl
lists-retain ids (x ∷ xs) i = ground (arith, lists-retain ids xs i, kept_same ids x i)

pub lists-merge_snapshot :
    (debug : Bool) (s : Snapshot) (us : List ManifestUpdate) (n : ℕ) {s' : Snapshot} (i : FileId)
    → HasRoom s (length (all_adds us) + n)
    → merge_snapshot debug s (map ok us) ≡ ok s'
    → HasRoom s' n
      × (lists (into_ssts s') i
          ≡ ((lists (into_ssts s) i || lists (all_adds us) i) && not (contains (all_deletes us) i)))
lists-merge_snapshot debug s us n {s'} i room e =
    let (room', same) = into_ssts-merge_snapshot debug s us n room e in
    (
      room',
      ap (λ l. lists l i) same
          ∙ lists-retain (all_deletes us) (into_ssts s ++ map stored (all_adds us)) i
          ∙ rw (
            lists-append (into_ssts s) (map stored (all_adds us)) i,
            lists-stored (all_adds us) i,
          ),
    )

listed_again :
    (u : ManifestUpdate) (b : Bool) (i : FileId)
    → lists u.to_adds i ≡ true
    → contains u.to_deletes i ≡ false
    → ((b || lists (u.to_adds ++ []) i) && not (contains (u.to_deletes ++ []) i)) ≡ true
listed_again u b i added here =
    rw (lists-append u.to_adds [] i, contains-append u.to_deletes [] i, added, here)
      (unfold contains in elim (Bool-cases b) [ inl e ↦ rw e refl | inr e ↦ rw e refl ])

-- Two delta files are merged, of which the second deletes a file that the first adds; only the second
-- delta file is then removed. The next merge lists the deleted file again.
pub deleted_file_returns :
    (s : Snapshot) (u v : ManifestUpdate) {s' s'' : Snapshot} (i : FileId)
    → HasRoom s (length (u.to_adds ++ (v.to_adds ++ [])) + length (u.to_adds ++ []))
    → merge_snapshot false s (ok u ∷ ok v ∷ []) ≡ ok s'
    → merge_snapshot false s' (ok u ∷ []) ≡ ok s''
    → lists u.to_adds i ≡ true
    → contains u.to_deletes i ≡ false
    → contains v.to_deletes i ≡ true
    → (lists (into_ssts s') i ≡ false) × (lists (into_ssts s'') i ≡ true)
deleted_file_returns s u v {s'} {s''} i room e e' added here there =
    let (room', merged) =
      lists-merge_snapshot false s (u ∷ v ∷ []) (length (u.to_adds ++ [])) i room e in
    let (room'', again) =
      lists-merge_snapshot false s' (u ∷ []) 0 i (HasRoom-mono s' room' (omega arith)) e' in
    (
      merged
          ∙ ground (
            arith,
            contains-append u.to_deletes (v.to_deletes ++ []) i,
            contains-append v.to_deletes [] i,
          ),
      again ∙ listed_again u (lists (into_ssts s') i) i added here,
    )
