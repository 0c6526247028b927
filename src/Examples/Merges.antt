-- ===== src/Examples/Merges.antt =====
-- The theorems on recovery: two deltas, listed in the other order, the later of which deletes a file.
use horaedb.Prelude.{ℕ, ◌≤◌, ◌≡◌, refl, true, false, [], ◌∷◌, ◌++◌, map, retain, arith}
use horaedb.Prelude.Int.{pos}
use horaedb.Prelude.Result.{ok}
use horaedb.Manifest.Encoding.{
  ManifestUpdate, Snapshot, default_snapshot, into_ssts, add_records, delete_records, record_from,
  contains,
}
use horaedb.Manifest.Encoding.Edit.{HasRoom, kept, stored}
use horaedb.Manifest.Merge.{merge_deltas, merge_snapshot}
use horaedb.Manifest.Merge.Recovery.{
  all_adds, all_deletes, apply_updates, recovery, into_ssts-merge_snapshot,
}
use horaedb.Manifest.Merge.Resurrect.{lists, deleted_file_returns}
use horaedb.Examples.{file}
use mathlib.Core.List.{Perm}
use mathlib.Core.List.Perm

abbrev first : ManifestUpdate
first = record {
  to_adds = file 1 100 (pos 5) (pos 20) ∷ file 2 30 (pos 6) (pos 9) ∷ [];
  to_deletes = [];
}

abbrev second : ManifestUpdate
second = record { to_adds = file 3 120 (pos 5) (pos 20) ∷ []; to_deletes = 1 ∷ [] }

abbrev merged : Snapshot
merged = add_records default_snapshot (file 3 120 (pos 5) (pos 20) ∷ file 2 30 (pos 6) (pos 9) ∷ [])

has_room : (n : ℕ) → n ≤ 9 → HasRoom default_snapshot n
has_room n le = record { counted = refl; room = omega arith }

merges : merge_snapshot true default_snapshot (map ok (second ∷ first ∷ [])) ≡ ok merged
unfolding merge_snapshot merge_deltas delete_records add_records record_from contains
merges = refl

recovery_example :
    Perm (into_ssts merged) (apply_updates (into_ssts default_snapshot) (first ∷ second ∷ []))
recovery_example =
    recovery true default_snapshot (first ∷ second ∷ []) (second ∷ first ∷ [])
      (has_room 3 (omega arith)) (Perm.swap first second [])
      (unfold contains in ((refl, tt), (tt, tt))) (refl, (refl, (refl, tt))) merges

into_ssts-merge_snapshot_example :
    HasRoom merged 2
    × (into_ssts merged
        ≡ retain
            (kept (all_deletes (second ∷ first ∷ [])))
            (into_ssts default_snapshot ++ map stored (all_adds (second ∷ first ∷ []))))
into_ssts-merge_snapshot_example =
    into_ssts-merge_snapshot true default_snapshot (second ∷ first ∷ []) 2
      (has_room 5 (omega arith)) merges

abbrev both_merged : Snapshot
both_merged =
    add_records default_snapshot (file 2 30 (pos 6) (pos 9) ∷ file 3 120 (pos 5) (pos 20) ∷ [])

abbrev first_again : Snapshot
first_again = add_records both_merged first.to_adds

merges_both : merge_snapshot false default_snapshot (ok first ∷ ok second ∷ []) ≡ ok both_merged
unfolding merge_snapshot merge_deltas delete_records add_records record_from contains
merges_both = refl

merges_first_again : merge_snapshot false both_merged (ok first ∷ []) ≡ ok first_again
unfolding merge_snapshot merge_deltas delete_records add_records contains
merges_first_again = refl

deleted_file_returns_example :
    (lists (into_ssts both_merged) 1 ≡ false) × (lists (into_ssts first_again) 1 ≡ true)
unfolding contains
deleted_file_returns_example =
    deleted_file_returns default_snapshot first second 1 (has_room 5 (omega arith)) merges_both
      merges_first_again refl refl refl
