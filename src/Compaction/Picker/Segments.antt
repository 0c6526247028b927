-- ===== src/Compaction/Picker/Segments.antt =====
-- The grouping by segment: each file under its own segment, in the order of the segments, none lost.
use horaedb.Prelude.{
  ◌≡◌, refl, subst, false, Bool-cases, inl, inr, List, [], ◌∷◌, ◌++◌, append_assoc, append-nil, All,
  All-append, arith,
}
use horaedb.Prelude.Int.{ltb_ℤ, eqb_ℤ, eqb_ℤ_iff, ltb_ℤ_iff, ◌<ℤ◌}
use horaedb.Prelude.Perms.{concat_map}
use horaedb.Prelude.Result.{ok, bind_then, ok-injective}
use horaedb.Types.{Timestamp, Duration, truncate_by}
use horaedb.Sst.{SstFile}
use horaedb.Compaction.Picker.{
  Host, Strategy, SegmentMap, entry_push, group_files, files_by_segment,
}
use horaedb.Types.Segment.{IsSegment, truncate_by_returns}
use mathlib.Core.List.{Permᴰ}
use mathlib.Core.List.Permᴰ

-- `R` holds of each file with the segment that it stands under.
abbrev pub AllUnder : (Timestamp → SstFile → Type 0) → SegmentMap → Type 0
AllUnder R = All (λ entry. All (R entry.0) entry.1)

abbrev Above : Timestamp → SegmentMap → Type 0
Above k = All (λ entry. k <ℤ entry.0)

-- The keys of a `BTreeMap` in order.
abbrev pub Ascending : SegmentMap → Type 0
Ascending [] = Unit
Ascending (entry ∷ entries) = Above entry.0 entries × Ascending entries

-- All files of the map.
abbrev pub files_of : SegmentMap → List SstFile
files_of = concat_map (λ entry. entry.1)

module _ (R : Timestamp → SstFile → Type 0) where
  entry_push-AllUnder :
      (k : Timestamp) (f : SstFile) (m : SegmentMap)
      → R k f
      → AllUnder R m
      → AllUnder R (entry_push k f m)
  unfolding entry_push
  entry_push-AllUnder k f [] r h = ((r, tt), tt)
  entry_push-AllUnder k f ((key, fs) ∷ m) r (h, hs) = elim (Bool-cases (eqb_ℤ k key)) [
    | inl e ↦
        rw e
          (All-append (R key) fs (f ∷ []) h (subst (λ t. R t f) ((eqb_ℤ_iff k key).0 e) r, tt), hs)
    | inr e ↦ elim (Bool-cases (ltb_ℤ k key)) [
      | inl e' ↦ rw (e, e') ((r, tt), (h, hs))
      | inr e' ↦ rw (e, e') (h, entry_push-AllUnder k f m r hs)
    ]
  ]

entry_push-Above :
    (j k : Timestamp) (f : SstFile) (m : SegmentMap)
    → j <ℤ k
    → Above j m
    → Above j (entry_push k f m)
unfolding entry_push
entry_push-Above j k f [] lt h = (lt, tt)
entry_push-Above j k f ((key, fs) ∷ m) lt (h, hs) = elim (Bool-cases (eqb_ℤ k key)) [
  | inl e ↦ rw e (h, hs)
  | inr e ↦ elim (Bool-cases (ltb_ℤ k key)) [
    | inl e' ↦ rw (e, e') (lt, (h, hs))
    | inr e' ↦ rw (e, e') (h, entry_push-Above j k f m lt hs)
  ]
]

Above-trans : (j k : Timestamp) (m : SegmentMap) → j <ℤ k → Above k m → Above j m
Above-trans j k [] lt h = tt
Above-trans j k (entry ∷ m) lt (h, hs) = (omega arith, Above-trans j k m lt hs)

third_case : (k key : Timestamp) → eqb_ℤ k key ≡ false → ltb_ℤ k key ≡ false → key <ℤ k
third_case k key e e' = ground arith

entry_push-Ascending :
    (k : Timestamp) (f : SstFile) (m : SegmentMap) → Ascending m → Ascending (entry_push k f m)
unfolding entry_push
entry_push-Ascending k f [] h = (tt, tt)
entry_push-Ascending k f ((key, fs) ∷ m) (h, hs) = elim (Bool-cases (eqb_ℤ k key)) [
  | inl e ↦ rw e (h, hs)
  | inr e ↦ elim (Bool-cases (ltb_ℤ k key)) [
    | inl e' ↦
        let lt = (ltb_ℤ_iff k key).0 e' in rw (e, e') ((lt, Above-trans k key m lt h), (h, hs))
    | inr e' ↦
        rw (e, e')
          (entry_push-Above key k f m (third_case k key e e') h, entry_push-Ascending k f m hs)
  ]
]

entry_push-perm :
    (k : Timestamp) (f : SstFile) (m : SegmentMap)
    → Permᴰ (files_of (entry_push k f m)) (f ∷ files_of m)
unfolding entry_push
entry_push-perm k f [] = Permᴰ.refl (f ∷ [])
entry_push-perm k f ((key, fs) ∷ m) = elim (Bool-cases (eqb_ℤ k key)) [
  | inl e ↦ rw (e, append_assoc fs (f ∷ []) (files_of m)) (Permᴰ.middle f fs (files_of m))
  | inr e ↦ elim (Bool-cases (ltb_ℤ k key)) [
    | inl e' ↦ rw (e, e') (Permᴰ.refl (f ∷ (fs ++ files_of m)))
    | inr e' ↦
        rw (e, e')
          (Permᴰ.trans (Permᴰ.append_left fs (entry_push-perm k f m))
            (Permᴰ.middle f fs (files_of m)))
  ]
]

-- A file stands under the segment of its start.
abbrev pub InSegment : Duration → Timestamp → SstFile → Type 0
InSegment d k f = truncate_by f.meta.time_range.start d ≡ ok k

pub record IsGrouped (d : Duration) (m : SegmentMap) (fs : List SstFile) : Type 0 where
  pub under : AllUnder (InSegment d) m
  pub ascending : Ascending m
  pub complete : Permᴰ (files_of m) fs

entry_push-IsGrouped :
    (d : Duration) (k : Timestamp) (f : SstFile) (m : SegmentMap) (fs : List SstFile)
    → InSegment d k f
    → IsGrouped d m fs
    → IsGrouped d (entry_push k f m) (f ∷ fs)
entry_push-IsGrouped d k f m fs h g = record {
  under = entry_push-AllUnder (InSegment d) k f m h g.under;
  ascending = entry_push-Ascending k f m g.ascending;
  complete = Permᴰ.trans (entry_push-perm k f m) (Permᴰ.cons refl g.complete);
}

group_files-IsGrouped :
    (d : Duration) (m : SegmentMap) (done fs : List SstFile) {m' : SegmentMap}
    → IsGrouped d m done
    → group_files d m fs ≡ ok m'
    → IsGrouped d m' (done ++ fs)
unfolding group_files
group_files-IsGrouped d m done [] g e =
    subst (λ t. IsGrouped d t (done ++ [])) (ok-injective e) (rw append-nil g)
group_files-IsGrouped d m done (f ∷ fs) {m'} g e =
    bind_then (truncate_by f.meta.time_range.start d) _ e λ k segment returns.
      let grouped =
        group_files-IsGrouped d (entry_push k f m) (f ∷ done) fs
          (entry_push-IsGrouped d k f m done segment g) returns in
      record {
        under = grouped.under;
        ascending = grouped.ascending;
        complete = Permᴰ.trans grouped.complete (Permᴰ.symm (Permᴰ.middle f done fs));
      }

-- The map that the files are put into: each file stands under its own segment, the segments are in
-- order, each once, and no file is lost or put twice.
pub files_by_segment-IsGrouped :
    (host : Host) (self : Strategy) (fs : List SstFile) {m : SegmentMap}
    → files_by_segment host self fs ≡ ok m
    → IsGrouped self.segment_duration m fs
unfolding files_by_segment
files_by_segment-IsGrouped host self fs e =
    group_files-IsGrouped self.segment_duration [] [] fs
      (record { under = tt; ascending = tt; complete = Permᴰ.nil }) e

group_files_returns :
    (d : Duration) (m : SegmentMap) (fs : List SstFile)
    → IsSegment d
    → (m' : SegmentMap) × (group_files d m fs ≡ ok m')
unfolding group_files
group_files_returns d m [] h = (m, refl)
group_files_returns d m (f ∷ fs) h =
    let (k, segment) = truncate_by_returns f.meta.time_range.start d h in
    let (m', e) = group_files_returns d (entry_push k f m) fs h in (m', rw segment e)

-- The grouping returns for every segment length that `truncate_by` takes.
pub files_by_segment_returns :
    (host : Host) (self : Strategy) (fs : List SstFile)
    → IsSegment self.segment_duration
    → (m : SegmentMap) × (files_by_segment host self fs ≡ ok m)
unfolding files_by_segment
files_by_segment_returns host self fs h = group_files_returns self.segment_duration [] fs h
