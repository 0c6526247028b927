-- ===== src/Storage/Groups.antt =====
-- The plans of a scan: how the files that it finds are split by their segments.
use horaedb.Prelude.{
  ◌≡◌, ◌≢◌, refl, sym, ap, subst, ◌∙◌, false, inl, inr, Bool-cases, List, [], ◌∷◌, ◌++◌, map, All,
}
use horaedb.Prelude.Int.{ℤ, pos, ◌/ℤ◌, eqb_ℤ, eqb_ℤ_iff}
use horaedb.Prelude.Perms.{concat_map, concat_map-Permᴰ, All-Permᴰ}
use horaedb.Prelude.Result.{ok}
use horaedb.Types.{Duration, as_millis}
use horaedb.Types.Segment.{IsSegment, as_i64_lem, div_i64-pos}
use horaedb.Sst.{SstFile}
use horaedb.Read.Runs.{cons_run, runs, runs-concat}
use horaedb.Storage.{Grouping, same_segment, keyed_group, IsOrdered, keyed, ssts_by_segment}
use mathlib.Core.List.{Perm, Permᴰ}

-- The key of a file's segment.
abbrev pub segment_of : Duration → SstFile → ℤ
segment_of d f = f.meta.time_range.start /ℤ pos (as_millis d)

abbrev with_key : Duration → SstFile → ℤ × SstFile
with_key d f = (segment_of d f, f)

keyed_lem :
    (d : Duration) (ssts : List SstFile) → IsSegment d → keyed d ssts ≡ ok (map (with_key d) ssts)
unfolding keyed
keyed_lem d [] h = refl
keyed_lem d (f ∷ fs) h =
    rw
      (
        as_i64_lem (as_millis d) h.1,
        div_i64-pos f.meta.time_range.start (as_millis d) h.0,
        keyed_lem d fs h,
      )
      refl

differ : (k l : ℤ) → k ≢ l → eqb_ℤ k l ≡ false
differ k l n = elim (Bool-cases (eqb_ℤ k l)) [
  | inl e ↦ absurd (n ((eqb_ℤ_iff k l).0 e))
  | inr e ↦ e
]

-- The files of a group are those of its run.
group_files_lem : (g : List (ℤ × SstFile)) → (keyed_group g).1 ≡ map (λ y. y.1) g
group_files_lem [] = refl
group_files_lem (x ∷ xs) = refl

map-append_lem :
    (xs ys : List (ℤ × SstFile))
    → map (λ y. y.1) (xs ++ ys) ≡ map (λ y. y.1) xs ++ map (λ y. y.1) ys
map-append_lem [] ys = refl
map-append_lem (x ∷ xs) ys = ap (λ l. x.1 ∷ l) (map-append_lem xs ys)

files_of_groups :
    (gs : List (List (ℤ × SstFile)))
    → concat_map (λ (g : ℤ × List SstFile). g.1) (map keyed_group gs)
      ≡ map (λ y. y.1) (concat_map (λ g. g) gs)
files_of_groups [] = refl
files_of_groups (g ∷ gs) =
    rw (group_files_lem g, files_of_groups gs, map-append_lem g (concat_map (λ g. g) gs)) refl

files_with_key :
    (d : Duration) (ssts : List SstFile) → map (λ y. y.1) (map (with_key d) ssts) ≡ ssts
files_with_key d [] = refl
files_with_key d (f ∷ fs) = ap (λ l. f ∷ l) (files_with_key d fs)

all_files :
    (d : Duration) (ssts : List SstFile)
    → concat_map
        (λ (g : ℤ × List SstFile). g.1)
        (map keyed_group (runs same_segment (map (with_key d) ssts)))
      ≡ ssts
all_files d ssts =
    files_of_groups (runs same_segment (map (with_key d) ssts))
    ∙ ap (map (λ y. y.1)) (runs-concat same_segment (map (with_key d) ssts))
    ∙ files_with_key d ssts

three_groups :
    (d : Duration) (a b c : SstFile)
    → segment_of d a ≢ segment_of d b
    → segment_of d b ≢ segment_of d c
    → map keyed_group (runs same_segment (map (with_key d) (a ∷ b ∷ c ∷ [])))
      ≡ (segment_of d a, a ∷ []) ∷ (segment_of d b, b ∷ []) ∷ (segment_of d c, c ∷ []) ∷ []
unfolding runs
three_groups d a b c n m =
    rw (differ (segment_of d b) (segment_of d c) m, differ (segment_of d a) (segment_of d b) n) refl

-- All files of a group are of its segment.
abbrev pub IsOfSegment : Duration → ℤ × List SstFile → Type 0
IsOfSegment d g = All (λ f. segment_of d f ≡ g.0) g.1

cons_run-IsOfSegment :
    (d : Duration) (f : SstFile) (gs : List (List (ℤ × SstFile)))
    → All (λ g. IsOfSegment d (keyed_group g)) gs
    → All (λ g. IsOfSegment d (keyed_group g)) (cons_run same_segment (with_key d f) gs)
cons_run-IsOfSegment d f [] h = ((refl, tt), tt)
cons_run-IsOfSegment d f ([] ∷ gs) h = ((refl, tt), h)
cons_run-IsOfSegment d f ((y ∷ ys) ∷ gs) (h, hs) = elim (Bool-cases (eqb_ℤ (segment_of d f) y.0)) [
  | inl e ↦ rw e (
    (
      refl,
      subst (λ k. All (λ f'. segment_of d f' ≡ k) (map (λ z. z.1) (y ∷ ys)))
          (sym ((eqb_ℤ_iff _ _).0 e)) h,
    ),
    hs,
  )
  | inr e ↦ rw e ((refl, tt), (h, hs))
]

runs-IsOfSegment :
    (d : Duration) (ssts : List SstFile)
    → All (λ g. IsOfSegment d (keyed_group g)) (runs same_segment (map (with_key d) ssts))
unfolding runs
runs-IsOfSegment d [] = tt
runs-IsOfSegment d (f ∷ fs) = cons_run-IsOfSegment d f _ (runs-IsOfSegment d fs)

All-mapped :
    {A B : Type 0} (P : B → Type 0) (f : A → B) (l : List A)
    → All (λ a. P (f a)) l
    → All P (map f l)
All-mapped P f [] h = tt
All-mapped P f (x ∷ xs) (h, hs) = (h, All-mapped P f xs hs)

module _ ⦃grouping : Grouping⦄ where
  groups_lem :
      (d : Duration) (ssts : List SstFile)
      → IsSegment d
      → ssts_by_segment d ssts
        ≡ ok (grouping.sorted_by (map keyed_group (runs same_segment (map (with_key d) ssts))))
  unfolding ssts_by_segment
  groups_lem d ssts h = rw (keyed_lem d ssts h, grouping.group_by-runs (map (with_key d) ssts)) refl

  -- The groups of a scan: together they are the files found, each has files of one segment, and they
  -- are in the order of their segments.
  pub record IsSplit (d : Duration) (ssts : List SstFile) (groups : List (ℤ × List SstFile))
      : Type 0 where
    pub complete : Perm (concat_map (λ (g : ℤ × List SstFile). g.1) groups) ssts
    pub pure : All (IsOfSegment d) groups
    pub ordered : IsOrdered groups

  -- For a segment of a positive number of milliseconds that an `i64` holds: on every list of files the
  -- grouping of a scan returns, with groups that have each file once, the files of each group in one
  -- segment, and the segments in their order.
  pub ssts_by_segment-IsSplit :
      (d : Duration) (ssts : List SstFile)
      → IsSegment d
      → (groups : List (ℤ × List SstFile)) × (ssts_by_segment d ssts ≡ ok groups)
        × IsSplit d ssts groups
  ssts_by_segment-IsSplit d ssts h =
      let pieces = runs same_segment (map (with_key d) ssts) in
      let sorted = grouping.sorted_by-perm (map keyed_group pieces) in
      (
        grouping.sorted_by (map keyed_group pieces),
        groups_lem d ssts h,
        record {
          complete =
              subst
                (Perm (
                  concat_map (λ (g : ℤ × List SstFile). g.1)
                    (grouping.sorted_by (map keyed_group pieces))))
                (all_files d ssts) (concat_map-Permᴰ (λ (g : ℤ × List SstFile). g.1) sorted);
          pure =
              All-Permᴰ (IsOfSegment d) sorted
                (All-mapped (IsOfSegment d) keyed_group pieces (runs-IsOfSegment d ssts));
          ordered = grouping.sorted_by-IsOrdered (map keyed_group pieces);
        },
      )

  -- Two files of one segment that stand on both sides of a file of another are in two groups.
  pub segment_in_two_groups :
      (d : Duration) (a b c : SstFile)
      → IsSegment d
      → segment_of d a ≡ segment_of d c
      → segment_of d a ≢ segment_of d b
      → (groups : List (ℤ × List SstFile)) × (ssts_by_segment d (a ∷ b ∷ c ∷ []) ≡ ok groups)
        × Permᴰ groups
            ((segment_of d a, a ∷ []) ∷ (segment_of d b, b ∷ []) ∷ (segment_of d a, c ∷ []) ∷ [])
  segment_in_two_groups d a b c h e n =
      let three = three_groups d a b c n (λ q. n (e ∙ sym q)) in
      (
        _,
        groups_lem d (a ∷ b ∷ c ∷ []) h,
        subst
            (Permᴰ (
              grouping.sorted_by
                (map keyed_group (runs same_segment (map (with_key d) (a ∷ b ∷ c ∷ []))))))
            (three
              ∙ ap (λ k. (segment_of d a, a ∷ []) ∷ (segment_of d b, b ∷ []) ∷ (k, c ∷ []) ∷ [])
                  (sym e))
            (grouping.sorted_by-perm _),
      )
