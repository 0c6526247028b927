-- ===== src/Examples/Sorting.antt =====
-- A sort by size, as `sort_unstable_by_key` may be.
use horaedb.Prelude.{
  ℕ, ◌*◌, ◌/◌, ◌≤◌, refl, Bool-cases, inl, inr, List, [], ◌∷◌, All, leb, if◌then◌else◌, arith,
}
use horaedb.Sst.{SstFile}
use horaedb.Compaction.Picker.{Host, IsSortedBySize}
use mathlib.Core.List.{Permᴰ}
use mathlib.Core.List.Permᴰ

unfoldable pub insert : SstFile → List SstFile → List SstFile
insert f [] = f ∷ []
insert f (g ∷ gs) =
    let rest = insert f gs in if leb f.meta.size g.meta.size then f ∷ g ∷ gs else g ∷ rest

unfoldable pub insertion_sort : List SstFile → List SstFile
unfolding insert
insertion_sort [] = []
insertion_sort (f ∷ fs) = insert f (insertion_sort fs)

insert-perm : (f : SstFile) (fs : List SstFile) → Permᴰ (insert f fs) (f ∷ fs)
unfolding insert
insert-perm f [] = Permᴰ.refl (f ∷ [])
insert-perm f (g ∷ gs) = elim (Bool-cases (leb f.meta.size g.meta.size)) [
  | inl e ↦ rw e (Permᴰ.refl (f ∷ g ∷ gs))
  | inr e ↦ rw e (Permᴰ.trans (Permᴰ.cons refl (insert-perm f gs)) (Permᴰ.swap refl refl))
]

pub insertion_sort-perm : (fs : List SstFile) → Permᴰ (insertion_sort fs) fs
unfolding insertion_sort
insertion_sort-perm [] = Permᴰ.nil
insertion_sort-perm (f ∷ fs) =
    Permᴰ.trans (insert-perm f (insertion_sort fs)) (Permᴰ.cons refl (insertion_sort-perm fs))

abbrev AtLeast : ℕ → List SstFile → Type 0
AtLeast n = All (λ g. n ≤ g.meta.size)

AtLeast-mono : (m n : ℕ) (fs : List SstFile) → m ≤ n → AtLeast n fs → AtLeast m fs
AtLeast-mono m n [] le h = tt
AtLeast-mono m n (f ∷ fs) le (h, hs) = (omega arith, AtLeast-mono m n fs le hs)

insert-AtLeast :
    (n : ℕ) (f : SstFile) (fs : List SstFile)
    → n ≤ f.meta.size
    → AtLeast n fs
    → AtLeast n (insert f fs)
unfolding insert
insert-AtLeast n f [] le h = (le, tt)
insert-AtLeast n f (g ∷ gs) le (h, hs) = elim (Bool-cases (leb f.meta.size g.meta.size)) [
  | inl e ↦ rw e (le, (h, hs))
  | inr e ↦ rw e (h, insert-AtLeast n f gs le hs)
]

insert-IsSortedBySize :
    (f : SstFile) (fs : List SstFile) → IsSortedBySize fs → IsSortedBySize (insert f fs)
unfolding insert
insert-IsSortedBySize f [] h = (tt, tt)
insert-IsSortedBySize f (g ∷ gs) (h, hs) = elim (Bool-cases (leb f.meta.size g.meta.size)) [
  | inl e ↦ rw e ((ground arith, AtLeast-mono f.meta.size g.meta.size gs (ground arith) h), (h, hs))
  | inr e ↦ rw e (insert-AtLeast g.meta.size f gs (ground arith) h, insert-IsSortedBySize f gs hs)
]

pub insertion_sort-IsSortedBySize : (fs : List SstFile) → IsSortedBySize (insertion_sort fs)
unfolding insertion_sort
insertion_sort-IsSortedBySize [] = tt
insertion_sort-IsSortedBySize (f ∷ fs) =
    insert-IsSortedBySize f (insertion_sort fs) (insertion_sort-IsSortedBySize fs)

-- The product with 1.1, rounded down.
abbrev pub host : Host
host = record {
  sort = insertion_sort;
  sort-perm = insertion_sort-perm;
  sort-IsSortedBySize = insertion_sort-IsSortedBySize;
  plus_tenth = λ n. n * 11 / 10;
}
