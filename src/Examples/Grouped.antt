-- ===== src/Examples/Grouped.antt =====
-- A grouping of files by their segments, as `itertools` may do it.
use horaedb.Prelude.{refl, Bool-cases, inl, inr, List, [], ◌∷◌, map, if◌then◌else◌, arith}
use horaedb.Prelude.Int.{ℤ, ◌≤ℤ◌, ltb_ℤ}
use horaedb.Sst.{SstFile}
use horaedb.Read.Runs.{runs}
use horaedb.Storage.{Grouping, same_segment, keyed_group, IsOrdered}
use mathlib.Core.List.{Permᴰ}
use mathlib.Core.List.Permᴰ

abbrev pub Group : Type 0
Group = ℤ × List SstFile

unfoldable pub insert : Group → List Group → List Group
insert g [] = g ∷ []
insert g (h ∷ hs) = let rest = insert g hs in if ltb_ℤ h.0 g.0 then h ∷ rest else g ∷ h ∷ hs

unfoldable pub sort : List Group → List Group
unfolding insert
sort [] = []
sort (g ∷ gs) = insert g (sort gs)

insert-perm : (g : Group) (gs : List Group) → Permᴰ (insert g gs) (g ∷ gs)
unfolding insert
insert-perm g [] = Permᴰ.refl (g ∷ [])
insert-perm g (h ∷ hs) = elim (Bool-cases (ltb_ℤ h.0 g.0)) [
  | inl e ↦ rw e (Permᴰ.trans (Permᴰ.cons refl (insert-perm g hs)) (Permᴰ.swap refl refl))
  | inr e ↦ rw e (Permᴰ.refl (g ∷ h ∷ hs))
]

pub sort-perm : (gs : List Group) → Permᴰ (sort gs) gs
unfolding sort
sort-perm [] = Permᴰ.nil
sort-perm (g ∷ gs) = Permᴰ.trans (insert-perm g (sort gs)) (Permᴰ.cons refl (sort-perm gs))

insert-IsOrdered_behind :
    (k g : Group) (gs : List Group) → k.0 ≤ℤ g.0 → IsOrdered (k ∷ gs) → IsOrdered (k ∷ insert g gs)
unfolding insert
insert-IsOrdered_behind k g [] le h = (le, tt)
insert-IsOrdered_behind k g (h ∷ hs) le (kh, o) = elim (Bool-cases (ltb_ℤ h.0 g.0)) [
  | inl e ↦ rw e (kh, insert-IsOrdered_behind h g hs (ground arith) o)
  | inr e ↦ rw e (le, (ground arith, o))
]

insert-IsOrdered : (g : Group) (gs : List Group) → IsOrdered gs → IsOrdered (insert g gs)
unfolding insert
insert-IsOrdered g [] h = tt
insert-IsOrdered g (h ∷ hs) o = elim (Bool-cases (ltb_ℤ h.0 g.0)) [
  | inl e ↦ rw e (insert-IsOrdered_behind h g hs (ground arith) o)
  | inr e ↦ rw e (ground arith, o)
]

pub sort-IsOrdered : (gs : List Group) → IsOrdered (sort gs)
unfolding sort
sort-IsOrdered [] = tt
sort-IsOrdered (g ∷ gs) = insert-IsOrdered g (sort gs) (sort-IsOrdered gs)

abbrev pub grouping : Grouping
grouping = record {
  group_by = λ l. map keyed_group (runs same_segment l);
  group_by-runs = λ l. refl;
  sorted_by = sort;
  sorted_by-perm = sort-perm;
  sorted_by-IsOrdered = sort-IsOrdered;
}
