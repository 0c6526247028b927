-- ===== src/Examples/Values.antt =====
-- The theorems on binary values: a column is its array, a batch has columns of one length.
use horaedb.Prelude.{
  ℕ, zero, suc, ◌+◌, ◌≤◌, ◌≡◌, refl, Bool-cases, inl, inr, ==_iff, Option, none, some, List, [],
  ◌∷◌, length, take, drop, length-drop, All, ◌==◌, arith,
}
use horaedb.Prelude.Perms.{concat_map}
use horaedb.Prelude.Result.{err, store_failed}
use horaedb.Operator.Bytes.{BinaryArray, BinaryBatches, merge_binary, bytes_merge}
use horaedb.Operator.Bytes.Joined.{elements, merge_binary-elements, empty_values_refused}

abbrev pub ArrayOf : ℕ → BinaryArray → Type 0
ArrayOf n a = length a.rest ≡ n

abbrev pub Group : Type 0
Group = (n : ℕ) × ((columns : List BinaryArray) × All (ArrayOf n) columns)

length-take : {A : Type 0} (n : ℕ) (l : List A) → n ≤ length l → length (take n l) ≡ n
length-take zero l h = refl
length-take (suc n) [] h = absurd (omega arith)
length-take (suc n) (x ∷ xs) h = omega (arith, length-take n xs (omega arith))

pub length-slice :
    (a : BinaryArray) (offset len : ℕ)
    → offset + len ≤ length a.rest
    → length (take len (drop offset a.rest)) ≡ len
length-slice a offset len h =
    length-take len (drop offset a.rest) (omega (arith, length-drop offset a.rest (omega arith)))

unfoldable pub uniform : (n : ℕ) (columns : List BinaryArray) → Option (All (ArrayOf n) columns)
uniform n [] = some tt
uniform n (a ∷ others) = elim (Bool-cases (length a.rest == n)) [
  | inl e ↦ elim (uniform n others) [ none ↦ none | some h ↦ some ((==_iff _ _).0 e, h) ]
  | inr e ↦ none
]

abbrev pub group_of :
    (n : ℕ) (columns : List BinaryArray) → Option (All (ArrayOf n) columns) → Option Group
group_of n columns none = none
group_of n columns (some h) = some (n, (columns, h))

abbrev pub rows_of : List BinaryArray → ℕ
rows_of [] = 0
rows_of (a ∷ others) = length a.rest

pub group_of-lengths :
    (n : ℕ) (columns : List BinaryArray) (o : Option (All (ArrayOf n) columns)) (b : Group)
    → group_of n columns o ≡ some b
    → (m : ℕ) × All (λ a. length a.rest ≡ m) columns
group_of-lengths n columns none b e = cc
group_of-lengths n columns (some h) b e = (n, h)

abbrev arrays : BinaryBatches
arrays = record {
  Batch = Group;
  Column = BinaryArray;
  columns = λ b. b.1.0;
  num_rows = λ b. b.0;
  column_length = λ a. length a.rest;
  binary = λ a. some a;
  from_binary = λ a. a;
  slice =
      λ a offset len. record { first = 0; rest = take len (drop offset a.rest); values = a.values };
  slice-length = length-slice;
  columns-length = λ b. b.1.1;
  try_new = λ b columns. group_of (rows_of columns) columns (uniform (rows_of columns) columns);
  try_new-lengths = λ b columns b' e.
      group_of-lengths (rows_of columns) columns (uniform (rows_of columns) columns) b' e;
}

-- Three values, the second of which is empty, behind a byte that does not belong to them.
abbrev three : BinaryArray
three = record { first = 1; rest = 3 ∷ 3 ∷ 4 ∷ []; values = 9 ∷ 10 ∷ 20 ∷ 30 ∷ [] }

merge_binary-elements_example :
    elements (merge_binary three) ≡ concat_map (λ e. e) (elements three) ∷ []
merge_binary-elements_example =
    merge_binary-elements three (omega arith, (omega arith, (omega arith, tt))) (omega arith)

abbrev key : BinaryArray
key = record { first = 0; rest = 1 ∷ 2 ∷ []; values = 7 ∷ 7 ∷ [] }

abbrev empty : BinaryArray
empty = record { first = 0; rest = 0 ∷ 0 ∷ []; values = [] }

empty_values_refused_example :
    bytes_merge ⦃t = arrays⦄ (1 ∷ []) (2, (key ∷ empty ∷ [], (refl, (refl, tt)))) ≡ err store_failed
empty_values_refused_example =
    empty_values_refused ⦃t = arrays⦄ (2, (key ∷ empty ∷ [], (refl, (refl, tt)))) key empty empty
      (omega arith) refl refl refl
