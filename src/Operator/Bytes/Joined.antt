-- ===== src/Operator/Bytes/Joined.antt =====
-- What `BytesMergeOperator` makes of a column of binary values.
use horaedb.Prelude.{
  ℕ, zero, suc, ◌+◌, ◌-◌, ◌≤◌, ◌<◌, ◌≡◌, ◌≢◌, refl, sym, ap, subst, ◌∙◌, true, false, Bool-cases,
  inl, inr, Option-cases, none, some, List, [], ◌∷◌, ◌++◌, take, drop, drop-drop, All, ltb, ◌==◌,
  arith,
}
use horaedb.Prelude.Perms.{concat_map}
use horaedb.Prelude.Result.{err, store_failed}
use horaedb.Operator.Bytes.{
  BinaryArray, BinaryBatches, last, is_nil, merge_binary, merge_value, merge_columns, check_binary,
  bytes_merge,
}

-- The values between offsets.
abbrev pub elements_from : ℕ → List ℕ → List ℕ → List (List ℕ)
elements_from o [] vs = []
elements_from o (p ∷ ps) vs = take (p - o) (drop o vs) ∷ elements_from p ps vs

abbrev pub elements : BinaryArray → List (List ℕ)
elements array = elements_from array.first array.rest array.values

-- Offsets never fall.
abbrev pub IsRising : ℕ → List ℕ → Type 0
IsRising o [] = Unit
IsRising o (p ∷ ps) = (o ≤ p) × IsRising p ps

take-nil : {A : Type 0} (n : ℕ) → take {A = A} n [] ≡ []
take-nil zero = refl
take-nil (suc n) = refl

take-split : {A : Type 0} (m k : ℕ) (l : List A) → take (m + k) l ≡ take m l ++ take k (drop m l)
take-split zero k l = let same : 0 + k ≡ k = omega arith in ap (λ n. take n l) same
take-split (suc m) k [] =
    let same : suc m + k ≡ suc (m + k) = omega arith in ap (λ n. take n []) same ∙ sym (take-nil k)
take-split (suc m) k (x ∷ xs) =
    let same : suc m + k ≡ suc (m + k) = omega arith in
    ap (λ n. take n (x ∷ xs)) same ∙ ap (λ l. x ∷ l) (take-split m k xs)

last-le : (o : ℕ) (ps : List ℕ) → IsRising o ps → o ≤ last o ps
last-le o [] h = omega arith
last-le o (p ∷ ps) (h, hs) = omega (arith, last-le p ps hs)

-- All values one behind the other are the bytes from the first offset to the last.
concat-elements_from :
    (o : ℕ) (ps vs : List ℕ)
    → IsRising o ps
    → concat_map (λ e. e) (elements_from o ps vs) ≡ take (last o ps - o) (drop o vs)
concat-elements_from o [] vs h =
    let same : o - o ≡ 0 = omega arith in sym (ap (λ n. take n (drop o vs)) same)
concat-elements_from o (p ∷ ps) vs (h, hs) =
    let whole : last p ps - o ≡ (p - o) + (last p ps - p) = omega (arith, last-le p ps hs) in
    let next : o + (p - o) ≡ p = omega arith in
    ap (λ l. take (p - o) (drop o vs) ++ l)
      (concat-elements_from p ps vs hs
        ∙ ap (take (last p ps - p)) (sym (drop-drop (p - o) o vs ∙ ap (λ n. drop n vs) next)))
    ∙ sym (take-split (p - o) (last p ps - p) (drop o vs))
    ∙ sym (ap (λ n. take n (drop o vs)) whole)

take-take : {A : Type 0} (n : ℕ) (l : List A) → take n (take n l) ≡ take n l
take-take zero l = refl
take-take (suc n) [] = refl
take-take (suc n) (x ∷ xs) = ap (λ l. x ∷ l) (take-take n xs)

filled : (o : ℕ) (ps : List ℕ) → o < last o ps → is_nil ps ≡ false
filled o [] lt = absurd (omega arith)
filled o (p ∷ ps) lt = refl

joined_lem :
    (a : BinaryArray)
    → a.first < last a.first a.rest
    → merge_binary a ≡ record {
      first = 0;
      rest = (last a.first a.rest - a.first) ∷ [];
      values = take (last a.first a.rest - a.first) (drop a.first a.values);
    }
unfolding merge_binary
joined_lem a lt =
    let some_bytes : (last a.first a.rest - a.first == 0) ≡ false = ground arith in
    rw (filled a.first a.rest lt, some_bytes) refl

-- An array with some bytes becomes one value, the values of all rows one behind the other, in their
-- order.
pub merge_binary-elements :
    (a : BinaryArray)
    → IsRising a.first a.rest
    → a.first < last a.first a.rest
    → elements (merge_binary a) ≡ concat_map (λ e. e) (elements a) ∷ []
merge_binary-elements a h lt =
    let whole : last a.first a.rest - a.first - 0 ≡ last a.first a.rest - a.first = omega arith in
    ap elements (joined_lem a lt)
    ∙ ap (λ l. l ∷ [])
        (ap (λ n. take n (take (last a.first a.rest - a.first) (drop a.first a.values))) whole
          ∙ take-take (last a.first a.rest - a.first) (drop a.first a.values)
          ∙ sym (concat-elements_from a.first a.rest a.values h))

module _ ⦃t : BinaryBatches⦄ where
  kept_value :
      (v : t.Column) (a : BinaryArray) → last a.first a.rest ≡ a.first → merge_value v a ≡ v
  unfolding merge_value
  kept_value v a e =
      let no_bytes : (last a.first a.rest - a.first == 0) ≡ true = ground arith in
      elim (Bool-cases (is_nil a.rest)) [ inl n ↦ rw n refl | inr n ↦ rw (n, no_bytes) refl ]

  unequal_refused :
      (b : t.Batch) (c d : t.Column)
      → t.column_length c ≢ t.column_length d
      → t.try_new b (c ∷ d ∷ []) ≡ none
  unequal_refused b c d n = elim (Option-cases (t.try_new b (c ∷ d ∷ []))) [
    | inl e ↦ e
    | inr (b', e) ↦
        let (m, h) = t.try_new-lengths b (c ∷ d ∷ []) b' e in absurd (n (h.0 ∙ sym h.1.0))
  ]

  -- A group of several rows with a key column and a value column is refused if its values are all empty:
  -- the value column stays as it is, beside a key column of one row.
  pub empty_values_refused :
      (b : t.Batch) (key value : t.Column) (a : BinaryArray)
      → 1 < t.num_rows b
      → t.columns b ≡ key ∷ value ∷ []
      → t.binary value ≡ some a
      → last a.first a.rest ≡ a.first
      → bytes_merge (1 ∷ []) b ≡ err store_failed
  unfolding bytes_merge check_binary merge_columns
  empty_values_refused b key value a many columns binary empty =
      let rows : ltb 0 (t.num_rows b) ≡ true = ground arith in
      let (k, (v, u)) =
        subst (All (λ c. t.column_length c ≡ t.num_rows b)) columns (t.columns-length b) in
      let one : t.column_length (t.slice key 0 1) ≡ 1 = t.slice-length key 0 1 (omega arith) in
      let refused = unequal_refused b (t.slice key 0 1) value (λ e. omega arith) in
      rw (rows, columns, binary, kept_value value a empty, refused) refl
