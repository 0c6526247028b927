-- ===== src/Read/Groups.antt =====
-- The index loops of `merge_batch` cut the rows of a batch into the runs of one primary key.
use horaedb.Prelude.{
  ℕ, zero, suc, ◌+◌, ◌-◌, ◌≤◌, ◌<◌, ◌≡◌, refl, sym, ap, ap₂, ◌∙◌, Bool, true, false, Bool-cases,
  inl, inr, List, [], ◌∷◌, map, All, length, take, drop, length-drop, drop-drop, drop_all, ltb,
  ltb→lt, if◌then◌else◌, arith,
}
use horaedb.Prelude.Result.{Result, ok, ◌>>=◌}
use horaedb.Batches.{Batches}
use horaedb.Read.{row_at, primary_key_eq, end_of_group, group_rows}
use horaedb.Read.Key.{ColumnTypes, IsTyped, same_key, same_key_equivalent, keys_eq-same_key}
use horaedb.Read.Runs.{runs, lead, lead-le, runs-lead}

-- What an index in range finds.
drop-step :
    {A : Type 0} (P : A → Type 0) (i : ℕ) (xs : List A)
    → All P xs
    → i < length xs
    → (x : A) × (drop i xs ≡ x ∷ drop (i + 1) xs) × (row_at xs i ≡ ok x) × P x
drop-step P i [] h lt = absurd (omega arith)
drop-step P zero (x ∷ xs) (h, hs) lt = (x, refl, refl, h)
drop-step P (suc i) (x ∷ xs) (h, hs) lt =
    let (y, d, r, p) = drop-step P i xs hs (omega arith) in
    let next : suc (i + 1) ≡ suc i + 1 = omega arith in
    (y, d ∙ ap (λ k. y ∷ drop k (x ∷ xs)) next, r, p)

module _ ⦃t : Batches⦄ (types : ColumnTypes) (n : ℕ) where
  pub primary_key_eq-same_key :
      (b c : t.Batch) (i j : ℕ) (l r : t.Row)
      → row_at (t.rows b) i ≡ ok l
      → row_at (t.rows c) j ≡ ok r
      → IsTyped types l
      → IsTyped types r
      → primary_key_eq n b i c j ≡ ok (same_key n l r)
  unfolding primary_key_eq
  primary_key_eq-same_key b c i j l r el er hl hr = rw (el, er) (keys_eq-same_key types l r hl hr n)

  module _ (b : t.Batch) (typed : All (IsTyped types) (t.rows b)) where
    -- The end after one more test.
    step_end :
        (end : ℕ) (next : Result ℕ) (count : ℕ) (same : Bool)
        → next ≡ ok (end + 1 + count)
        → (ok same >>= λ e. if e then next else ok end) ≡ ok (end + (if same then suc count else 0))
    step_end end next count true e = e ∙ ap ok (omega arith)
    step_end end next count false e = ap ok (omega arith)

    end_of_group_lem :
        (fuel start end : ℕ) (r : t.Row)
        → row_at (t.rows b) start ≡ ok r
        → IsTyped types r
        → end ≤ length (t.rows b)
        → length (t.rows b) < end + fuel
        → end_of_group n fuel b start end ≡ ok (end + lead (same_key n) r (drop end (t.rows b)))
    unfolding end_of_group lead
    end_of_group_lem zero start end r at h le enough = absurd (omega arith)
    end_of_group_lem (suc fuel) start end r at h le enough =
        elim (Bool-cases (ltb end (t.num_rows b))) [
          | inl inside ↦
              let (x, d, at', h') =
                drop-step (IsTyped types) end (t.rows b) typed
                  (omega (arith, t.num_rows-rows b, ltb→lt end (t.num_rows b) inside)) in
              rw (inside, primary_key_eq-same_key b b start end r x at at' h h', d)
                (step_end end _ _ (same_key n r x) (
                  end_of_group_lem fuel start (end + 1) r at h
                    (omega (arith, t.num_rows-rows b, ltb→lt end (t.num_rows b) inside))
                    (omega arith)))
          | inr outside ↦
              rw (outside, drop_all end (t.rows b) (ground (arith, t.num_rows-rows b)))
                (ap ok (omega arith))
        ]

    pub group_rows-runs :
        (fuel start : ℕ)
        → start ≤ length (t.rows b)
        → length (t.rows b) < start + fuel
        → (gs : List t.Batch) × (group_rows n fuel b start ≡ ok gs)
          × (map t.rows gs ≡ runs (same_key n) (drop start (t.rows b)))
          × All (λ g. t.num_columns g ≡ t.num_columns b) gs
    unfolding group_rows
    group_rows-runs zero start le enough = absurd (omega arith)
    group_rows-runs (suc fuel) start le enough = elim (Bool-cases (ltb start (t.num_rows b))) [
      | inl inside ↦
          let lt : start < length (t.rows b) =
            omega (arith, t.num_rows-rows b, ltb→lt start (t.num_rows b) inside) in
          let (r, d, at, h) = drop-step (IsTyped types) start (t.rows b) typed lt in
          let count = lead (same_key n) r (drop (start + 1) (t.rows b)) in
          let bound : start + 1 + count ≤ length (t.rows b) = omega (
            arith,
            lead-le (same_key n) r (drop (start + 1) (t.rows b)),
            length-drop (start + 1) (t.rows b) (omega arith),
          ) in
          let width : start + 1 + count - start ≡ suc count = omega arith in
          let (gs, returns, cut, wide) =
            group_rows-runs fuel (start + 1 + count) bound (omega arith) in
          (
            t.slice b start (start + 1 + count - start) ∷ gs,
            rw (
              inside,
              end_of_group_lem (suc (t.num_rows b)) start (start + 1) r at h (omega arith)
                  (omega (arith, t.num_rows-rows b)),
              returns,
            ),
            ap₂ (λ (g : List t.Row) (l : List (List t.Row)). g ∷ l)
                  (t.rows-slice b start (start + 1 + count - start) (omega arith)
                    ∙ ap₂ (λ k (l : List t.Row). take k l) width d)
                  cut
                ∙ sym (
                    ap (runs (same_key n)) d
                    ∙ runs-lead (same_key n) (same_key_equivalent n) r (drop (start + 1) (t.rows b))
                    ∙ ap (λ l. (r ∷ take count (drop (start + 1) (t.rows b))) ∷ runs (same_key n) l)
                        (drop-drop count (start + 1) (t.rows b))),
            (t.num_columns-slice b start (start + 1 + count - start), wide),
          )
      | inr outside ↦ (
        [],
        rw outside,
        rw (drop_all start (t.rows b) (ground (arith, t.num_rows-rows b))) (unfold runs in refl),
        tt,
      )
    ]
