-- ===== src/Read/Step.antt =====
-- A step of a `MergeStream`: the runs that a batch completes come out, and the last one waits.
use horaedb.Prelude.{
  ℕ, suc, ◌≤◌, ◌≡◌, ◌≢◌, refl, sym, ap, ap₂, subst, ◌∙◌, Bool, false, Bool-cases, inl, inr, Option,
  none, some, List, [], ◌∷◌, ◌++◌, append_assoc, append-nil, map, map-append, All, All-append,
  All-append_left, All-append_right, All-zip, All-map, length, ◌==◌, arith,
}
use horaedb.Prelude.Perms.{concat_map, concat_map-append}
use horaedb.Prelude.Result.{Result, ok}
use horaedb.Batches.{Batches}
use horaedb.Operator.{MergeOperator}
use horaedb.Read.{pop_last, join_pending, group_rows}
use horaedb.Read.Stream.{merge_groups, merge_batch}
use horaedb.Read.Key.{ColumnTypes, IsTyped, same_key}
use horaedb.Read.Runs.{runs, runs-append, runs-IsFilled, runs-All, runs-nil, join, IsFilled}
use horaedb.Read.Groups.{group_rows-runs}
use horaedb.Read.Merge.{
  IsMerging, IsInput, IsGroup, Concatenates, visible, visible-nil, merged_rows, merge_all_lem,
  emit_lem, rows_of, pop_last_lem, join_pending_lem,
}

pub Filled-cases : {A : Type 0} (l : List A) → IsFilled l → (x : A) × (xs : List A) × (l ≡ x ∷ xs)
Filled-cases [] h = absurd h
Filled-cases (x ∷ xs) h = (x, xs, refl)

length-zero : {A : Type 0} (l : List A) → length l ≡ 0 → l ≡ []
length-zero [] e = refl
length-zero (x ∷ xs) e = absurd (omega arith)

join_behind :
    {A : Type 0} (same : A → A → Bool) (ds : List (List A)) (g : List A) (hs : List (List A))
    → join same (ds ++ g ∷ []) hs ≡ ds ++ join same (g ∷ []) hs
join_behind same [] g hs = refl
join_behind same (d ∷ []) g hs = refl
join_behind same (d ∷ e ∷ ds) g hs = ap (λ l. d ∷ l) (join_behind same (e ∷ ds) g hs)

module _ ⦃t : Batches⦄ (types : ColumnTypes) (c n : ℕ) (op : MergeOperator t.Batch) (keep : Bool)
    (m : IsMerging op) where
  -- The rows `seen` so far fall into the runs `done`, which are out, and the one that waits.
  abbrev pub Tracks : List t.Row → List (List t.Row) → Option t.Batch → Type 0
  Tracks seen done none = (seen ≡ []) × (done ≡ [])
  Tracks seen done (some p) = (runs (same_key n) seen ≡ done ++ t.rows p ∷ []) × IsGroup types c p

  -- A step over the rows `ys`.
  pub record IsStep (seen : List t.Row) (done : List (List t.Row)) (ys : List t.Row)
      (r : Result (Option t.Batch) × Option t.Batch) : Type 0 where
    pub out : Option t.Batch
    pub pending : Option t.Batch
    pub more : List (List t.Row)
    pub returns : r ≡ (ok out, pending)
    pub rows :
        rows_of types c n op keep m out
        ≡ visible types c keep (merged_rows types c n op keep m more)
    pub tracks : Tracks (seen ++ ys) (done ++ more) pending

  -- From the groups with the pending run in front.
  settle :
      (seen : List t.Row) (done : List (List t.Row)) (ys : List t.Row) (pending : Option t.Batch)
      (first : t.Batch) (others : List t.Batch) (outs : List t.Batch) (first' : t.Batch)
      (others' : List t.Batch) (more : List (List t.Row))
      → Concatenates types c
      → 2 ≤ c
      → join_pending n op keep pending first others ≡ ok (outs, first', others')
      → concat_map t.rows outs ≡ merged_rows types c n op keep m more
      → All (λ b. t.num_columns b ≡ c) outs
      → All (IsGroup types c) (first' ∷ others')
      → runs (same_key n) (seen ++ ys) ≡ done ++ (more ++ map t.rows (first' ∷ others'))
      → IsStep seen done ys (merge_groups n op keep first others pending)
  unfolding merge_groups
  settle seen done ys pending first others outs first' others' more concatenates le returns rows
        columns groups cut =
      let init = (pop_last first' others').0 in
      let last = (pop_last first' others').1 in
      let split = pop_last_lem first' others' in
      let both = subst (All (IsGroup types c)) split groups in
      let (merged, returns', rows', columns') =
        merge_all_lem types c n op keep m init
          (All-append_left (IsGroup types c) init (last ∷ []) both) in
      let (out, returns'', rows'') =
        emit_lem types c n op keep m (outs ++ merged) concatenates le
          (All-append (λ b. t.num_columns b ≡ c) outs merged columns columns') in
      record {
        out = out;
        pending = some last;
        more = more ++ map t.rows init;
        returns = rw (returns, returns', returns'');
        rows =
            rows''
            ∙ ap (visible types c keep) (
                concat_map-append t.rows outs merged
                ∙ ap₂ (λ (u v : List t.Row). u ++ v) rows rows'
                ∙ sym (concat_map-append m.merge_rows more (map t.rows init)));
        tracks = (
          cut ∙ ap (λ l. done ++ (more ++ map t.rows l)) split ∙ simp (map-append, append_assoc),
          (All-append_right (IsGroup types c) init (last ∷ []) both).0,
        );
      }

  -- Groups of a batch with rows, whatever waits.
  merge_groups-IsStep :
      (seen : List t.Row) (done : List (List t.Row)) (ys : List t.Row) (pending : Option t.Batch)
      (first : t.Batch) (others : List t.Batch)
      → Concatenates types c
      → 2 ≤ c
      → Tracks seen done pending
      → All (IsGroup types c) (first ∷ others)
      → map t.rows (first ∷ others) ≡ runs (same_key n) ys
      → IsStep seen done ys (merge_groups n op keep first others pending)
  merge_groups-IsStep seen done ys none first others concatenates le (s, d) groups cut =
      settle seen done ys none first others [] first others [] concatenates le
        (unfold join_pending in refl) refl tt groups
        (ap (λ l. runs (same_key n) (l ++ ys)) s
          ∙ sym cut
          ∙ ap (λ (l : List (List t.Row)). l ++ map t.rows (first ∷ others)) (sym d))
  merge_groups-IsStep seen done ys (some p) first others concatenates le (cut', hp) groups cut =
      let (x, xs, ep) = Filled-cases (t.rows p) hp.filled in
      let (y, ys', ef) = Filled-cases (t.rows first) groups.0.filled in
      let j =
        join_pending_lem types c n op keep m p first others x y xs ys' ep ef concatenates hp
          groups in
      settle seen done ys (some p) first others j.outs j.first j.others j.done concatenates le
        j.returns j.rows j.columns j.groups
        (runs-append (same_key n) seen ys
          ∙ ap₂ (join (same_key n)) (cut' ∙ ap (λ (l : List t.Row). done ++ l ∷ []) ep) (sym cut)
          ∙ join_behind (same_key n) done (x ∷ xs) (map t.rows (first ∷ others))
          ∙ ap (λ l. done ++ l) j.joined)

  group_All :
      (gs : List t.Batch)
      → All (λ r. All (IsTyped types) r × IsFilled r) (map t.rows gs)
      → All (λ g. t.num_columns g ≡ c) gs
      → All (IsGroup types c) gs
  group_All [] h k = tt
  group_All (g ∷ gs) (h, hs) (k, ks) =
      (record { filled = h.1; input = record { typed = h.0; wide = k } }, group_All gs hs ks)

  without_rows :
      (seen : List t.Row) (done : List (List t.Row)) (b : t.Batch) (pending : Option t.Batch)
      → t.num_rows b ≡ 0
      → Tracks seen done pending
      → IsStep seen done (t.rows b) (merge_batch n op keep b pending)
  unfolding merge_batch
  without_rows seen done b pending e tracks = record {
    out = none;
    pending = pending;
    more = [];
    returns = rw e;
    rows = sym (visible-nil types c keep);
    tracks =
        subst (λ s. Tracks s (done ++ []) pending)
          (sym (append-nil seen)
            ∙ ap (λ l. seen ++ l) (sym (length-zero (t.rows b) (omega (arith, t.num_rows-rows b)))))
          (subst (λ d. Tracks seen d pending) (sym (append-nil done)) tracks);
  }

  with_rows :
      (seen : List t.Row) (done : List (List t.Row)) (b : t.Batch) (pending : Option t.Batch)
      (gs : List t.Batch)
      → t.num_rows b ≢ 0
      → group_rows n (suc (t.num_rows b)) b 0 ≡ ok gs
      → map t.rows gs ≡ runs (same_key n) (t.rows b)
      → All (IsGroup types c) gs
      → Concatenates types c
      → 2 ≤ c
      → Tracks seen done pending
      → IsStep seen done (t.rows b) (merge_batch n op keep b pending)
  unfolding merge_batch
  with_rows seen done b pending [] e returns cut groups concatenates le tracks =
      absurd (
        e (
          omega (arith, t.num_rows-rows b, ap length (runs-nil (same_key n) (t.rows b) (sym cut)))))
  with_rows seen done b pending (first ∷ others) e returns cut groups concatenates le tracks =
      let ne : (t.num_rows b == 0) ≡ false = ground arith in
      rw (ne, returns)
        (merge_groups-IsStep seen done (t.rows b) pending first others concatenates le tracks groups
          cut)

  -- One batch of the input.
  pub merge_batch-IsStep :
      (seen : List t.Row) (done : List (List t.Row)) (b : t.Batch) (pending : Option t.Batch)
      → Concatenates types c
      → 2 ≤ c
      → IsInput types c b
      → Tracks seen done pending
      → IsStep seen done (t.rows b) (merge_batch n op keep b pending)
  merge_batch-IsStep seen done b pending concatenates le h tracks =
      let (gs, returns, cut, wide) =
        group_rows-runs types n b h.typed (suc (t.num_rows b)) 0 (omega arith)
          (omega (arith, t.num_rows-rows b)) in
      let groups : All (IsGroup types c) gs =
        group_All gs
          (subst (All (λ r. All (IsTyped types) r × IsFilled r)) (sym cut) (
            All-zip (All (IsTyped types)) IsFilled (runs (same_key n) (t.rows b))
              (runs-All (same_key n) (IsTyped types) (t.rows b) h.typed)
              (runs-IsFilled (same_key n) (t.rows b))))
          (All-map (λ g. t.num_columns g ≡ t.num_columns b) (λ g. t.num_columns g ≡ c)
            (λ g e. e ∙ h.wide) gs wide) in
      elim (Bool-cases (t.num_rows b == 0)) [
        | inl e ↦ without_rows seen done b pending (ground arith) tracks
        | inr e ↦
            with_rows seen done b pending gs (λ z. ground arith) returns cut groups concatenates le
              tracks
      ]
