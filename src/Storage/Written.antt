-- ===== src/Storage/Written.antt =====
-- What a write leaves in the manifest.
use horaedb.Prelude.{
  ℕ, ◌%◌, ◌^◌, ◌≡◌, refl, ap, subst, ◌+◌, ◌∙◌, not, Option, List, [], ◌∷◌, ◌++◌, retain,
  if◌then◌else◌,
}
use horaedb.Prelude.Result.{Result, ok, err, panic, ensure, store_failed}
use horaedb.Prelude.Exec.{continue, lift}
use horaedb.Prelude.Gives.{Gives, Anything, Gives-pure, Gives-lift, Gives-bind, Gives-then}
use horaedb.Types.{TimeRange, Duration}
use horaedb.Sst.{FileId, SstFile}
use horaedb.Schema.{StorageSchema, fill_builtin_columns}
use horaedb.Manifest.{add_file, update}
use horaedb.Manifest.Env.{Env}
use horaedb.Manifest.Encoding.{ManifestUpdate, contains}
use horaedb.Manifest.Merge.{apply_update}
use horaedb.Manifest.Updates.{HasApplied, update-HasApplied}
use horaedb.Read.{some_or_fail}
use horaedb.Read.Plan.{Planner}
use horaedb.Storage.{WriteRequest, WriteResult, Storage, StorageIo, check_segment, sort_batch}
use horaedb.Storage.Run.{
  on_store, write_sorted, write_file, write_batch, add_written, write_checked, write,
}

-- The file that a write of `rows` rows with this range adds: the id is also its sequence.
pub record IsFileOf (file_id : FileId) (rows : ℕ) (range : TimeRange) (f : SstFile) : Type 0 where
  pub id : f.id ≡ file_id
  pub sequence : f.meta.max_sequence ≡ file_id
  pub num_rows : f.meta.num_rows ≡ rows % 2 ^ 32
  pub time_range : f.meta.time_range ≡ range

-- The cached list after a write: one file more if it returns, as before if not.
abbrev pub HasAdded : (SstFile → Type 0) → List SstFile → Result (Unit {0}) → List SstFile → Type 0
HasAdded P ssts (ok u) after = (f : SstFile) × (after ≡ ssts ++ f ∷ []) × P f
HasAdded P ssts (err e) after = after ≡ ssts
HasAdded P ssts panic after = after ≡ ssts

retain_no_deletes : (l : List SstFile) → retain (λ f. not (contains [] f.id)) l ≡ l
unfolding contains
retain_no_deletes [] = refl
retain_no_deletes (f ∷ fs) = ap (λ l. f ∷ l) (retain_no_deletes fs)

added_alone :
    (ssts : List SstFile) (f : SstFile)
    → apply_update ssts (record { to_adds = f ∷ []; to_deletes = [] }) ≡ ssts ++ f ∷ []
unfolding apply_update
added_alone ssts f = retain_no_deletes (ssts ++ f ∷ [])

-- Both ids of a result.
abbrev HasId : FileId → WriteResult → Type 0
HasId id r = (r.id ≡ id) × (r.seq ≡ id)

HasApplied-HasAdded :
    (P : SstFile → Type 0) (f : SstFile) (ssts : List SstFile) (r : Result (Unit {0}))
    (after : List SstFile)
    → P f
    → HasApplied (record { to_adds = f ∷ []; to_deletes = [] }) ssts r after
    → HasAdded P ssts r after
HasApplied-HasAdded P f ssts (ok u) after p h = (f, h ∙ added_alone ssts f, p)
HasApplied-HasAdded P f ssts (err e) after p h = h
HasApplied-HasAdded P f ssts panic after p h = absurd h

module _ {S Q : Type 0} ⦃planner : Planner⦄ ⦃env : Env S Q⦄
    ⦃io : StorageIo S planner.arrow.Batch⦄ where
  Lists : List SstFile → Storage S Q → Type 0
  Lists ssts x = x.manifest.ssts ≡ ssts

  Gives-on_store :
      {A : Type 0} (l : List SstFile) (call : S → A × S) → Gives (Lists l) Anything (on_store call)
  unfolding Lists
  Gives-on_store l call = record { keeps = λ x h. h; gives = λ x h a e. tt }

  Gives-write_sorted :
      (l : List SstFile) (schema : StorageSchema planner.arrow.Field) (id : FileId)
      (batches : List (Option planner.arrow.Batch))
      → Gives (Lists l) Anything (write_sorted schema id batches)
  unfolding write_sorted
  Gives-write_sorted l schema id [] = Gives-pure Anything tt tt
  Gives-write_sorted l schema id (res ∷ batches) =
      Gives-bind Anything Anything (lift (some_or_fail res)) _ (Gives-lift _) λ batch _.
        Gives-bind Anything Anything
          (lift (fill_builtin_columns ⦃arrow = planner.arrow⦄ schema batch id)) _ (Gives-lift _)
          λ filled _.
            Gives-bind Anything Anything (on_store (io.write_rows id filled)) _ (Gives-on_store l _)
              λ written _.
                Gives-then Anything (lift (ensure written store_failed)) _ (Gives-lift _)
                  (Gives-write_sorted l schema id batches)

  -- A file's write does not touch the list, and its result has the file's id twice.
  Gives-write_file :
      (l : List SstFile) (schema : StorageSchema planner.arrow.Field) (batch : planner.arrow.Batch)
      (id : FileId)
      → Gives (Lists l) (HasId id) (write_file schema batch id)
  unfolding write_file
  Gives-write_file l schema batch id =
      Gives-bind Anything (HasId id) (on_store (io.create_writer id)) _ (Gives-on_store l _)
        λ created _. Gives-then (HasId id) (lift (ensure created store_failed)) _ (Gives-lift _) (
          Gives-bind Anything (HasId id) (lift (sort_batch schema batch)) _ (Gives-lift _)
            λ batches _.
              Gives-then (HasId id) (write_sorted schema id batches) _
                (Gives-write_sorted l schema id batches)
                (Gives-bind Anything (HasId id) (on_store (io.close id)) _ (Gives-on_store l _)
                  λ closed _.
                    Gives-then (HasId id) (lift (ensure closed store_failed)) _ (Gives-lift _) (
                      Gives-bind Anything (HasId id) (on_store (io.head id)) _ (Gives-on_store l _)
                        λ size _.
                          Gives-bind Anything (HasId id) (lift (some_or_fail size)) _ (Gives-lift _)
                            λ object_size _.
                              Gives-pure (HasId id)
                                (record { id = id; seq = id; size = object_size }) (refl, refl))))

  module _ (schema : StorageSchema planner.arrow.Field) (req : WriteRequest planner.arrow.Batch)
      (x : Storage S Q) where
    abbrev Added : SstFile → Type 0
    Added = IsFileOf x.next_file_id (planner.arrow.num_rows req.batch) req.time_range

    added_file : WriteResult → SstFile
    added_file result = record {
      id = result.id;
      meta = record {
        max_sequence = result.seq;
        num_rows = planner.arrow.num_rows req.batch % 2 ^ 32;
        size = result.size % 2 ^ 32;
        time_range = req.time_range;
      };
    }

    -- After the outcome of the file's write.
    add_written-HasAdded :
        (r : Result WriteResult) (y : Storage S Q)
        → y.manifest.ssts ≡ x.manifest.ssts
        → ((a : WriteResult) → r ≡ ok a → HasId x.next_file_id a)
        → HasAdded Added x.manifest.ssts
            (continue (add_written req) r y).0
            (continue (add_written req) r y).1.manifest.ssts
    unfolding add_written added_file add_file
    add_written-HasAdded (ok a) y same ids =
        let u : ManifestUpdate = record { to_adds = added_file a ∷ []; to_deletes = [] } in
        let (e, f) = ids a refl in
        HasApplied-HasAdded Added (added_file a) x.manifest.ssts _ _
          (record { id = e; sequence = f; num_rows = refl; time_range = refl })
          (subst (λ l. HasApplied u l (update u y.manifest).0 (update u y.manifest).1.ssts) same
            (update-HasApplied u y.manifest))
    add_written-HasAdded (err e) y same ids = same
    add_written-HasAdded panic y same ids = same

    write_checked-HasAdded :
        HasAdded Added x.manifest.ssts
          (write_checked schema req x).0
          (write_checked schema req x).1.manifest.ssts
    unfolding write_checked write_batch Lists
    write_checked-HasAdded =
        let start = record x { next_file_id = (x.next_file_id + 1) % 2 ^ 64 } in
        let g = Gives-write_file x.manifest.ssts schema req.batch x.next_file_id in
        add_written-HasAdded (write_file schema req.batch x.next_file_id start).0
          (write_file schema req.batch x.next_file_id start).1 (g.keeps start refl)
          (g.gives start refl)

    check_then :
        (c : Result (Unit {0}))
        → HasAdded Added x.manifest.ssts
            (continue (λ u. write_checked schema req) c x).0
            (continue (λ u. write_checked schema req) c x).1.manifest.ssts
    check_then (ok u) = write_checked-HasAdded
    check_then (err e) = refl
    check_then panic = refl

    -- A write that returns has added one file to the cached list, with the next id, which is also its
    -- sequence, and with the rows and the range of the request. One that fails has left the list as it
    -- was, whatever the store, the writer and the planner do.
    pub write-HasAdded :
        (duration : Duration)
        → HasAdded Added x.manifest.ssts
            (write schema duration req x).0
            (write schema duration req x).1.manifest.ssts
    unfolding write
    write-HasAdded duration = check_then (
        if req.enable_check
        then check_segment env.debug_assertions duration req.time_range
        else ok tt)
