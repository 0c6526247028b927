-- ===== src/Manifest/Encoding/Edit.antt =====
-- `add_records`, `delete_records`, `into_ssts`: the snapshot as a list of files.
use horaedb.Prelude.{
  ℕ, ◌+◌, ◌*◌, ◌^◌, ◌≤◌, ◌<◌, ◌≡◌, ◌↔◌, inl, inr, Bool-cases, length-append, length-map, ◌⊎◌,
  length-retain, retain-map, All-append, All-retain, subst, ap₂, sym, refl, ap, ◌∙◌, Bool, true,
  false, not, List, [], ◌∷◌, ◌++◌, map, map-append, All, length, retain, any, ◌==◌, arith,
}
use horaedb.Prelude.Result.{ok, panic, bind_then, ok-injective}
use horaedb.Prelude.Int.{IsI64}
use horaedb.Sst.{FileId, SstFile}
use horaedb.Manifest.Encoding.{
  SnapshotRecord, Snapshot, record_length, header_length, record_from, sst_from, with_records,
  into_ssts, add_records, contains, assert_found, delete_records,
}
use horaedb.Manifest.Encoding.Valid.{HeaderInRange, RecordInRange, SnapshotIsValid}

-- The header counts the records, and a snapshot of `n` more records still fits.
pub record HasRoom (s : Snapshot) (n : ℕ) : Type 0 where
  pub counted : s.header.length ≡ length s.records * record_length
  pub room : (length s.records + n) * record_length + header_length < 2 ^ 64

pub HasRoom-mono : (s : Snapshot) {m n : ℕ} → HasRoom s n → m ≤ n → HasRoom s m
HasRoom-mono s h le = record { counted = h.counted; room = omega (arith, h.room) }

-- A file as the snapshot gives it back.
abbrev pub stored : SstFile → SstFile
stored f = sst_from (record_from f)

abbrev pub kept : List FileId → SstFile → Bool
kept ids f = not (contains ids f.id)

-- What the snapshot keeps of a file is all of it exactly when its maximal sequence is its id.
pub stored_iff : (f : SstFile) → (stored f ≡ f) ↔ (f.meta.max_sequence ≡ f.id)
unfolding sst_from record_from
stored_iff f = (λ e. ground arith, λ e. ground arith)

length-zero : {A : Type 0} (l : List A) → length l * record_length ≡ 0 → l ≡ []
length-zero [] h = refl
length-zero (x ∷ xs) h = absurd (omega arith)

pub into_ssts-map : (s : Snapshot) {n : ℕ} → HasRoom s n → into_ssts s ≡ map sst_from s.records
unfolding into_ssts
into_ssts-map s h = elim (Bool-cases (s.header.length == 0)) [
  | inl e ↦ rw (e, length-zero s.records (ground arith))
  | inr e ↦ rw e
]

map-stored : (fs : List SstFile) → map sst_from (map record_from fs) ≡ map stored fs
map-stored [] = refl
map-stored (f ∷ fs) = ap (λ l. stored f ∷ l) (map-stored fs)

with_records-HasRoom :
    (s : Snapshot) (rs : List SnapshotRecord) (n : ℕ)
    → (length rs + n) * record_length + header_length < 2 ^ 64
    → HasRoom (with_records s rs) n
with_records-HasRoom s rs n h = record { counted = omega arith; room = h }

pub add_records-HasRoom :
    (s : Snapshot) (fs : List SstFile) (n : ℕ)
    → HasRoom s (length fs + n)
    → HasRoom (add_records s fs) n
unfolding add_records
add_records-HasRoom s fs n h =
    with_records-HasRoom s (s.records ++ map record_from fs) n
      (rw (length-append, length-map) (omega (arith, h.room)))

-- Added files stand behind the old ones, in their order.
pub into_ssts-add_records :
    (s : Snapshot) (fs : List SstFile)
    → HasRoom s (length fs)
    → into_ssts (add_records s fs) ≡ into_ssts s ++ map stored fs
into_ssts-add_records s fs h =
    into_ssts-map (add_records s fs) {n = 0}
      (add_records-HasRoom s fs 0 (subst (HasRoom s) (omega arith) h))
    ∙ unfold add_records in
      map-append sst_from s.records (map record_from fs)
      ∙ ap₂ (λ (l k : List SstFile). l ++ k) (sym (into_ssts-map s h)) (map-stored fs)

abbrev remaining : List FileId → Snapshot → Snapshot
remaining ids s = with_records s (retain (λ r. not (contains ids r.id)) s.records)

remaining-HasRoom :
    (s : Snapshot) (ids : List FileId) (n : ℕ) → HasRoom s n → HasRoom (remaining ids s) n
remaining-HasRoom s ids n h = with_records-HasRoom s _ n (
    omega
      (arith, h.room, length-retain (λ (r : SnapshotRecord). not (contains ids r.id)) s.records))

into_ssts-remaining :
    (s : Snapshot) (ids : List FileId) (n : ℕ)
    → HasRoom s n
    → into_ssts (remaining ids s) ≡ retain (kept ids) (into_ssts s)
unfolding sst_from
into_ssts-remaining s ids n h =
    into_ssts-map (remaining ids s) (remaining-HasRoom s ids n h)
    ∙ sym (retain-map (kept ids) sst_from s.records)
    ∙ ap (retain (kept ids)) (sym (into_ssts-map s h))

delete_records-remaining :
    (debug : Bool) (s : Snapshot) (ids : List FileId) {s' : Snapshot}
    → delete_records debug s ids ≡ ok s'
    → remaining ids s ≡ s'
unfolding delete_records
delete_records-remaining debug s ids e = bind_then _ _ e λ u _ k. ok-injective k

-- Deletion keeps the files whose ids are not listed, in their order, in either build.
pub into_ssts-delete_records :
    (debug : Bool) (s : Snapshot) (ids : List FileId) (n : ℕ) {s' : Snapshot}
    → HasRoom s n
    → delete_records debug s ids ≡ ok s'
    → HasRoom s' n × (into_ssts s' ≡ retain (kept ids) (into_ssts s))
into_ssts-delete_records debug s ids n h e =
    subst (λ t. HasRoom t n × (into_ssts t ≡ retain (kept ids) (into_ssts s)))
      (delete_records-remaining debug s ids e)
      (remaining-HasRoom s ids n h, into_ssts-remaining s ids n h)

-- A release build deletes always.
pub delete_records_release :
    (s : Snapshot) (ids : List FileId) → (s' : Snapshot) × (delete_records false s ids ≡ ok s')
unfolding delete_records
delete_records_release s ids = (remaining ids s, refl)

abbrev pub Found : Snapshot → FileId → Type 0
Found s i = any (λ r. r.id == i) s.records ≡ true

assert_found-cases :
    (s : Snapshot) (ids : List FileId)
    → (All (Found s) ids × (assert_found s.records ids ≡ ok tt))
      ⊎ ((¬ All (Found s) ids) × (assert_found s.records ids ≡ panic))
unfolding assert_found
assert_found-cases s [] = inl (tt, refl)
assert_found-cases s (i ∷ is) = elim (Bool-cases (any (λ r. r.id == i) s.records)) [
  | inr e ↦ inr (λ all. cc (all.0, e), rw e)
  | inl e ↦ elim (assert_found-cases s is) [
    | inl (all, returns) ↦ inl ((e, all), rw (e, returns))
    | inr (some_missing, panics) ↦ inr (λ all. some_missing all.1, rw (e, panics))
  ]
]

-- A debug build deletes exactly when each id is found, and otherwise panics.
pub delete_records_debug :
    (s : Snapshot) (ids : List FileId)
    → (All (Found s) ids × (delete_records true s ids ≡ delete_records false s ids))
      ⊎ ((¬ All (Found s) ids) × (delete_records true s ids ≡ panic))
unfolding delete_records
delete_records_debug s ids = elim (assert_found-cases s ids) [
  | inl (all, returns) ↦ inl (all, rw returns)
  | inr (missing, panics) ↦ inr (missing, rw panics)
]

-- The in-memory list of files obeys the byte format.
pub record FileInRange (f : SstFile) : Type 0 where
  pub id : f.id < 2 ^ 64
  pub start : IsI64 f.meta.time_range.start
  pub end : IsI64 f.meta.time_range.end
  pub size : f.meta.size < 2 ^ 32
  pub num_rows : f.meta.num_rows < 2 ^ 32

records_InRange : (fs : List SstFile) → All FileInRange fs → All RecordInRange (map record_from fs)
unfolding record_from
records_InRange [] h = tt
records_InRange (f ∷ fs) (h, hs) = (
  record { id = h.id; start = h.start; end = h.end; size = h.size; num_rows = h.num_rows },
  records_InRange fs hs,
)

with_records-IsValid :
    (s : Snapshot) (rs : List SnapshotRecord)
    → HeaderInRange s.header
    → All RecordInRange rs
    → length rs * record_length + header_length < 2 ^ 64
    → SnapshotIsValid (with_records s rs)
with_records-IsValid s rs h v fits = record {
  header = record { magic = h.magic; version = h.version; flag = h.flag; length = omega arith };
  records = v;
  counted = omega arith;
  fits = omega arith;
}

-- Adding files that the format can hold keeps a snapshot valid, while it fits the address space.
pub add_records-IsValid :
    (s : Snapshot) (fs : List SstFile)
    → SnapshotIsValid s
    → All FileInRange fs
    → (length s.records + length fs) * record_length + header_length < 2 ^ 64
    → SnapshotIsValid (add_records s fs)
unfolding add_records
add_records-IsValid s fs v h fits =
    with_records-IsValid s _ v.header
      (All-append RecordInRange s.records (map record_from fs) v.records (records_InRange fs h))
      (rw (length-append, length-map) fits)

-- A deletion that returns keeps a snapshot valid, in either build.
pub delete_records-IsValid :
    (debug : Bool) (s : Snapshot) (ids : List FileId) {s' : Snapshot}
    → SnapshotIsValid s
    → delete_records debug s ids ≡ ok s'
    → SnapshotIsValid s'
delete_records-IsValid debug s ids v e =
    subst SnapshotIsValid (delete_records-remaining debug s ids e) (
      with_records-IsValid s _ v.header (All-retain RecordInRange _ s.records v.records) (
        omega (
          arith,
          v.fits,
          v.counted,
          length-retain (λ (r : SnapshotRecord). not (contains ids r.id)) s.records,
        )))
