-- ===== src/Manifest/Encoding.antt =====
-- src/storage/src/manifest/encoding.rs: manifest updates, and the snapshot with its byte format.
-- `Cursor` and the writers are byte lists; `write shall not fail`, so writers return bytes alone.
pub mod Valid
pub mod RoundTrip
pub mod Decode
pub mod Edit
use horaedb.Prelude.{
  ℕ, zero, suc, ◌+◌, ◌*◌, ◌/◌, ◌%◌, ◌^◌, Bool, true, false, not, ◌&&◌, Option, none, some, List, [],
  ◌∷◌, ◌++◌, map, length, retain, any, ltb, ◌==◌, if◌then◌else◌,
}
use horaedb.Prelude.Result.{
  Result, ok, err, panic, unexpected_eof, invalid_magic, invalid_snapshot, ensure, assert, ◌>>=◌,
  ◌>>◌,
}
use horaedb.Types.{TimeRange}
use horaedb.Sst.{FileId, FileMeta, SstFile, PbSstFile, sst_try_from, pb_sst_from}
use horaedb.Manifest.Bytes.{IntCodec, ByteOrder}

pub record ManifestUpdate : Type 0 where
  pub to_adds : List SstFile
  pub to_deletes : List FileId

pub record PbManifestUpdate : Type 0 where
  pub to_adds : List PbSstFile
  pub to_deletes : List FileId

-- `.map(SstFile::try_from).collect::<Result<Vec<_>>>()`
unfoldable pub collect_ssts : List PbSstFile → Result (List SstFile)
collect_ssts [] = ok []
collect_ssts (p ∷ ps) = do f ← sst_try_from p; fs ← collect_ssts ps; ok (f ∷ fs)

unfoldable pub update_try_from : PbManifestUpdate → Result ManifestUpdate
unfolding collect_ssts
update_try_from value = do
  to_adds ← collect_ssts value.to_adds
  ok (record { to_adds = to_adds; to_deletes = value.to_deletes })

unfoldable pub pb_update_from : ManifestUpdate → PbManifestUpdate
pb_update_from value = record {
  to_adds = map pb_sst_from value.to_adds;
  to_deletes = value.to_deletes;
}

pub record SnapshotHeader : Type 0 where
  pub magic : ℕ
  pub version : ℕ
  pub flag : ℕ
  pub length : ℕ

abbrev pub header_length : ℕ
header_length = 4 + 1 + 1 + 8

abbrev pub magic_number : ℕ
magic_number = 0xCAFE_1234

abbrev pub record_version : ℕ
record_version = 1

abbrev pub new_header : SnapshotHeader
new_header = record { magic = magic_number; version = record_version; flag = 0; length = 0 }

-- A read that meets the end of the input is an error of `std::io`.
abbrev pub read_or_eof : {A : Type 0} → Option (A × List ℕ) → Result (A × List ℕ)
read_or_eof none = err unexpected_eof
read_or_eof (some p) = ok p

pub record SnapshotRecord : Type 0 where
  pub id : ℕ
  pub time_range : TimeRange
  pub size : ℕ
  pub num_rows : ℕ

abbrev pub record_length : ℕ
record_length = 8 + 16 + 4 + 4

unfoldable pub record_from : SstFile → SnapshotRecord
record_from value = record {
  id = value.id;
  time_range = value.meta.time_range;
  size = value.meta.size;
  num_rows = value.meta.num_rows;
}

-- The maximal sequence is not stored: it is read back as the id.
unfoldable pub sst_from : SnapshotRecord → SstFile
sst_from r = record {
  id = r.id;
  meta = record {
    max_sequence = r.id;
    num_rows = r.num_rows;
    size = r.size;
    time_range = r.time_range;
  };
}

pub record Snapshot : Type 0 where
  pub header : SnapshotHeader
  pub records : List SnapshotRecord

abbrev pub default_snapshot : Snapshot
default_snapshot = record { header = new_header; records = [] }

module _ ⦃o : ByteOrder⦄ where
  unfoldable pub header_try_new : List ℕ → Result (SnapshotHeader × List ℕ)
  header_try_new reader = do
    (magic, reader) ← read_or_eof (o.u32.read reader)
    ensure (magic == magic_number) invalid_magic
    (version, reader) ← read_or_eof (o.u8.read reader)
    (flag, reader) ← read_or_eof (o.u8.read reader)
    (length, reader) ← read_or_eof (o.u64.read reader)
    ok (record { magic = magic; version = version; flag = flag; length = length }, reader)

  unfoldable pub header_write : SnapshotHeader → List ℕ
  header_write h =
      o.u32.write h.magic ++ (o.u8.write h.version ++ (o.u8.write h.flag ++ o.u64.write h.length))

  unfoldable pub record_write : SnapshotRecord → List ℕ
  record_write r =
      o.u64.write r.id
      ++ (o.i64.write r.time_range.start
          ++ (o.i64.write r.time_range.end ++ (o.u32.write r.size ++ o.u32.write r.num_rows)))

  unfoldable pub record_try_new : List ℕ → Result (SnapshotRecord × List ℕ)
  record_try_new reader = do
    (id, reader) ← read_or_eof (o.u64.read reader)
    (start, reader) ← read_or_eof (o.i64.read reader)
    (end, reader) ← read_or_eof (o.i64.read reader)
    (size, reader) ← read_or_eof (o.u32.read reader)
    (num_rows, reader) ← read_or_eof (o.u32.read reader)
    ok (
      record {
        id = id;
        time_range = record { start = start; end = end };
        size = size;
        num_rows = num_rows;
      },
      reader,
    )

  -- `while cursor.has_remaining()`, on fuel: at `panic` the fuel is out, which no call meets.
  unfoldable pub read_records : ℕ → List ℕ → Result (List SnapshotRecord)
  read_records fuel [] = ok []
  read_records zero (b ∷ bs) = panic
  read_records (suc fuel) (b ∷ bs) = do
    (r, rest) ← record_try_new (b ∷ bs)
    rs ← read_records fuel rest
    ok (r ∷ rs)

  -- What `try_from` does with bytes that are not empty. `length as usize` is the identity on a 64-bit
  -- machine, where the sum wraps.
  unfoldable pub decode_snapshot : List ℕ → Result Snapshot
  decode_snapshot bytes = do
    (header, cursor) ← header_try_new bytes
    let record_total_length = header.length
    ensure
        (ltb 0 record_total_length
          && record_total_length % record_length == 0
          && (record_total_length + header_length) % 2 ^ 64 == length bytes)
        invalid_snapshot
    records ← read_records (length cursor) cursor
    ok (record { header = header; records = records })

  unfoldable pub snapshot_try_from : List ℕ → Result Snapshot
  unfolding decode_snapshot
  snapshot_try_from bytes = if length bytes == 0 then ok default_snapshot else decode_snapshot bytes

  unfoldable pub records_write : List SnapshotRecord → List ℕ
  records_write [] = []
  records_write (r ∷ rs) = record_write r ++ records_write rs

  unfoldable pub into_bytes : Snapshot → List ℕ
  into_bytes s = header_write s.header ++ records_write s.records

unfoldable pub into_ssts : Snapshot → List SstFile
into_ssts s = if s.header.length == 0 then [] else map sst_from s.records

-- The header's length follows the number of records.
abbrev pub with_records : Snapshot → List SnapshotRecord → Snapshot
with_records s records = record {
  header = record s.header { length = length records * record_length % 2 ^ 64 };
  records = records;
}

unfoldable pub add_records : Snapshot → List SstFile → Snapshot
add_records s ssts = with_records s (s.records ++ map record_from ssts)

unfoldable pub contains : List FileId → FileId → Bool
contains ids i = any (λ j. j == i) ids

-- `assert!(self.records.iter().any(|r| r.id == *id))` for each id, in a debug build.
unfoldable pub assert_found : List SnapshotRecord → List FileId → Result (Unit {0})
assert_found records [] = ok tt
assert_found records (i ∷ is) = do assert (any (λ r. r.id == i) records); assert_found records is

unfoldable pub delete_records : Bool → Snapshot → List FileId → Result Snapshot
unfolding assert_found
delete_records debug_assertions s to_deletes = do
  if debug_assertions then assert_found s.records to_deletes else ok tt
  ok (with_records s (retain (λ r. not (contains to_deletes r.id)) s.records))
