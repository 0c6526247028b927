-- ===== src/Sst.antt =====
-- src/storage/src/sst.rs, and the messages of src/pb_types/protos/sst.proto that it converts to.
-- All clones of a file share its `in_compaction` flag, behind an `Arc`. The flags are a store, keyed
-- by the file's id: the ids come from `allocate_id`, so in one process files of one id are clones.
pub mod Convert
use horaedb.Prelude.{
  ℕ, ◌+◌, ◌%◌, ◌^◌, Bool, true, false, Option, none, some, ◌&&◌, ◌==◌, if◌then◌else◌,
}
use horaedb.Prelude.Int.{ltb_ℤ, eqb_ℤ}
use horaedb.Prelude.Result.{Result, ok, err, meta_missing, time_range_missing, ◌>>=◌}
use horaedb.Types.{Timestamp, TimeRange}

abbrev pub FileId : Type 0
FileId = ℕ

pub record FileMeta : Type 0 where
  pub max_sequence : ℕ
  pub num_rows : ℕ
  pub size : ℕ
  pub time_range : TimeRange

pub record SstFile : Type 0 where
  pub id : FileId
  pub meta : FileMeta

-- The `in_compaction` flags. A new file has `false`.
abbrev pub Marks : Type 0
Marks = FileId → Bool

set_mark : Bool → SstFile → Marks → Marks
set_mark b f marks i = if f.id == i then b else marks i

unfoldable pub mark_compaction : SstFile → Marks → Marks
unfolding set_mark
mark_compaction f marks = set_mark true f marks

unfoldable pub unmark_compaction : SstFile → Marks → Marks
unfolding set_mark
unmark_compaction f marks = set_mark false f marks

unfoldable pub is_compaction : Marks → SstFile → Bool
is_compaction marks f = marks f.id

unfoldable pub is_expired : SstFile → Option Timestamp → Bool
is_expired f none = false
is_expired f (some expire_time) = ltb_ℤ f.meta.time_range.end expire_time

-- `NEXT_ID.fetch_add(1)`: the id, and the counter after it.
unfoldable pub allocate_id : ℕ → FileId × ℕ
allocate_id next = (next, (next + 1) % 2 ^ 64)

-- The derived `==` of `FileMeta`.
unfoldable pub meta_eq : FileMeta → FileMeta → Bool
meta_eq a b =
    a.max_sequence == b.max_sequence
    && a.num_rows == b.num_rows
    && a.size == b.size
    && eqb_ℤ a.time_range.start b.time_range.start
    && eqb_ℤ a.time_range.end b.time_range.end

-- `PartialEq::eq`, whose second half compares the metadata of `self` with itself.
unfoldable pub sst_eq : SstFile → SstFile → Bool
sst_eq self other = self.id == other.id && meta_eq self.meta self.meta

-- The messages: a field that is a message may be absent.
pub record PbSstMeta : Type 0 where
  pub max_sequence : ℕ
  pub num_rows : ℕ
  pub size : ℕ
  pub time_range : Option TimeRange

pub record PbSstFile : Type 0 where
  pub id : ℕ
  pub meta : Option PbSstMeta

unfoldable pub meta_try_from : PbSstMeta → Result FileMeta
meta_try_from value = elim value.time_range [
  | none ↦ err time_range_missing
  | some time_range ↦ ok (record {
    max_sequence = value.max_sequence;
    num_rows = value.num_rows;
    size = value.size;
    time_range = record { start = time_range.start; end = time_range.end };
  })
]

unfoldable pub pb_meta_from : FileMeta → PbSstMeta
pb_meta_from value = record {
  max_sequence = value.max_sequence;
  num_rows = value.num_rows;
  size = value.size;
  time_range = some (record { start = value.time_range.start; end = value.time_range.end });
}

unfoldable pub sst_try_from : PbSstFile → Result SstFile
unfolding meta_try_from
sst_try_from value = elim value.meta [
  | none ↦ err meta_missing
  | some pb_meta ↦ do meta ← meta_try_from pb_meta; ok (record { id = value.id; meta = meta })
]

unfoldable pub pb_sst_from : SstFile → PbSstFile
unfolding pb_meta_from
pb_sst_from value = record { id = value.id; meta = some (pb_meta_from value.meta) }
