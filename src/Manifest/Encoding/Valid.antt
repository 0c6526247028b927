-- ===== src/Manifest/Encoding/Valid.antt =====
-- Well-formed snapshots: what the byte format of manifest/encoding.rs can hold.
use horaedb.Prelude.{◌+◌, ◌*◌, ◌^◌, ◌<◌, ◌≡◌, All, length}
use horaedb.Prelude.Int.{IsI64}
use horaedb.Manifest.Encoding.{
  SnapshotHeader, SnapshotRecord, Snapshot, magic_number, header_length, record_length,
}

pub record HeaderInRange (h : SnapshotHeader) : Type 0 where
  pub magic : h.magic ≡ magic_number
  pub version : h.version < 2 ^ 8
  pub flag : h.flag < 2 ^ 8
  pub length : h.length < 2 ^ 64

pub record RecordInRange (r : SnapshotRecord) : Type 0 where
  pub id : r.id < 2 ^ 64
  pub start : IsI64 r.time_range.start
  pub end : IsI64 r.time_range.end
  pub size : r.size < 2 ^ 32
  pub num_rows : r.num_rows < 2 ^ 32

-- The header counts the records' bytes, and the whole fits the address space.
pub record SnapshotIsValid (s : Snapshot) : Type 0 where
  pub header : HeaderInRange s.header
  pub records : All RecordInRange s.records
  pub counted : s.header.length ≡ length s.records * record_length
  pub fits : s.header.length + header_length < 2 ^ 64
