-- ===== src/Examples/Snapshots.antt =====
-- The theorems on snapshots, at a snapshot of two files and at the empty one, in little endian.
use horaedb.Prelude.{◌≡◌, ◌≢◌, refl, ap, true, List, [], ◌∷◌, All, length, arith}
use horaedb.Prelude.Int.{pos}
use horaedb.Prelude.Result.{ok, err, invalid_snapshot}
use horaedb.Sst.{SstFile}
use horaedb.Manifest.Bytes.{IsByte}
use horaedb.Manifest.Bytes.LittleEndian.{little_endian}
use horaedb.Manifest.Encoding.{
  Snapshot, default_snapshot, snapshot_try_from, into_bytes, add_records, delete_records,
  record_from, contains,
}
use horaedb.Manifest.Encoding.Valid.{SnapshotIsValid}
use horaedb.Manifest.Encoding.RoundTrip.{
  snapshot_try_from-into_bytes, into_bytes-IsByte, length-into_bytes, snapshot_try_from_emptied,
}
use horaedb.Manifest.Encoding.Decode.{into_bytes-snapshot_try_from}
use horaedb.Manifest.Encoding.Edit.{HasRoom, FileInRange, add_records-IsValid}
use horaedb.Examples.{file}

abbrev pub two : List SstFile
two = file 1 100 (pos 5) (pos 20) ∷ file 2 30 (pos 1200) (pos 1300) ∷ []

abbrev pub snapshot : Snapshot
snapshot = add_records default_snapshot two

pub empty-IsValid : SnapshotIsValid default_snapshot
empty-IsValid = record {
  header = record { magic = refl; version = omega arith; flag = omega arith; length = omega arith };
  records = tt;
  counted = refl;
  fits = omega arith;
}

pub two-InRange : All FileInRange two
two-InRange = (
  record {
    id = omega arith;
    start = (omega arith, omega arith);
    end = (omega arith, omega arith);
    size = omega arith;
    num_rows = omega arith;
  },
  (
    record {
      id = omega arith;
      start = (omega arith, omega arith);
      end = (omega arith, omega arith);
      size = omega arith;
      num_rows = omega arith;
    },
    tt,
  ),
)

snapshot-IsValid : SnapshotIsValid snapshot
snapshot-IsValid = add_records-IsValid default_snapshot two empty-IsValid two-InRange (omega arith)

snapshot-HasRoom : HasRoom snapshot 5
snapshot-HasRoom = record {
  counted = snapshot-IsValid.counted;
  room = unfold add_records in omega arith;
}

nonempty : snapshot.records ≢ []
nonempty e = unfold add_records in cc

bytes_IsByte : All IsByte (into_bytes ⦃o = little_endian⦄ snapshot)
bytes_IsByte = into_bytes-IsByte ⦃o = little_endian⦄ snapshot

snapshot_try_from-into_bytes_example :
    snapshot_try_from ⦃o = little_endian⦄ (into_bytes ⦃o = little_endian⦄ snapshot) ≡ ok snapshot
snapshot_try_from-into_bytes_example =
    snapshot_try_from-into_bytes ⦃o = little_endian⦄ snapshot snapshot-IsValid nonempty

into_bytes-snapshot_try_from_example :
    SnapshotIsValid snapshot
    × (snapshot.records ≢ [])
    × (into_bytes ⦃o = little_endian⦄ snapshot ≡ into_bytes ⦃o = little_endian⦄ snapshot)
into_bytes-snapshot_try_from_example =
    into_bytes-snapshot_try_from ⦃o = little_endian⦄ (into_bytes ⦃o = little_endian⦄ snapshot)
      snapshot bytes_IsByte
      (λ e. omega (arith, length-into_bytes ⦃o = little_endian⦄ snapshot, ap length e))
      (snapshot_try_from-into_bytes ⦃o = little_endian⦄ snapshot snapshot-IsValid nonempty)

snapshot_try_from_emptied_example :
    snapshot_try_from ⦃o = little_endian⦄ (into_bytes ⦃o = little_endian⦄ default_snapshot)
    ≡ err invalid_snapshot
snapshot_try_from_emptied_example =
    snapshot_try_from_emptied ⦃o = little_endian⦄ default_snapshot empty-IsValid refl

abbrev without_first : Snapshot
without_first = add_records default_snapshot (file 2 30 (pos 1200) (pos 1300) ∷ [])

deletes_first : delete_records true snapshot (1 ∷ []) ≡ ok without_first
unfolding delete_records add_records record_from contains
deletes_first = refl
