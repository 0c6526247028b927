-- ===== src/Manifest/Encoding/RoundTrip.antt =====
-- Decoding after encoding.
use horaedb.Prelude.{
  ℕ, zero, suc, ◌+◌, ◌*◌, ◌≤◌, ◌≡◌, ◌≢◌, refl, List, [], ◌∷◌, ◌++◌, append_assoc, All, All-append,
  length, length-append, ap, arith,
}
use horaedb.Prelude.Result.{ok, err, invalid_snapshot, ◌>>=◌}
use horaedb.Manifest.Bytes.{ByteOrder, IsByte}
use horaedb.Manifest.Encoding.{
  SnapshotHeader, SnapshotRecord, Snapshot, record_length, header_length, header_try_new,
  header_write, record_try_new, record_write, read_records, records_write, snapshot_try_from,
  into_bytes,
}
use horaedb.Manifest.Encoding.Valid.{HeaderInRange, RecordInRange, SnapshotIsValid}

module _ ⦃o : ByteOrder⦄ where
  pub header_try_new-header_write :
      (h : SnapshotHeader) (rest : List ℕ)
      → HeaderInRange h
      → header_try_new (header_write h ++ rest) ≡ ok (h, rest)
  unfolding header_try_new header_write
  header_try_new-header_write h rest v = simp append_assoc (
      rw
        (
          o.u32.read-write h.magic _ (omega arith),
          o.u8.read-write h.version _ v.version,
          o.u8.read-write h.flag _ v.flag,
          o.u64.read-write h.length _ v.length,
        )
        (ground arith))

  pub record_try_new-record_write :
      (r : SnapshotRecord) (rest : List ℕ)
      → RecordInRange r
      → record_try_new (record_write r ++ rest) ≡ ok (r, rest)
  unfolding record_try_new record_write
  record_try_new-record_write r rest v = simp append_assoc (
      rw
        (
          o.u64.read-write r.id _ v.id,
          o.i64.read-write r.time_range.start _ v.start,
          o.i64.read-write r.time_range.end _ v.end,
          o.u32.read-write r.size _ v.size,
          o.u32.read-write r.num_rows _ v.num_rows,
        )
        refl)

  pub length-header_write : (h : SnapshotHeader) → length (header_write h) ≡ header_length
  unfolding header_write
  length-header_write h = simp length-append (
      omega (
        arith,
        o.u32.length-write h.magic,
        o.u8.length-write h.version,
        o.u8.length-write h.flag,
        o.u64.length-write h.length,
      ))

  pub length-record_write : (r : SnapshotRecord) → length (record_write r) ≡ record_length
  unfolding record_write
  length-record_write r = simp length-append (
      omega (
        arith,
        o.u64.length-write r.id,
        o.i64.length-write r.time_range.start,
        o.i64.length-write r.time_range.end,
        o.u32.length-write r.size,
        o.u32.length-write r.num_rows,
      ))

  pub length-records_write :
      (rs : List SnapshotRecord) → length (records_write rs) ≡ length rs * record_length
  unfolding records_write
  length-records_write [] = refl
  length-records_write (r ∷ rs) =
      simp length-append (omega (arith, length-record_write r, length-records_write rs))

  read_records_step :
      (fuel : ℕ) (bs : List ℕ) (r : SnapshotRecord) (rest : List ℕ)
      → record_try_new bs ≡ ok (r, rest)
      → read_records (suc fuel) bs ≡ (read_records fuel rest >>= λ rs. ok (r ∷ rs))
  unfolding read_records
  read_records_step fuel [] r rest e =
      unfold record_try_new in cc (o.u64.read_short [] (omega arith))
  read_records_step fuel (b ∷ bs) r rest e = rw e

  read_records-records_write :
      (rs : List SnapshotRecord) (fuel : ℕ)
      → All RecordInRange rs
      → length rs ≤ fuel
      → read_records fuel (records_write rs) ≡ ok rs
  unfolding records_write
  read_records-records_write [] fuel v h = unfold read_records in refl
  read_records-records_write (r ∷ rs) zero v h = absurd (omega arith)
  read_records-records_write (r ∷ rs) (suc fuel) (vr, vs) h = rw (
    read_records_step fuel _ r (records_write rs) (record_try_new-record_write r _ vr),
    read_records-records_write rs fuel vs (omega arith),
  )

  pub length-into_bytes :
      (s : Snapshot) → length (into_bytes s) ≡ header_length + length s.records * record_length
  unfolding into_bytes
  length-into_bytes s =
      simp length-append
        (omega (arith, length-header_write s.header, length-records_write s.records))

  decoded_header :
      (s : Snapshot)
      → SnapshotIsValid s
      → header_try_new (into_bytes s) ≡ ok (s.header, records_write s.records)
  unfolding into_bytes
  decoded_header s v = header_try_new-header_write s.header (records_write s.records) v.header

  -- A record takes a byte at least, so the bytes are fuel enough.
  enough_fuel : (rs : List SnapshotRecord) → length rs ≤ length (records_write rs)
  enough_fuel rs = omega (arith, length-records_write rs)

  length-ne-zero : (rs : List SnapshotRecord) → rs ≢ [] → length rs ≢ 0
  length-ne-zero [] h e = h refl
  length-ne-zero (r ∷ rs) h e = omega arith

  -- A valid snapshot with a record at least is decoded from the bytes that it encodes to.
  pub snapshot_try_from-into_bytes :
      (s : Snapshot) → SnapshotIsValid s → s.records ≢ [] → snapshot_try_from (into_bytes s) ≡ ok s
  unfolding snapshot_try_from
  snapshot_try_from-into_bytes s v some_record =
      rw
        (
          decoded_header s v,
          length-into_bytes s,
          read_records-records_write s.records (length (records_write s.records)) v.records
              (enough_fuel s.records),
        )
        (ground (arith, length-ne-zero s.records some_record))

  -- A valid snapshot without records encodes to a header that is refused.
  pub snapshot_try_from_emptied :
      (s : Snapshot)
      → SnapshotIsValid s
      → s.records ≡ []
      → snapshot_try_from (into_bytes s) ≡ err invalid_snapshot
  unfolding snapshot_try_from
  snapshot_try_from_emptied s v no_record =
      rw (decoded_header s v) (ground (arith, length-into_bytes s, ap length no_record))

  records_write-IsByte : (rs : List SnapshotRecord) → All IsByte (records_write rs)
  unfolding records_write record_write
  records_write-IsByte [] = tt
  records_write-IsByte (r ∷ rs) =
      All-append IsByte _ _
        (All-append IsByte _ _ (o.u64.write-IsByte r.id) (
          All-append IsByte _ _ (o.i64.write-IsByte r.time_range.start) (
            All-append IsByte _ _ (o.i64.write-IsByte r.time_range.end)
              (All-append IsByte _ _ (o.u32.write-IsByte r.size) (o.u32.write-IsByte r.num_rows)))))
        (records_write-IsByte rs)

  pub into_bytes-IsByte : (s : Snapshot) → All IsByte (into_bytes s)
  unfolding into_bytes header_write
  into_bytes-IsByte s =
      All-append IsByte _ _
        (All-append IsByte _ _ (o.u32.write-IsByte s.header.magic) (
          All-append IsByte _ _ (o.u8.write-IsByte s.header.version) (
            All-append IsByte _ _ (o.u8.write-IsByte s.header.flag)
              (o.u64.write-IsByte s.header.length))))
        (records_write-IsByte s.records)
