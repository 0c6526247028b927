-- ===== src/Manifest/Encoding/Decode.antt =====
-- Encoding after decoding: what `Snapshot::try_from` accepts, on any bytes.
use horaedb.Prelude.{
  ℕ, zero, suc, ◌+◌, ◌*◌, ◌%◌, ◌^◌, true, ◌&&◌, ◌<◌, ◌≡◌, ◌≢◌, refl, sym, ap, subst, ◌∙◌, Option,
  none, some, List, [], ◌∷◌, ◌++◌, append_assoc, All, All-append_right, length, ltb, ◌==◌, ==_iff,
  arith,
}
use horaedb.Prelude.Result.{
  Result, ok, invalid_magic, invalid_snapshot, ◌>>=◌, >>=-eq-ok, bind_then, ensure_then,
  ok-injective,
}
use horaedb.Manifest.Bytes.{IsByte, IntCodec, ByteOrder}
use horaedb.Manifest.Encoding.{
  SnapshotHeader, SnapshotRecord, Snapshot, record_length, header_length, magic_number, read_or_eof,
  header_try_new, header_write, record_try_new, record_write, read_records, records_write,
  snapshot_try_from, into_bytes, decode_snapshot,
}
use horaedb.Manifest.Encoding.RoundTrip.{length-into_bytes}
use horaedb.Manifest.Encoding.Valid.{HeaderInRange, RecordInRange, SnapshotIsValid}

-- A successful read of `p` from `bs`: the value is in range, and `bs` is its bytes and the rest.
record IsRead {A : Type 0} (P : A → Type 0) (write : A → List ℕ) (bs : List ℕ) (p : A × List ℕ)
    : Type 0 where
  in_range : P p.0
  input : bs ≡ write p.0 ++ p.1
  rest : All IsByte p.1

some_of_read :
    {A : Type 0} (o : Option (A × List ℕ)) (p : A × List ℕ) → read_or_eof o ≡ ok p → o ≡ some p
some_of_read none p e = cc
some_of_read (some x) p e = cc

to_IsRead :
    {A : Type 0} (P : A → Type 0) (write : A → List ℕ) (bs : List ℕ) (p : A × List ℕ)
    → All IsByte bs
    → P p.0
    → bs ≡ write p.0 ++ p.1
    → IsRead P write bs p
to_IsRead P write bs p v h e = record {
  in_range = h;
  input = e;
  rest = All-append_right IsByte (write p.0) p.1 (subst (All IsByte) e v);
}

-- Rules for a `do` block that returned: what a read, and a test, hand to the rest of the block.
module _ {A B C : Type 0} {P : A → Type 0} {w : ℕ} where
  read_then :
      (c : IntCodec A P w) (bs : List ℕ) (k : A × List ℕ → Result B) {b : B}
      → All IsByte bs
      → (read_or_eof (c.read bs) >>= k) ≡ ok b
      → ((a : A) (rest : List ℕ)
          → P a
          → All IsByte rest
          → bs ≡ c.write a ++ rest
          → k (a, rest) ≡ ok b
          → C)
      → C
  read_then c bs k v e go =
      let (p, read, returns) = >>=-eq-ok (read_or_eof (c.read bs)) k e in
      let q = c.write-read bs p.0 p.1 v (some_of_read (c.read bs) p read) in
      go p.0 p.1 q.0 (All-append_right IsByte (c.write p.0) p.1 (subst (All IsByte) q.1 v)) q.1
        returns

module _ ⦃o : ByteOrder⦄ where
  header_try_new-IsRead :
      (bs : List ℕ) (p : SnapshotHeader × List ℕ)
      → All IsByte bs
      → header_try_new bs ≡ ok p
      → IsRead HeaderInRange header_write bs p
  unfolding header_try_new header_write
  header_try_new-IsRead bs p v e = read_then o.u32 bs _ v e λ m r1 hm v1 e1 k1.
      ensure_then (m == magic_number) invalid_magic _ k1 λ is_magic k.
        read_then o.u8 r1 _ v1 k λ ver r2 hv v2 e2 k2. read_then o.u8 r2 _ v2 k2 λ f r3 hf v3 e3 k3.
          read_then o.u64 r3 _ v3 k3 λ l r4 hl v4 e4 k4.
            subst (IsRead HeaderInRange header_write bs) (ok-injective k4) (record {
              in_range = record {
                magic = (==_iff m magic_number).0 is_magic;
                version = hv;
                flag = hf;
                length = hl;
              };
              input = rw (e1, e2, e3, e4) (simp append_assoc);
              rest = v4;
            })

  record_try_new-IsRead :
      (bs : List ℕ) (p : SnapshotRecord × List ℕ)
      → All IsByte bs
      → record_try_new bs ≡ ok p
      → IsRead RecordInRange record_write bs p
  unfolding record_try_new record_write
  record_try_new-IsRead bs p v e = read_then o.u64 bs _ v e λ i r1 hi v1 e1 k1.
      read_then o.i64 r1 _ v1 k1 λ start r2 hs v2 e2 k2.
        read_then o.i64 r2 _ v2 k2 λ end r3 he v3 e3 k3.
          read_then o.u32 r3 _ v3 k3 λ size r4 hz v4 e4 k4.
            read_then o.u32 r4 _ v4 k4 λ n r5 hn v5 e5 k5.
              subst (IsRead RecordInRange record_write bs) (ok-injective k5) (record {
                in_range = record { id = hi; start = hs; end = he; size = hz; num_rows = hn };
                input = rw (e1, e2, e3, e4, e5) (simp append_assoc);
                rest = v5;
              })

  -- The records that are read are in range, and encode to the bytes that were read.
  read_records-InRange :
      (fuel : ℕ) (bs : List ℕ) (rs : List SnapshotRecord)
      → All IsByte bs
      → read_records fuel bs ≡ ok rs
      → All RecordInRange rs × (bs ≡ records_write rs)
  unfolding read_records records_write
  read_records-InRange fuel [] rs v e =
      subst (λ l. All RecordInRange l × ([] ≡ records_write l)) (ok-injective e) (tt, refl)
  read_records-InRange zero (b ∷ bs) rs v e = cc
  read_records-InRange (suc fuel) (b ∷ bs) rs v e =
      let (p, read, more) = >>=-eq-ok (record_try_new (b ∷ bs)) _ e in
      let (rest, reads, returns) = >>=-eq-ok (read_records fuel p.1) _ more in
      let r = record_try_new-IsRead (b ∷ bs) p v read in
      let (in_range, input) = read_records-InRange fuel p.1 rest r.rest reads in
      subst (λ l. All RecordInRange l × (b ∷ bs ≡ records_write l)) (ok-injective returns)
        ((r.in_range, in_range), r.input ∙ ap (λ l. record_write p.0 ++ l) input)

  snapshot_try_from-cons :
      (b : ℕ) (bs : List ℕ) → snapshot_try_from (b ∷ bs) ≡ decode_snapshot (b ∷ bs)
  unfolding snapshot_try_from
  snapshot_try_from-cons b bs = ground arith

  checked_lengths :
      (n h len : ℕ)
      → (ltb 0 n && n % record_length == 0 && (n + header_length) % 2 ^ 64 == len) ≡ true
      → len ≡ header_length + h * record_length
      → n < 2 ^ 64
      → (n ≡ h * record_length) × (n + header_length < 2 ^ 64) × (0 < h)
  checked_lengths n h len e l k = ground arith

  -- From bytes that are not empty, what `try_from` accepts is a valid snapshot with a record at
  -- least, and it encodes to these bytes and no others.
  pub into_bytes-snapshot_try_from :
      (bs : List ℕ) (s : Snapshot)
      → All IsByte bs
      → bs ≢ []
      → snapshot_try_from bs ≡ ok s
      → SnapshotIsValid s × (s.records ≢ []) × (into_bytes s ≡ bs)
  unfolding decode_snapshot into_bytes
  into_bytes-snapshot_try_from [] s v some_byte e = absurd (some_byte refl)
  into_bytes-snapshot_try_from (b ∷ bs) s v some_byte e =
      bind_then (header_try_new (b ∷ bs)) _ (sym (snapshot_try_from-cons b bs) ∙ e)
        λ p reads_header k. ensure_then _ invalid_snapshot _ k λ checked k'.
          bind_then (read_records (length p.1) p.1) _ k' λ rs reads returns.
            let h = header_try_new-IsRead (b ∷ bs) p v reads_header in
            let r = read_records-InRange (length p.1) p.1 rs h.rest reads in
            let input = h.input ∙ ap (λ l. header_write p.0 ++ l) r.1 in
            let lengths =
              checked_lengths p.0.length (length rs) (length (b ∷ bs)) checked
                (ap length input ∙ length-into_bytes (record { header = p.0; records = rs }))
                h.in_range.length in
            subst (λ t. SnapshotIsValid t × (t.records ≢ []) × (into_bytes t ≡ b ∷ bs))
              (ok-injective returns)
              (
                record {
                  header = h.in_range;
                  records = r.0;
                  counted = lengths.0;
                  fits = lengths.1;
                },
                λ none. omega (arith, ap length none),
                sym input,
              )
