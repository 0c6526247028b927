-- ===== src/Manifest/Bytes/LittleEndian.antt =====
-- A byte order that meets the interface: the digits to base 256, lowest first, for every width.
-- The tests run the snapshot format over it.
use horaedb.Prelude.{
  ℕ, zero, suc, ◌+◌, ◌*◌, ◌/◌, ◌%◌, ◌^◌, ◌<◌, ◌≡◌, refl, sym, ap, subst, ◌∙◌, Option, none, some,
  List, [], ◌∷◌, ◌++◌, All, length, arith,
}
use horaedb.Prelude.Int.{
  ℤ, IsI64, i64_of_bits, bits_of_i64, bits_of_i64-lt, i64_of_bits-bits_of_i64, i64_of_bits-IsI64,
}
use horaedb.Manifest.Bytes.{IsByte, IntCodec, ByteOrder}
use native.Mathlib.Nat.{pow-suc}

unfoldable pub le_write : ℕ → ℕ → List ℕ
le_write zero v = []
le_write (suc w) v = (v % 256) ∷ le_write w (v / 256)

-- One more byte in front of what is read.
abbrev pub shift_in : ℕ → Option (ℕ × List ℕ) → Option (ℕ × List ℕ)
shift_in b none = none
shift_in b (some (v, rest)) = some (b + 256 * v, rest)

unfoldable pub le_read : ℕ → List ℕ → Option (ℕ × List ℕ)
le_read zero bs = some (0, bs)
le_read (suc w) [] = none
le_read (suc w) (b ∷ bs) = shift_in b (le_read w bs)

pub length-le_write : (w v : ℕ) → length (le_write w v) ≡ w
unfolding le_write
length-le_write zero v = refl
length-le_write (suc w) v = ap suc (length-le_write w (v / 256))

pub le_write-IsByte : (w v : ℕ) → All IsByte (le_write w v)
unfolding le_write
le_write-IsByte zero v = tt
le_write-IsByte (suc w) v = (omega arith, le_write-IsByte w (v / 256))

div-lt-pow : (w v : ℕ) → v < 256 ^ suc w → v / 256 < 256 ^ w
div-lt-pow w v h = omega (arith, pow-suc 256 w)

pub le_read-le_write :
    (w v : ℕ) (rest : List ℕ) → v < 256 ^ w → le_read w (le_write w v ++ rest) ≡ some (v, rest)
unfolding le_read le_write
le_read-le_write zero v rest h = ground arith
le_read-le_write (suc w) v rest h =
    rw (le_read-le_write w (v / 256) rest (div-lt-pow w v h)) (ground arith)

pub le_read_short : (w : ℕ) (bs : List ℕ) → length bs < w → le_read w bs ≡ none
unfolding le_read
le_read_short zero bs h = absurd (omega arith)
le_read_short (suc w) [] h = refl
le_read_short (suc w) (b ∷ bs) h = rw (le_read_short w bs (omega arith))

shift_in-some :
    (b : ℕ) (o : Option (ℕ × List ℕ)) (v : ℕ) (rest : List ℕ)
    → shift_in b o ≡ some (v, rest)
    → (u : ℕ) × (o ≡ some (u, rest)) × (v ≡ b + 256 * u)
shift_in-some b none v rest e = cc
shift_in-some b (some (u, r)) v rest e = (u, ground arith, ground arith)

pub le_write-le_read :
    (w : ℕ) (bs : List ℕ) (v : ℕ) (rest : List ℕ)
    → All IsByte bs
    → le_read w bs ≡ some (v, rest)
    → (v < 256 ^ w) × (bs ≡ le_write w v ++ rest)
unfolding le_read le_write
le_write-le_read zero bs v rest h e = (ground arith, ground arith)
le_write-le_read (suc w) [] v rest h e = cc
le_write-le_read (suc w) (b ∷ bs) v rest (hb, hbs) e =
    let (u, read, sum) = shift_in-some b (le_read w bs) v rest e in
    let (small, input) = le_write-le_read w bs u rest hbs read in
    let low : v % 256 ≡ b = omega arith in
    let high : v / 256 ≡ u = omega arith in (omega (arith, pow-suc 256 w), rw (low, high, input))

unfoldable pub unsigned : (w : ℕ) → IntCodec ℕ (λ n. n < 256 ^ w) w
unsigned w = record {
  write = le_write w;
  read = le_read w;
  length-write = length-le_write w;
  write-IsByte = le_write-IsByte w;
  read-write = le_read-le_write w;
  read_short = le_read_short w;
  write-read = le_write-le_read w;
}

-- The bytes of an `i64` are those of its two's complement.
abbrev pub as_signed : Option (ℕ × List ℕ) → Option (ℤ × List ℕ)
as_signed none = none
as_signed (some (u, rest)) = some (i64_of_bits u, rest)

as_signed-some :
    (o : Option (ℕ × List ℕ)) (z : ℤ) (rest : List ℕ)
    → as_signed o ≡ some (z, rest)
    → (u : ℕ) × (o ≡ some (u, rest)) × (i64_of_bits u ≡ z)
as_signed-some none z rest e = cc
as_signed-some (some (u, r)) z rest e = (u, ground arith, ground arith)

bits_of_i64-i64_of_bits : (u : ℕ) → u < 2 ^ 64 → bits_of_i64 (i64_of_bits u) ≡ u
bits_of_i64-i64_of_bits u h = ground arith

pub signed_write-read :
    (bs : List ℕ) (z : ℤ) (rest : List ℕ)
    → All IsByte bs
    → as_signed (le_read 8 bs) ≡ some (z, rest)
    → IsI64 z × (bs ≡ le_write 8 (bits_of_i64 z) ++ rest)
signed_write-read bs z rest h e =
    let (u, read, value) = as_signed-some (le_read 8 bs) z rest e in
    let (small, input) = le_write-le_read 8 bs u rest h read in
    subst (λ y. IsI64 y × (bs ≡ le_write 8 (bits_of_i64 y) ++ rest)) value
      (
        i64_of_bits-IsI64 u small,
        input ∙ ap (λ t. le_write 8 t ++ rest) (sym (bits_of_i64-i64_of_bits u small)),
      )

pub signed_read-write :
    (z : ℤ) (rest : List ℕ)
    → IsI64 z
    → as_signed (le_read 8 (le_write 8 (bits_of_i64 z) ++ rest)) ≡ some (z, rest)
signed_read-write z rest h =
    rw (le_read-le_write 8 (bits_of_i64 z) rest (bits_of_i64-lt z), i64_of_bits-bits_of_i64 z h)

pub signed_read_short : (bs : List ℕ) → length bs < 8 → as_signed (le_read 8 bs) ≡ none
signed_read_short bs h = rw (le_read_short 8 bs h)

unfoldable pub signed : IntCodec ℤ IsI64 8
signed = record {
  write = λ z. le_write 8 (bits_of_i64 z);
  read = λ bs. as_signed (le_read 8 bs);
  length-write = λ z. length-le_write 8 (bits_of_i64 z);
  write-IsByte = λ z. le_write-IsByte 8 (bits_of_i64 z);
  read-write = signed_read-write;
  read_short = signed_read_short;
  write-read = signed_write-read;
}

abbrev pub little_endian : ByteOrder
little_endian = record { u8 = unsigned 1; u32 = unsigned 4; u64 = unsigned 8; i64 = signed }
