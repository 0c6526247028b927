-- ===== src/Manifest/Bytes.antt =====
-- What manifest/encoding.rs uses of the crate `byteorder`: little-endian integers of fixed widths.
pub mod LittleEndian
use horaedb.Prelude.{ℕ, ◌+◌, ◌^◌, ◌<◌, ◌≡◌, Option, none, some, List, ◌++◌, length, All}
use horaedb.Prelude.Int.{ℤ, IsI64}

abbrev pub IsByte : ℕ → Type 0
IsByte b = b < 256

-- The integers of one type: `read_*` and `write_*`, with `width` bytes for each number of the type.
pub record IntCodec (A : Type 0) (InRange : A → Type 0) (width : ℕ) : Type 0 where
  pub write : A → List ℕ
  pub read : List ℕ → Option (A × List ℕ)
  pub length-write : (a : A) → length (write a) ≡ width
  pub write-IsByte : (a : A) → All IsByte (write a)
  pub read-write : (a : A) (rest : List ℕ) → InRange a → read (write a ++ rest) ≡ some (a, rest)
  pub read_short : (bs : List ℕ) → length bs < width → read bs ≡ none
  -- What is read is in range, and writes the bytes that were read.
  pub write-read :
      (bs : List ℕ) (a : A) (rest : List ℕ)
      → All IsByte bs
      → read bs ≡ some (a, rest)
      → InRange a × (bs ≡ write a ++ rest)

-- `ReadBytesExt` and `WriteBytesExt` at `LittleEndian`.
pub record ByteOrder : Type 0 where
  pub u8 : IntCodec ℕ (λ n. n < 2 ^ 8) 1
  pub u32 : IntCodec ℕ (λ n. n < 2 ^ 32) 4
  pub u64 : IntCodec ℕ (λ n. n < 2 ^ 64) 8
  pub i64 : IntCodec ℤ IsI64 8
