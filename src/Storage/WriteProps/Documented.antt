-- ===== src/Storage/WriteProps/Documented.antt =====
-- The builder of the properties, as its documentation has it.
use horaedb.Prelude.{
  ℕ, String, ◌<◌, ◌≡◌, ◌≢◌, refl, ap, ◌∙◌, Bool, true, false, Option, none, some, List,
  if◌then◌else◌,
}
use horaedb.Prelude.Result.{ok, panic}
use horaedb.Storage.WriteProps.{Encoding, enc_rle_dictionary, Compression, SortingColumn, Builder}
use mathlib.Core.Path.{fun_ext}
use text.Mathlib.Text.{◌==◌}

-- What was set for one column, or for all.
pub record ColumnProps : Type 0 where
  pub dictionary : Option Bool
  pub bloom_filter : Option Bool
  pub encoding : Option Encoding
  pub compression : Option Compression

abbrev pub no_props : ColumnProps
no_props = record { dictionary = none; bloom_filter = none; encoding = none; compression = none }

pub record View : Type 0 where
  pub defaults : ColumnProps
  pub columns : String → ColumnProps

abbrev pub at_column : String → (ColumnProps → ColumnProps) → View → View
at_column col change v = record v {
  columns = λ c. if c == col then change (v.columns c) else v.columns c;
}

abbrev pub at_defaults : (ColumnProps → ColumnProps) → View → View
at_defaults change v = record v { defaults = change v.defaults }

-- The builder as its documentation has it: what each setter sets, and that a
-- dictionary encoding and row groups of size 0 panic.
pub record Documented {B : Type 0} (properties : Builder B) : Type 0 where
  pub shown : B → View
  pub shown-new : shown properties.new ≡ record { defaults = no_props; columns = λ c. no_props }
  pub set_max_row_group_size-ok :
      (n : ℕ) (b : B)
      → 0 < n
      → (b' : B) × (properties.set_max_row_group_size n b ≡ ok b') × (shown b' ≡ shown b)
  pub set_max_row_group_size-panic : (b : B) → properties.set_max_row_group_size 0 b ≡ panic
  pub shown-write_batch_size :
      (n : ℕ) (b : B) → shown (properties.set_write_batch_size n b) ≡ shown b
  pub shown-sorting_columns :
      (l : Option (List SortingColumn)) (b : B)
      → shown (properties.set_sorting_columns l b) ≡ shown b
  pub shown-dictionary_enabled :
      (v : Bool) (b : B)
      → shown (properties.set_dictionary_enabled v b)
        ≡ at_defaults (λ p. record p { dictionary = some v }) (shown b)
  pub shown-bloom_filter_enabled :
      (v : Bool) (b : B)
      → shown (properties.set_bloom_filter_enabled v b)
        ≡ at_defaults (λ p. record p { bloom_filter = some v }) (shown b)
  pub set_encoding-ok :
      (e : Encoding) (b : B)
      → e ≢ enc_rle_dictionary
      → (b' : B) × (properties.set_encoding e b ≡ ok b')
        × (shown b' ≡ at_defaults (λ p. record p { encoding = some e }) (shown b))
  pub set_encoding-panic : (b : B) → properties.set_encoding enc_rle_dictionary b ≡ panic
  pub shown-compression :
      (v : Compression) (b : B)
      → shown (properties.set_compression v b)
        ≡ at_defaults (λ p. record p { compression = some v }) (shown b)
  pub shown-column_dictionary_enabled :
      (col : String) (v : Bool) (b : B)
      → shown (properties.set_column_dictionary_enabled col v b)
        ≡ at_column col (λ p. record p { dictionary = some v }) (shown b)
  pub shown-column_bloom_filter_enabled :
      (col : String) (v : Bool) (b : B)
      → shown (properties.set_column_bloom_filter_enabled col v b)
        ≡ at_column col (λ p. record p { bloom_filter = some v }) (shown b)
  pub set_column_encoding-ok :
      (col : String) (e : Encoding) (b : B)
      → e ≢ enc_rle_dictionary
      → (b' : B) × (properties.set_column_encoding col e b ≡ ok b')
        × (shown b' ≡ at_column col (λ p. record p { encoding = some e }) (shown b))
  pub set_column_encoding-panic :
      (col : String) (b : B) → properties.set_column_encoding col enc_rle_dictionary b ≡ panic
  pub shown-column_compression :
      (col : String) (v : Compression) (b : B)
      → shown (properties.set_column_compression col v b)
        ≡ at_column col (λ p. record p { compression = some v }) (shown b)

pub at_column-none : (col : String) (v : View) → at_column col (λ p. p) v ≡ v
at_column-none col v =
    ap (λ (f : String → ColumnProps). record v { columns = f })
      (fun_ext (λ c. same (c == col) (v.columns c)))
  where
    same : (b : Bool) (p : ColumnProps) → (if b then p else p) ≡ p
    same true p = refl
    same false p = refl

at_column-twice :
    (col : String) (f g : ColumnProps → ColumnProps) (v : View)
    → at_column col f (at_column col g v) ≡ at_column col (λ p. f (g p)) v
at_column-twice col f g v =
    ap (λ (h : String → ColumnProps). record v { columns = h })
      (fun_ext (λ c. same (c == col) (v.columns c)))
  where
    same :
        (b : Bool) (p : ColumnProps)
        → (if b then f (if b then g p else p) else (if b then g p else p))
          ≡ (if b then f (g p) else p)
    same true p = refl
    same false p = refl

pub then_at :
    (col : String) (f g : ColumnProps → ColumnProps) (v w u : View)
    → w ≡ at_column col f v
    → u ≡ at_column col g w
    → u ≡ at_column col (λ p. g (f p)) v
then_at col f g v w u e e' = e' ∙ ap (at_column col g) e ∙ at_column-twice col g f v
