-- ===== src/Storage/WriteProps.antt =====
-- src/storage/src/storage.rs, `build_write_props`, with the conversions of config.rs: the properties of
-- the Parquet writer. The builder of the crate `parquet` is an interface.
pub mod Documented
pub mod Columns
pub mod Effective
use horaedb.Prelude.{
  ℕ, String, Bool, true, false, Option, none, some, List, [], ◌∷◌, map, if◌then◌else◌,
}
use horaedb.Prelude.Result.{Result, ok, ◌>>=◌}
use horaedb.Config.{
  ParquetEncoding, plain, rle, delta_binary_packed, delta_length_byte_array, delta_byte_array,
  rle_dictionary, ParquetCompression, uncompressed, snappy, zstd, ColumnOptions, WriteConfig,
}
use horaedb.Schema.{range}

-- The values of the crate that the configuration can name.
pub data Encoding : Type 0 where
  enc_plain enc_rle enc_delta_binary_packed enc_delta_length_byte_array enc_delta_byte_array
        enc_rle_dictionary :
      Encoding

-- `zstd_default` is at the default level.
pub data Compression : Type 0 where
  no_compression snappy_codec zstd_default : Compression

unfoldable pub encoding_from : ParquetEncoding → Encoding
encoding_from plain = enc_plain
encoding_from rle = enc_rle
encoding_from delta_binary_packed = enc_delta_binary_packed
encoding_from delta_length_byte_array = enc_delta_length_byte_array
encoding_from delta_byte_array = enc_delta_byte_array
encoding_from rle_dictionary = enc_rle_dictionary

unfoldable pub compression_from : ParquetCompression → Compression
compression_from uncompressed = no_compression
compression_from snappy = snappy_codec
compression_from zstd = zstd_default

pub record SortingColumn : Type 0 where
  pub column_idx : ℕ
  pub descending : Bool
  pub nulls_first : Bool

-- `WriterPropertiesBuilder`; the setters of a row group's size and of an encoding may panic.
pub record Builder (B : Type 0) : Type 0 where
  pub new : B
  pub set_max_row_group_size : ℕ → B → Result B
  pub set_write_batch_size : ℕ → B → B
  pub set_sorting_columns : Option (List SortingColumn) → B → B
  pub set_dictionary_enabled : Bool → B → B
  pub set_bloom_filter_enabled : Bool → B → B
  pub set_encoding : Encoding → B → Result B
  pub set_compression : Compression → B → B
  pub set_column_dictionary_enabled : String → Bool → B → B
  pub set_column_bloom_filter_enabled : String → Bool → B → B
  pub set_column_encoding : String → Encoding → B → Result B
  pub set_column_compression : String → Compression → B → B

-- `if let Some(v) = option { builder = set(v) }`
abbrev pub if_some : {A B : Type 0} → Option A → (A → B → B) → B → B
if_some none set builder = builder
if_some (some a) set builder = set a builder

abbrev pub if_some_try : {A B : Type 0} → Option A → (A → B → Result B) → B → Result B
if_some_try none set builder = ok builder
if_some_try (some a) set builder = set a builder

abbrev pub sorting_columns : Bool → ℕ → Option (List SortingColumn)
sorting_columns true num_primary_key = some (
    map (λ i. record { column_idx = i; descending = false; nulls_first = true })
      (range 0 num_primary_key))
sorting_columns false num_primary_key = none

module _ {B : Type 0} (properties : Builder B) where
  -- The body of the loop over the columns.
  unfoldable pub set_column : String → ColumnOptions → B → Result B
  unfolding encoding_from compression_from
  set_column col_name col_opt builder = do
    let builder1 =
        if_some col_opt.enable_dict (properties.set_column_dictionary_enabled col_name) builder
    let builder2 =
        if_some col_opt.enable_bloom_filter (properties.set_column_bloom_filter_enabled col_name)
          builder1
    builder3 ←
        if_some_try col_opt.encoding
          (λ e. properties.set_column_encoding col_name (encoding_from e)) builder2
    ok (
        if_some col_opt.compression
          (λ c. properties.set_column_compression col_name (compression_from c)) builder3)

  unfoldable pub set_columns : List (String × ColumnOptions) → B → Result B
  unfolding set_column
  set_columns [] builder = ok builder
  set_columns ((col_name, col_opt) ∷ columns) builder = do
    builder' ← set_column col_name col_opt builder
    set_columns columns builder'

  abbrev pub set_options : Option (List (String × ColumnOptions)) → B → Result B
  set_options none builder = ok builder
  set_options (some column_options) builder = set_columns column_options builder

  -- The setters in front of that of the encoding.
  unfoldable pub unencoded : WriteConfig → ℕ → Result B
  unencoded write_options num_primary_key = do
    builder1 ← properties.set_max_row_group_size write_options.max_row_group_size properties.new
    let builder2 = properties.set_write_batch_size write_options.write_bacth_size builder1
    let columns = sorting_columns write_options.enable_sorting_columns num_primary_key
    let builder3 = properties.set_sorting_columns columns builder2
    let builder4 = properties.set_dictionary_enabled write_options.enable_dict builder3
    ok (properties.set_bloom_filter_enabled write_options.enable_bloom_filter builder4)

  unfoldable pub build_write_props : WriteConfig → ℕ → Result B
  unfolding unencoded set_columns
  build_write_props write_options num_primary_key = do
    builder5 ← unencoded write_options num_primary_key
    builder6 ← properties.set_encoding (encoding_from write_options.encoding) builder5
    set_options write_options.column_options
        (properties.set_compression (compression_from write_options.compression) builder6)
