-- ===== src/Examples/Writers.antt =====
-- The theorem on the properties of the writer, on a builder that is its own view.
use horaedb.Prelude.{ℕ, zero, suc, String, ◌<◌, ◌≡◌, ◌≢◌, refl, true, none, some, [], ◌∷◌, arith}
use horaedb.Prelude.Result.{Result, ok, panic}
use horaedb.Config.{delta_binary_packed, WriteConfig, default_write_config}
use horaedb.Storage.WriteProps.{
  Encoding, enc_plain, enc_rle, enc_delta_binary_packed, enc_delta_length_byte_array,
  enc_delta_byte_array, enc_rle_dictionary, Builder, build_write_props,
}
use horaedb.Storage.WriteProps.Documented.{no_props, View, at_column, at_defaults, Documented}
use horaedb.Storage.WriteProps.Columns.{over}
use horaedb.Storage.WriteProps.Effective.{wanted, build_write_props-wanted}

abbrev unless_dictionary : Encoding → View → Result View
unless_dictionary enc_rle_dictionary v = panic
unless_dictionary enc_plain v = ok v
unless_dictionary enc_rle v = ok v
unless_dictionary enc_delta_binary_packed v = ok v
unless_dictionary enc_delta_length_byte_array v = ok v
unless_dictionary enc_delta_byte_array v = ok v

unless_dictionary-ok :
    (e : Encoding) (v : View) → e ≢ enc_rle_dictionary → unless_dictionary e v ≡ ok v
unless_dictionary-ok enc_rle_dictionary v h = absurd (h refl)
unless_dictionary-ok enc_plain v h = refl
unless_dictionary-ok enc_rle v h = refl
unless_dictionary-ok enc_delta_binary_packed v h = refl
unless_dictionary-ok enc_delta_length_byte_array v h = refl
unless_dictionary-ok enc_delta_byte_array v h = refl

abbrev unless_zero : ℕ → View → Result View
unless_zero zero v = panic
unless_zero (suc n) v = ok v

unless_zero-ok : (n : ℕ) (v : View) → 0 < n → (v' : View) × (unless_zero n v ≡ ok v') × (v' ≡ v)
unless_zero-ok zero v h = absurd (omega arith)
unless_zero-ok (suc n) v h = (v, refl, refl)

abbrev views : Builder View
views = record {
  new = record { defaults = no_props; columns = λ c. no_props };
  set_max_row_group_size = unless_zero;
  set_write_batch_size = λ n v. v;
  set_sorting_columns = λ l v. v;
  set_dictionary_enabled = λ d. at_defaults (λ p. record p { dictionary = some d });
  set_bloom_filter_enabled = λ d. at_defaults (λ p. record p { bloom_filter = some d });
  set_encoding = λ e v. unless_dictionary e (at_defaults (λ p. record p { encoding = some e }) v);
  set_compression = λ d. at_defaults (λ p. record p { compression = some d });
  set_column_dictionary_enabled = λ c d. at_column c (λ p. record p { dictionary = some d });
  set_column_bloom_filter_enabled = λ c d. at_column c (λ p. record p { bloom_filter = some d });
  set_column_encoding =
      λ c e v. unless_dictionary e (at_column c (λ p. record p { encoding = some e }) v);
  set_column_compression = λ c d. at_column c (λ p. record p { compression = some d });
}

abbrev documented : Documented views
documented = record {
  shown = λ v. v;
  shown-new = refl;
  set_max_row_group_size-ok = unless_zero-ok;
  set_max_row_group_size-panic = λ v. refl;
  shown-write_batch_size = λ n v. refl;
  shown-sorting_columns = λ l v. refl;
  shown-dictionary_enabled = λ d v. refl;
  shown-bloom_filter_enabled = λ d v. refl;
  set_encoding-ok = λ e v h. (_, unless_dictionary-ok e _ h, refl);
  set_encoding-panic = λ v. refl;
  shown-compression = λ d v. refl;
  shown-column_dictionary_enabled = λ c d v. refl;
  shown-column_bloom_filter_enabled = λ c d v. refl;
  set_column_encoding-ok = λ c e v h. (_, unless_dictionary-ok e _ h, refl);
  set_column_encoding-panic = λ c v. refl;
  shown-column_compression = λ c d v. refl;
}

-- The column `pk1` has its own encoding, and a dictionary.
abbrev config : WriteConfig
config = record default_write_config {
  column_options = some (
      (
        "pk1",
        record {
          enable_dict = some true;
          enable_bloom_filter = none;
          encoding = some delta_binary_packed;
          compression = none;
        },
      )
      ∷ []);
}

build_write_props-wanted_example :
    (v : View) × (build_write_props views config 3 ≡ ok v)
    × ((col : String) → over (v.columns col) v.defaults ≡ wanted config col)
build_write_props-wanted_example =
    build_write_props-wanted views documented config 3 (omega arith) (λ e. cc) (tt, tt)
      ((λ e. cc), tt)
