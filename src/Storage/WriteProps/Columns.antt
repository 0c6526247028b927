-- ===== src/Storage/WriteProps/Columns.antt =====
-- What the loop over the columns sets.
use horaedb.Prelude.{
  String, ◌≡◌, ◌≢◌, refl, sym, ap, subst, ◌∙◌, Bool, false, Bool-cases, inl, inr, Option, none,
  some, List, [], ◌∷◌, All, if◌then◌else◌,
}
use horaedb.Prelude.Result.{ok}
use horaedb.Config.{
  ParquetEncoding, plain, rle, delta_binary_packed, delta_length_byte_array, delta_byte_array,
  rle_dictionary, ParquetCompression, ColumnOptions,
}
use horaedb.Storage.WriteProps.{
  enc_rle_dictionary, encoding_from, compression_from, Builder, if_some, if_some_try, set_column,
  set_columns,
}
use text.Mathlib.Text.{◌==◌}
use text.Mathlib.TextEquality.{eq_iff}
use horaedb.Storage.WriteProps.Documented.{
  ColumnProps, no_props, View, at_column, Documented, at_column-none, then_at,
}

abbrev pub or_else : {A : Type 0} → Option A → Option A → Option A
or_else none b = b
or_else (some a) b = some a

-- A column's own value, or else the default.
abbrev pub over : ColumnProps → ColumnProps → ColumnProps
over own defaults = record {
  dictionary = or_else own.dictionary defaults.dictionary;
  bloom_filter = or_else own.bloom_filter defaults.bloom_filter;
  encoding = or_else own.encoding defaults.encoding;
  compression = or_else own.compression defaults.compression;
}

abbrev pub converted : {A B : Type 0} → (A → B) → Option A → Option B
converted f none = none
converted f (some a) = some (f a)

abbrev pub props_of : ColumnOptions → ColumnProps
props_of opt = record {
  dictionary = opt.enable_dict;
  bloom_filter = opt.enable_bloom_filter;
  encoding = converted encoding_from opt.encoding;
  compression = converted compression_from opt.compression;
}

abbrev pub props_at : String → List (String × ColumnOptions) → ColumnProps
props_at col [] = no_props
props_at col ((name, opt) ∷ columns) =
    let rest = props_at col columns in if col == name then props_of opt else rest

-- The keys of a map.
abbrev pub AreDistinct : List (String × ColumnOptions) → Type 0
AreDistinct [] = Unit
AreDistinct ((name, opt) ∷ columns) =
    All (λ (c : String × ColumnOptions). (name == c.0) ≡ false) columns × AreDistinct columns

-- No dictionary encoding.
abbrev pub IsAccepted : Option ParquetEncoding → Type 0
IsAccepted e = e ≢ some rle_dictionary

abbrev with_dictionary : ColumnOptions → ColumnProps → ColumnProps
with_dictionary opt p = record p { dictionary = or_else opt.enable_dict p.dictionary }

abbrev with_bloom_filter : ColumnOptions → ColumnProps → ColumnProps
with_bloom_filter opt p = record p { bloom_filter = or_else opt.enable_bloom_filter p.bloom_filter }

abbrev with_encoding : ColumnOptions → ColumnProps → ColumnProps
with_encoding opt p = record p {
  encoding = or_else (converted encoding_from opt.encoding) p.encoding;
}

abbrev with_compression : ColumnOptions → ColumnProps → ColumnProps
with_compression opt p = record p {
  compression = or_else (converted compression_from opt.compression) p.compression;
}

pub encoding_from-accepted :
    (e : ParquetEncoding) → e ≢ rle_dictionary → encoding_from e ≢ enc_rle_dictionary
unfolding encoding_from
encoding_from-accepted plain h = λ q. cc
encoding_from-accepted rle h = λ q. cc
encoding_from-accepted delta_binary_packed h = λ q. cc
encoding_from-accepted delta_length_byte_array h = λ q. cc
encoding_from-accepted delta_byte_array h = λ q. cc
encoding_from-accepted rle_dictionary h = λ q. h refl

abbrev pub AllAccepted : List (String × ColumnOptions) → Type 0
AllAccepted = All (λ (c : String × ColumnOptions). IsAccepted c.1.encoding)

props_at-absent :
    (name : String) (columns : List (String × ColumnOptions))
    → All (λ (c : String × ColumnOptions). (name == c.0) ≡ false) columns
    → props_at name columns ≡ no_props
props_at-absent name [] h = refl
props_at-absent name ((n, opt) ∷ columns) (h, hs) = rw h (props_at-absent name columns hs)

first_wins :
    (col name : String) (opt : ColumnOptions) (columns : List (String × ColumnOptions))
    (p : ColumnProps)
    → All (λ (c : String × ColumnOptions). (name == c.0) ≡ false) columns
    → over (props_at col columns) (if col == name then over (props_of opt) p else p)
      ≡ over (if col == name then props_of opt else props_at col columns) p
first_wins col name opt columns p apart = elim (Bool-cases (col == name)) [
  | inl e ↦
      let absent : props_at col columns ≡ no_props =
        subst (λ n. props_at n columns ≡ no_props) (sym ((eq_iff col name).0 e))
          (props_at-absent name columns apart) in
      rw (e, absent) refl
  | inr e ↦ rw e refl
]

module _ {B : Type 0} (properties : Builder B) (documented : Documented properties) where
  shown-dictionary :
      (col : String) (o : Option Bool) (b : B)
      → documented.shown (if_some o (properties.set_column_dictionary_enabled col) b)
        ≡ at_column col (λ p. record p { dictionary = or_else o p.dictionary }) (documented.shown b)
  shown-dictionary col none b = sym (at_column-none col (documented.shown b))
  shown-dictionary col (some v) b = documented.shown-column_dictionary_enabled col v b

  shown-bloom_filter :
      (col : String) (o : Option Bool) (b : B)
      → documented.shown (if_some o (properties.set_column_bloom_filter_enabled col) b)
        ≡ at_column col
            (λ p. record p { bloom_filter = or_else o p.bloom_filter })
            (documented.shown b)
  shown-bloom_filter col none b = sym (at_column-none col (documented.shown b))
  shown-bloom_filter col (some v) b = documented.shown-column_bloom_filter_enabled col v b

  shown-own_compression :
      (col : String) (o : Option ParquetCompression) (b : B)
      → documented.shown
          (if_some o (λ c. properties.set_column_compression col (compression_from c)) b)
        ≡ at_column col
            (λ p. record p { compression = or_else (converted compression_from o) p.compression })
            (documented.shown b)
  shown-own_compression col none b = sym (at_column-none col (documented.shown b))
  shown-own_compression col (some v) b =
      documented.shown-column_compression col (compression_from v) b

  set_encoding_lem :
      (col : String) (o : Option ParquetEncoding) (b : B)
      → IsAccepted o
      → (b' : B) × (if_some_try o (λ e. properties.set_column_encoding col (encoding_from e)) b
          ≡ ok b')
        × (documented.shown b'
            ≡ at_column col
                (λ p. record p { encoding = or_else (converted encoding_from o) p.encoding })
                (documented.shown b))
  set_encoding_lem col none b h = (b, refl, sym (at_column-none col (documented.shown b)))
  set_encoding_lem col (some e) b h =
      documented.set_column_encoding-ok col (encoding_from e) b
        (encoding_from-accepted e (λ q. h (ap some q)))

  -- One column's options, all at once.
  set_column_lem :
      (col : String) (opt : ColumnOptions) (b : B)
      → IsAccepted opt.encoding
      → (b' : B) × (set_column properties col opt b ≡ ok b')
        × (documented.shown b' ≡ at_column col (over (props_of opt)) (documented.shown b))
  unfolding set_column
  set_column_lem col opt b h =
      let b1 = if_some opt.enable_dict (properties.set_column_dictionary_enabled col) b in
      let b2 =
        if_some opt.enable_bloom_filter (properties.set_column_bloom_filter_enabled col) b1 in
      let (b3, sets, shown3) = set_encoding_lem col opt.encoding b2 h in
      (
        if_some opt.compression (λ c. properties.set_column_compression col (compression_from c))
            b3,
        rw sets refl,
        then_at col (λ p. with_encoding opt (with_bloom_filter opt (with_dictionary opt p)))
            (with_compression opt) (documented.shown b) (documented.shown b3) _
            (then_at col (λ p. with_bloom_filter opt (with_dictionary opt p)) (with_encoding opt)
              (documented.shown b) (documented.shown b2) _
              (then_at col (with_dictionary opt) (with_bloom_filter opt) (documented.shown b)
                (documented.shown b1) _ (shown-dictionary col opt.enable_dict b)
                (shown-bloom_filter col opt.enable_bloom_filter b1))
              shown3)
            (shown-own_compression col opt.compression b3),
      )

  -- A column keeps what it has where the map says nothing.
  pub set_columns_lem :
      (columns : List (String × ColumnOptions)) (b : B)
      → AreDistinct columns
      → AllAccepted columns
      → (b' : B) × (set_columns properties columns b ≡ ok b')
        × ((documented.shown b').defaults ≡ (documented.shown b).defaults)
        × ((col : String)
            → (documented.shown b').columns col
              ≡ over (props_at col columns) ((documented.shown b).columns col))
  unfolding set_columns
  set_columns_lem [] b distinct accepted = (b, refl, refl, λ col. refl)
  set_columns_lem ((name, opt) ∷ columns) b (apart, distinct) (one, accepted) =
      let (b1, sets, shown1) = set_column_lem name opt b one in
      let (b2, sets', defaults, own) = set_columns_lem columns b1 distinct accepted in
      (
        b2,
        rw sets sets',
        defaults ∙ ap (λ (v : View). v.defaults) shown1,
        λ col.
            own col
            ∙ ap (λ (v : View). over (props_at col columns) (v.columns col)) shown1
            ∙ first_wins col name opt columns ((documented.shown b).columns col) apart,
      )
