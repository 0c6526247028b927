-- ===== src/Storage/WriteProps/Effective.antt =====
-- The properties that a column gets from the configuration.
use horaedb.Prelude.{ℕ, String, ◌<◌, ◌≡◌, refl, ap, ap₂, ◌∙◌, Option, none, some, List, []}
use horaedb.Prelude.Result.{ok, panic}
use horaedb.Config.{rle_dictionary, ColumnOptions, WriteConfig}
use horaedb.Storage.WriteProps.{
  encoding_from, compression_from, Builder, sorting_columns, set_options, unencoded,
  build_write_props,
}
use horaedb.Storage.WriteProps.Documented.{ColumnProps, no_props, View, at_defaults, Documented}
use horaedb.Storage.WriteProps.Columns.{
  or_else, over, props_at, AreDistinct, IsAccepted, AllAccepted, set_columns_lem,
  encoding_from-accepted,
}

abbrev pub options_of : Option (List (String × ColumnOptions)) → List (String × ColumnOptions)
options_of none = []
options_of (some columns) = columns

-- What the configuration means for all columns, and for one.
abbrev pub defaults_of : WriteConfig → ColumnProps
defaults_of config = record {
  dictionary = some config.enable_dict;
  bloom_filter = some config.enable_bloom_filter;
  encoding = some (encoding_from config.encoding);
  compression = some (compression_from config.compression);
}

abbrev pub wanted : WriteConfig → String → ColumnProps
wanted config col = over (props_at col (options_of config.column_options)) (defaults_of config)

over-no_props : (p : ColumnProps) → over p no_props ≡ p
over-no_props p =
    rw
      (
        or_else-none p.dictionary,
        or_else-none p.bloom_filter,
        or_else-none p.encoding,
        or_else-none p.compression,
      )
      refl
  where
    or_else-none : {A : Type 0} (o : Option A) → or_else o none ≡ o
    or_else-none none = refl
    or_else-none (some a) = refl

module _ {B : Type 0} (properties : Builder B) (documented : Documented properties) where
  -- What the setters for all columns leave.
  abbrev start_view : WriteConfig → View
  start_view config = record { defaults = defaults_of config; columns = λ col. no_props }

  starts :
      (config : WriteConfig) (num_primary_key : ℕ)
      → 0 < config.max_row_group_size
      → IsAccepted (some config.encoding)
      → (b5 b : B) × (unencoded properties config num_primary_key ≡ ok b5)
        × (properties.set_encoding (encoding_from config.encoding) b5 ≡ ok b)
        × (documented.shown (properties.set_compression (compression_from config.compression) b)
            ≡ start_view config)
  unfolding unencoded
  starts config num_primary_key positive h =
      let (b1, sizes, shown1) =
        documented.set_max_row_group_size-ok config.max_row_group_size properties.new positive in
      let b2 = properties.set_write_batch_size config.write_bacth_size b1 in
      let b3 =
        properties.set_sorting_columns
          (sorting_columns config.enable_sorting_columns num_primary_key) b2 in
      let b4 = properties.set_dictionary_enabled config.enable_dict b3 in
      let b5 = properties.set_bloom_filter_enabled config.enable_bloom_filter b4 in
      let (b6, sets, shown6) =
        documented.set_encoding-ok (encoding_from config.encoding) b5
          (encoding_from-accepted config.encoding (λ q. h (ap some q))) in
      let shown3 =
        documented.shown-sorting_columns _ b2
        ∙ documented.shown-write_batch_size _ _
        ∙ shown1
        ∙ documented.shown-new in
      let shown4 =
        documented.shown-dictionary_enabled config.enable_dict b3
        ∙ ap (at_defaults (λ p. record p { dictionary = some config.enable_dict })) shown3 in
      let shown5 =
        documented.shown-bloom_filter_enabled config.enable_bloom_filter b4
        ∙ ap (at_defaults (λ p. record p { bloom_filter = some config.enable_bloom_filter }))
            shown4 in
      (
        b5,
        b6,
        rw sizes refl,
        sets,
        documented.shown-compression (compression_from config.compression) b6
            ∙ ap
                (at_defaults
                  (λ p. record p { compression = some (compression_from config.compression) }))
                (shown6
                  ∙ ap
                      (at_defaults
                        (λ p. record p { encoding = some (encoding_from config.encoding) }))
                      shown5),
      )

  columns_lem :
      (columns : Option (List (String × ColumnOptions))) (b : B)
      → AreDistinct (options_of columns)
      → AllAccepted (options_of columns)
      → (b' : B) × (set_options properties columns b ≡ ok b')
        × ((documented.shown b').defaults ≡ (documented.shown b).defaults)
        × ((col : String)
            → (documented.shown b').columns col
              ≡ over (props_at col (options_of columns)) ((documented.shown b).columns col))
  columns_lem none b distinct accepted = (b, refl, refl, λ col. refl)
  columns_lem (some columns) b distinct accepted =
      set_columns_lem properties documented columns b distinct accepted

  -- Let the builder be as documented, the row groups' size not be 0, no dictionary encoding be
  -- configured, and the map have each column once. Then the properties are built, and each column
  -- gets its own options where it has them, and those for all columns elsewhere.
  pub build_write_props-wanted :
      (config : WriteConfig) (num_primary_key : ℕ)
      → 0 < config.max_row_group_size
      → IsAccepted (some config.encoding)
      → AreDistinct (options_of config.column_options)
      → AllAccepted (options_of config.column_options)
      → (b : B) × (build_write_props properties config num_primary_key ≡ ok b)
        × ((col : String)
            → over ((documented.shown b).columns col) (documented.shown b).defaults
              ≡ wanted config col)
  unfolding build_write_props
  build_write_props-wanted config num_primary_key positive h distinct accepted =
      let (b5, b6, before, sets, start) = starts config num_primary_key positive h in
      let (b, sets', defaults, own) =
        columns_lem config.column_options
          (properties.set_compression (compression_from config.compression) b6) distinct accepted in
      (
        b,
        rw (before, sets) sets',
        λ col.
            ap₂ over
              (own col
                ∙ ap
                    (λ (v : View).
                      over (props_at col (options_of config.column_options)) (v.columns col))
                    start
                ∙ over-no_props _)
              (defaults ∙ ap (λ (v : View). v.defaults) start),
      )

  -- Row groups of size 0 panic, whatever else is configured.
  build_write_props-panic_size :
      (config : WriteConfig) (num_primary_key : ℕ)
      → config.max_row_group_size ≡ 0
      → build_write_props properties config num_primary_key ≡ panic
  unfolding build_write_props unencoded
  build_write_props-panic_size config num_primary_key e =
      rw e (rw (documented.set_max_row_group_size-panic properties.new) refl)

  -- A dictionary encoding for all columns panics.
  build_write_props-panic :
      (config : WriteConfig) (num_primary_key : ℕ)
      → 0 < config.max_row_group_size
      → config.encoding ≡ rle_dictionary
      → build_write_props properties config num_primary_key ≡ panic
  unfolding build_write_props unencoded encoding_from
  build_write_props-panic config num_primary_key positive e =
      let (b1, sizes, shown1) =
        documented.set_max_row_group_size-ok config.max_row_group_size properties.new positive in
      rw (sizes, e) (rw documented.set_encoding-panic refl)
