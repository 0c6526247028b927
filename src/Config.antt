-- ===== src/Config.antt =====
-- src/storage/src/config.rs: the options of the manifest, the compaction and the writer, with their
-- defaults.
use horaedb.Prelude.{ℕ, ◌*◌, String, Bool, true, false, Option, none, List}
use horaedb.Types.{Duration}

pub record ManifestConfig : Type 0 where
  pub channel_size : ℕ
  pub merge_interval_seconds : ℕ
  pub min_merge_threshold : ℕ
  pub hard_merge_threshold : ℕ
  pub soft_merge_threshold : ℕ

abbrev pub default_manifest_config : ManifestConfig
default_manifest_config = record {
  channel_size = 3;
  merge_interval_seconds = 5;
  min_merge_threshold = 10;
  hard_merge_threshold = 90;
  soft_merge_threshold = 50;
}

-- Sizes are numbers of bytes.
pub record SchedulerConfig : Type 0 where
  pub schedule_interval : Duration
  pub max_pending_compaction_tasks : ℕ
  pub memory_limit : ℕ
  pub ttl : Option Duration
  pub new_sst_max_size : ℕ
  pub input_sst_max_num : ℕ
  pub input_sst_min_num : ℕ

abbrev pub default_scheduler_config : SchedulerConfig
default_scheduler_config = record {
  schedule_interval = record { secs = 10; nanos = 0 };
  max_pending_compaction_tasks = 10;
  memory_limit = 2 * (1024 * (1024 * 1024));
  ttl = none;
  new_sst_max_size = 1024 * (1024 * 1024);
  input_sst_max_num = 30;
  input_sst_min_num = 5;
}

pub data ParquetEncoding : Type 0 where
  plain rle delta_binary_packed delta_length_byte_array delta_byte_array rle_dictionary :
      ParquetEncoding

pub data ParquetCompression : Type 0 where
  uncompressed snappy zstd : ParquetCompression

pub record ColumnOptions : Type 0 where
  pub enable_dict : Option Bool
  pub enable_bloom_filter : Option Bool
  pub encoding : Option ParquetEncoding
  pub compression : Option ParquetCompression

-- The options of columns are an association list.
pub record WriteConfig : Type 0 where
  pub max_row_group_size : ℕ
  pub write_bacth_size : ℕ
  pub enable_sorting_columns : Bool
  pub enable_dict : Bool
  pub enable_bloom_filter : Bool
  pub encoding : ParquetEncoding
  pub compression : ParquetCompression
  pub column_options : Option (List (String × ColumnOptions))

abbrev pub default_write_config : WriteConfig
default_write_config = record {
  max_row_group_size = 8192;
  write_bacth_size = 1024;
  enable_sorting_columns = true;
  enable_dict = false;
  enable_bloom_filter = false;
  encoding = plain;
  compression = snappy;
  column_options = none;
}
