-- ===== src/Server.antt =====
-- src/server/src/config.rs: the configuration of the server with its defaults, and how main.rs takes the
-- object store from it. Handlers, runtimes and the loop of test writes are not modelled.
use horaedb.Prelude.{ℕ, String, Bool, true, not}
use horaedb.Prelude.Result.{Result, ok, panic}
use horaedb.Config.{
  WriteConfig, ManifestConfig, SchedulerConfig, default_write_config, default_manifest_config,
  default_scheduler_config,
}
use horaedb.Schema.{UpdateMode, overwrite}
use horaedb.Time.{secs, millis, hours}
use horaedb.Types.{Duration}

-- `horaedb_storage::config::StorageConfig`
pub record TimeMergeConfig : Type 0 where
  pub write : WriteConfig
  pub manifest : ManifestConfig
  pub scheduler : SchedulerConfig
  pub update_mode : UpdateMode

abbrev pub default_time_merge_config : TimeMergeConfig
default_time_merge_config = record {
  write = default_write_config;
  manifest = default_manifest_config;
  scheduler = default_scheduler_config;
  update_mode = overwrite;
}

pub record LocalStorageConfig : Type 0 where
  pub data_dir : String

abbrev pub default_local_storage : LocalStorageConfig
default_local_storage = record { data_dir = "/tmp/horaedb" }

pub record HttpOptions : Type 0 where
  pub pool_max_idle_per_host : ℕ
  pub timeout : Duration
  pub keep_alive_timeout : Duration
  pub keep_alive_interval : Duration

abbrev pub default_http_options : HttpOptions
default_http_options = record {
  pool_max_idle_per_host = 1024;
  timeout = secs 15;
  keep_alive_timeout = secs 10;
  keep_alive_interval = secs 2;
}

pub record TimeoutOptions : Type 0 where
  pub timeout : Duration
  pub io_timeout : Duration

abbrev pub default_timeout_options : TimeoutOptions
default_timeout_options = record { timeout = secs 10; io_timeout = secs 10 }

-- The last three fields may be left out.
pub record S3LikeStorageConfig : Type 0 where
  pub region : String
  pub key_id : String
  pub key_secret : String
  pub endpoint : String
  pub bucket : String
  pub prefix : String
  pub max_retries : ℕ
  pub http : HttpOptions
  pub timeout : TimeoutOptions

abbrev pub default_max_retries : ℕ
default_max_retries = 3

pub data ObjectStorageConfig : Type 0 where
  local : LocalStorageConfig → ObjectStorageConfig
  s3_like : S3LikeStorageConfig → ObjectStorageConfig

abbrev pub default_object_storage : ObjectStorageConfig
default_object_storage = local default_local_storage

pub record StorageConfig : Type 0 where
  pub object_store : ObjectStorageConfig
  pub time_merge_storage : TimeMergeConfig

abbrev pub default_storage_config : StorageConfig
default_storage_config = record {
  object_store = default_object_storage;
  time_merge_storage = default_time_merge_config;
}

pub record ThreadConfig : Type 0 where
  pub manifest_thread_num : ℕ
  pub sst_thread_num : ℕ

abbrev pub default_thread_config : ThreadConfig
default_thread_config = record { manifest_thread_num = 2; sst_thread_num = 2 }

pub record MetricEngineConfig : Type 0 where
  pub threads : ThreadConfig
  pub storage : StorageConfig

abbrev pub default_metric_engine_config : MetricEngineConfig
default_metric_engine_config = record {
  threads = default_thread_config;
  storage = default_storage_config;
}

pub record TestConfig : Type 0 where
  pub enable_write : Bool
  pub write_worker_num : ℕ
  pub segment_duration : Duration
  pub write_interval : Duration

unfoldable pub default_test_config : TestConfig
unfolding hours millis
default_test_config = record {
  enable_write = true;
  write_worker_num = 1;
  segment_duration = hours 12;
  write_interval = millis 500;
}

pub record Config : Type 0 where
  pub port : ℕ
  pub test : TestConfig
  pub metric_engine : MetricEngineConfig

abbrev pub default_config : Config
default_config = record {
  port = 5000;
  test = default_test_config;
  metric_engine = default_metric_engine_config;
}

-- The `match` in `main`: only the local file system is supported.
unfoldable pub object_store_config : ObjectStorageConfig → Result LocalStorageConfig
object_store_config (local v) = ok v
object_store_config (s3_like v) = panic

-- `toggle`: the flag behind it, and whether it was set.
unfoldable pub toggle : Bool → Bool × Bool
toggle keep_writing = (not keep_writing, keep_writing)
