-- ===== src/Examples/Configs.antt =====
-- Tests of the server: its default configuration, and the flag of its test writes.
use horaedb.Prelude.{◌≡◌, refl, Bool, arith}
use horaedb.Prelude.Result.{ok}
use horaedb.Server.{
  default_test_config, default_config, default_local_storage, object_store_config, toggle,
}

default_store_is_local :
    object_store_config default_config.metric_engine.storage.object_store ≡ ok default_local_storage
unfolding object_store_config
default_store_is_local = refl

default_segments_last_half_a_day :
    default_config.test.segment_duration ≡ record { secs = 43_200; nanos = 0 }
unfolding default_test_config
default_segments_last_half_a_day = refl

toggle_twice : (keep_writing : Bool) → (toggle (toggle keep_writing).0).0 ≡ keep_writing
unfolding toggle
toggle_twice keep_writing = ground arith
