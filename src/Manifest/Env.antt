-- ===== src/Manifest/Env.antt =====
-- What the manifest uses and does not implement: the object store, the protobuf encoding of
-- updates, the channel to the background merger, and the build's `debug_assertions`.
use horaedb.Prelude.{ℕ, Bool, Option, List}
use horaedb.Manifest.Bytes.{ByteOrder}
use horaedb.Manifest.Encoding.{PbManifestUpdate}

-- The objects' paths, as the code formats them: `{root}/manifest/snapshot`,
-- `{root}/manifest/delta/{id}` and `{root}/data/{id}.sst`.
pub data StorePath : Type 0 where
  snapshot_path : StorePath
  delta_path : ℕ → StorePath
  data_path : ℕ → StorePath

-- `get` fails with an error whose text contains "not found" or not, or the body cannot be read.
pub data GetOutcome : Type 0 where
  found : List ℕ → GetOutcome
  get_failed : Bool → GetOutcome
  body_failed : GetOutcome

pub data MergeType : Type 0 where
  hard soft : MergeType

-- What wakes the background job: its timer, or a message.
pub data Wake : Type 0 where
  timer message : Wake

-- `S` is what the store holds and decides, `Q` is the channel's queue. Every call may change them.
pub record Env (S Q : Type 0) : Type 0 where
  -- whether the write succeeded
  pub put : StorePath → List ℕ → S → Bool × S
  pub get : StorePath → S → GetOutcome × S
  pub delete : StorePath → S → Bool × S
  -- the locations below the delta directory
  pub list : S → Option (List StorePath) × S
  pub encode : PbManifestUpdate → List ℕ
  pub decode : List ℕ → Option PbManifestUpdate
  -- whether the message was taken
  pub try_send : MergeType → Q → Bool × Q
  -- the queue once its first message is taken
  pub recv : Q → Q
  pub byte_order : ByteOrder
  pub debug_assertions : Bool
