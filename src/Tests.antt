-- ===== src/Tests.antt =====
-- Runs of the code on small inputs, and the properties applied to them: the data that they share.
mod LogTests
mod StorageTests
mod SealTests
mod CacheTests
mod CommandTests
mod StoreTests
mod ScanTests
mod WatchTests
use kv.Prelude.{
  ℕ, ◌+◌, ◌%◌, ◌^◌, ◌<◌, ◌≡◌, refl, ◌∙◌, [], ◌∷◌, ◌++◌, none, some, false, arith, Bytes, codes,
  length, take, replicate, length-take, length-append,
}
use kv.Engine.Record.{Crc}
use kv.Engine.Values
use kv.Engine.Values.{Blake3}
use kv.Engine.Index
use kv.Engine.File.{open_file}
use kv.Engine.Footer.{no_footer_faults}
use kv.Engine.Log.State.{LogConfig, NamespaceLog, Env, Deps}

-- A checksum and a hash that can be computed by hand.
abbrev pub crc : Crc
crc = record { checksum = λ b. length b % 2 ^ 64; checksum-lt = λ b. omega arith }

abbrev pub blake3 : Blake3
blake3 = record {
  hash = λ b. take 32 (b ++ replicate 32 0);
  length-hash =
      λ b. omega (arith, length-take 32 (b ++ replicate 32 0), length-append b (replicate 32 0));
}

abbrev pub deps : Deps
deps = record { crc = crc; blake3 = blake3 }

abbrev pub env : Env
env = record { now = 5; blob = none; append = none; footer = no_footer_faults; open_fails = false }

abbrev pub full_disk : Env
full_disk = record env { append = some 3 }

abbrev pub config : LogConfig
config = record { rotate_threshold = 1000; fanout = 4; value_sep_threshold = 64 }

abbrev pub log0 : NamespaceLog
log0 = record {
  values = Values.empty;
  index = Index.empty;
  sealed = [];
  active = open_file 1 [];
  config = config;
  unsynced_bytes = 0;
  last_tstamp = 3;
  is_frozen = false;
}

abbrev pub key : Bytes
key = 107 ∷ []

abbrev pub value : Bytes
value = 118 ∷ 49 ∷ []
