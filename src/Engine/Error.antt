-- ===== src/Engine/Error.antt =====
-- crates/engine/src/error.rs. The reasons are texts for people; `BadRecord` keeps its offset only,
-- as do the two kinds of capacity and input errors their kind.
use kv.Prelude.{ℕ}
use kv.Prelude

pub data EngineError : Type 0 where
  io : EngineError
  crc_mismatch : ℕ → EngineError
  bad_record : ℕ → EngineError
  invalid_namespace : EngineError
  metadata_json : EngineError
  reclamation_busy : EngineError
  capacity_exceeded : EngineError
  invalid_input : EngineError
  conflict : EngineError
  frozen : EngineError

abbrev pub Result : Type 0 → Type 0
Result A = Prelude.Result EngineError A
