-- ===== src/Proto/Command.antt =====
-- crates/proto/src/command.rs: the commands, and the state of their parsers. `Value` is the type of
-- the library that reads RESP; of its variants, the parser tells apart those below.
pub mod Options
pub mod Parse
pub mod Table
pub mod Requests
pub mod Loop
pub mod WellFormed
use Prim.Native.String.{String}
use kv.Prelude.{ℕ, Bool, List, Option, Bytes}
use kv.Prelude
use kv.Proto.Integer.{ℤ}

pub data Value : Type 0 where
  bulk_string : Bytes → Value
  simple_string : Bytes → Value
  other : Value

-- A message: an array of values, or none.
pub data Message : Type 0 where
  array : List Value → Message
  scalar : Value → Message

-- crates/proto/src/error.rs
pub data ProtoError : Type 0 where
  wrong_arity : String → ProtoError
  invalid_integer : Bytes → ProtoError
  invalid_expiry : Bytes → ProtoError
  syntax : Bytes → ProtoError
  unknown_command : Bytes → ProtoError
  invalid_format : String → ProtoError
  db_index_out_of_range : ProtoError

abbrev pub Result : Type 0 → Type 0
Result A = Prelude.Result ProtoError A

pub data SetCondition : Type 0 where
  always : SetCondition
  nx : SetCondition
  xx : SetCondition
  rev : ℕ → SetCondition

pub data SetTtl : Type 0 where
  seconds : ℕ → SetTtl
  millis : ℕ → SetTtl
  unix_secs : ℕ → SetTtl
  unix_millis : ℕ → SetTtl

pub record SetArgs : Type 0 where
  pub ttl : Option SetTtl
  pub condition : SetCondition
  pub get : Bool
  pub keep_ttl : Bool
  pub metadata : Option Bytes

pub record ScanArgs : Type 0 where
  pub pattern' : Option Bytes
  pub count : ℕ

pub data GetExTtl : Type 0 where
  set : SetTtl → GetExTtl
  persist : GetExTtl

pub data Command : Type 0 where
  get : Bytes → Command
  set : Bytes → Bytes → SetArgs → Command
  del : List Bytes → Command
  exists : List Bytes → Command
  expire : Bytes → ℕ → Command
  p_expire : Bytes → ℕ → Command
  expire_at : Bytes → ℕ → Command
  p_expire_at : Bytes → ℕ → Command
  ttl : Bytes → Command
  p_ttl : Bytes → Command
  persist : Bytes → Command
  keys : Option Bytes → Command
  scan : Bytes → ScanArgs → Command
  m_get : List Bytes → Command
  m_set : List (Bytes × Bytes) → Command
  get_set : Bytes → Bytes → Command
  set_nx : Bytes → Bytes → Command
  get_del : Bytes → Command
  get_ex : Bytes → Option GetExTtl → Command
  incr : Bytes → Command
  incr_by : Bytes → ℤ → Command
  decr : Bytes → Command
  decr_by : Bytes → ℤ → Command
  hello : Option ℕ → Command
  ping : Option Bytes → Command
  select : ℕ → Command
  db_size : Command
  flush_db : Command
  bg_rewrite_aof : Command
  quit : Command
  reset : Command
  watch : List Bytes → Option ℕ → Command
  p_watch : Bytes → Option ℕ → Command
  unwatch : Command
  get_revision : Bytes → Command
  set_rev : Bytes → Bytes → ℕ → Option SetTtl → Command
  del_rev : Bytes → ℕ → Command
  get_meta : Bytes → Command
