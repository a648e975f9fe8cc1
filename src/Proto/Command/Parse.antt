-- ===== src/Proto/Command/Parse.antt =====
-- Command::parse of crates/proto/src/command.rs.
use Prim.Native.String.{String}
use kv.Prelude.{
  ℕ, ◌%◌, Bool, false, ◌||◌, not, List, [], ◌∷◌, Option, none, some, ltb, leb, ◌==◌, if◌then◌else◌,
  length, Bytes, codes, bytes_eq, ok, err, ok_or, ensure, ◌>>=◌, ◌>>◌,
}
use kv.Proto.Integer.{ℤ, atoi_u64}
use kv.Proto.Command.{Command}
use kv.Proto.Command.{Value, wrong_arity, invalid_integer, Result}
use kv.Proto.Command.Options.{bulk, parse_u64, parse_i64, uppercase}

-- In each parser, `args` are the arguments behind the name.
unfoldable pub bulks : List Value → Result (List Bytes)
bulks [] = ok []
bulks (v ∷ vs) = do b ← bulk v; bs ← bulks vs; ok (b ∷ bs)

-- The commands with a fixed number of arguments.
abbrev pub one_key : String → (Bytes → Command) → List Value → Result Command
one_key cmd make (k ∷ []) = do key ← bulk k; ok (make key)
one_key cmd make args = err (wrong_arity cmd)

abbrev pub key_value : String → (Bytes → Bytes → Command) → List Value → Result Command
key_value cmd make (k ∷ v ∷ []) = do key ← bulk k; value ← bulk v; ok (make key value)
key_value cmd make args = err (wrong_arity cmd)

abbrev pub key_u64 : String → (Bytes → ℕ → Command) → List Value → Result Command
key_u64 cmd make (k ∷ v ∷ []) = do key ← bulk k; n ← parse_u64 v; ok (make key n)
key_u64 cmd make args = err (wrong_arity cmd)

abbrev pub key_i64 : String → (Bytes → ℤ → Command) → List Value → Result Command
key_i64 cmd make (k ∷ v ∷ []) = do key ← bulk k; n ← parse_i64 v; ok (make key n)
key_i64 cmd make args = err (wrong_arity cmd)

-- DEL, EXISTS, MGET: one key or more.
unfoldable pub many_keys : String → (List Bytes → Command) → List Value → Result Command
unfolding bulks
many_keys cmd make [] = err (wrong_arity cmd)
many_keys cmd make (k ∷ ks) = do keys ← bulks (k ∷ ks); ok (make keys)

-- `args[1..].chunks(2)`; the length is even where it is used.
unfoldable pub chunks : List Value → Result (List (Bytes × Bytes))
chunks [] = ok []
chunks (k ∷ []) = err (wrong_arity "MSET")
chunks (k ∷ v ∷ rest) = do
  key ← bulk k
  value ← bulk v
  pairs ← chunks rest
  ok ((key, value) ∷ pairs)

unfoldable pub parse_m_set : List Value → Result Command
unfolding chunks
parse_m_set args =
    if ltb (length args) 2 || not (length args % 2 == 0)
    then err (wrong_arity "MSET")
    else do pairs ← chunks args; ok (Command.m_set pairs)

abbrev pub optional : (Option Bytes → Command) → List Value → Result Command
optional make [] = ok (make none)
optional make (v ∷ vs) = do b ← bulk v; ok (make (some b))

unfoldable pub parse_hello : List Value → Result Command
parse_hello [] = ok (Command.hello none)
parse_hello (v ∷ vs) = do
  raw ← bulk v
  n ← ok_or (atoi_u64 raw) (invalid_integer raw)
  ensure (ltb n 256) (invalid_integer raw)
  ok (Command.hello (some n))

unfoldable pub parse_select : List Value → Result Command
parse_select (v ∷ []) = do db ← parse_u64 v; ok (Command.select db)
parse_select args = err (wrong_arity "SELECT")

abbrev pub alone : String → Command → List Value → Result Command
alone cmd c [] = ok c
alone cmd c (v ∷ vs) = err (wrong_arity cmd)

abbrev pub is_since : Bytes → Bool
is_since b = if leb (length b) 5 then bytes_eq (uppercase b) (codes "SINCE") else false

-- The keys, and the revision if the last two arguments are SINCE and a number.
unfoldable pub watch_args : List Value → Result (List Bytes × Option ℕ)
watch_args [] = ok ([], none)
watch_args (k ∷ []) = do key ← bulk k; ok (key ∷ [], none)
watch_args (s ∷ n ∷ []) = do
  maybe_since ← bulk s
  if is_since maybe_since
      then (do since ← parse_u64 n; ok ([], some since))
      else (do last ← bulk n; ok (maybe_since ∷ last ∷ [], none))
watch_args (k ∷ s ∷ n ∷ rest) = do
  (keys, since) ← watch_args (s ∷ n ∷ rest)
  key ← bulk k
  ok (key ∷ keys, since)

unfoldable pub parse_watch : List Value → Result Command
unfolding watch_args
parse_watch [] = err (wrong_arity "WATCH")
parse_watch (k ∷ ks) = do (keys, since) ← watch_args (k ∷ ks); ok (Command.watch keys since)

unfoldable pub parse_p_watch : List Value → Result Command
parse_p_watch [] = err (wrong_arity "PWATCH")
parse_p_watch (p ∷ s ∷ n ∷ rest) = do
  prefix ← bulk p
  maybe_since ← bulk s
  if is_since maybe_since
      then (do since ← parse_u64 n; ok (Command.p_watch prefix (some since)))
      else ok (Command.p_watch prefix none)
parse_p_watch (p ∷ rest) = do prefix ← bulk p; ok (Command.p_watch prefix none)
