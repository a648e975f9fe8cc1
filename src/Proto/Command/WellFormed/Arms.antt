-- ===== src/Proto/Command/WellFormed/Arms.antt =====
-- The commands without options: crates/proto/src/command.rs.
use Prim.Native.String.{String}
use kv.Prelude.{
  ℕ, ◌+◌, ◌%◌, ◌<◌, ◌≡◌, refl, ◌||◌, not, List, [], ◌∷◌, Option, none, some, ltb, ◌==◌, if_elim,
  length, Bytes, ok_or, arith, tests, inl, inr, Bool-cases, ensure,
}
use kv.Proto.Integer.{ℤ, atoi_u64}
use kv.Proto.Command.{Command, Value, invalid_integer}
use kv.Proto.Command.Options.{bulk, parse_u64, parse_i64}
use kv.Proto.Command.Parse.{
  one_key, is_since, key_value, key_u64, key_i64, bulks, many_keys, chunks, parse_m_set, optional,
  parse_hello, parse_select, alone, parse_watch, parse_p_watch, watch_args,
}
use kv.Proto.Command.Loop.{
  Returns, after, after_any, IsU64, parse_u64-IsU64, IsI64, parse_i64-IsI64,
}
use kv.Proto.Command.WellFormed.{IsWellFormed, ArmOk, SinceOk}

pub one_key-ok :
    (cmd : String) (make : Bytes → Command)
    → ((k : Bytes) → IsWellFormed (make k))
    → ArmOk (one_key cmd make)
one_key-ok cmd make h [] = tt
one_key-ok cmd make h (k ∷ []) = after_any IsWellFormed (bulk k) _ h
one_key-ok cmd make h (k ∷ l ∷ ks) = tt

pub key_value-ok :
    (cmd : String) (make : Bytes → Bytes → Command)
    → ((k v : Bytes) → IsWellFormed (make k v))
    → ArmOk (key_value cmd make)
key_value-ok cmd make h [] = tt
key_value-ok cmd make h (k ∷ []) = tt
key_value-ok cmd make h (k ∷ v ∷ []) =
    after_any IsWellFormed (bulk k) _ λ key. after_any IsWellFormed (bulk v) _ λ value. h key value
key_value-ok cmd make h (k ∷ v ∷ w ∷ ks) = tt

pub key_u64-ok :
    (cmd : String) (make : Bytes → ℕ → Command)
    → ((k : Bytes) (n : ℕ) → IsU64 n → IsWellFormed (make k n))
    → ArmOk (key_u64 cmd make)
key_u64-ok cmd make h [] = tt
key_u64-ok cmd make h (k ∷ []) = tt
key_u64-ok cmd make h (k ∷ v ∷ []) =
    after_any IsWellFormed (bulk k) _
      λ key. after IsWellFormed IsU64 (parse_u64 v) _ (parse_u64-IsU64 v) λ n small. h key n small
key_u64-ok cmd make h (k ∷ v ∷ w ∷ ks) = tt

pub key_i64-ok :
    (cmd : String) (make : Bytes → ℤ → Command)
    → ((k : Bytes) (n : ℤ) → IsI64 n → IsWellFormed (make k n))
    → ArmOk (key_i64 cmd make)
key_i64-ok cmd make h [] = tt
key_i64-ok cmd make h (k ∷ []) = tt
key_i64-ok cmd make h (k ∷ v ∷ []) =
    after_any IsWellFormed (bulk k) _
      λ key. after IsWellFormed IsI64 (parse_i64 v) _ (parse_i64-IsI64 v) λ n small. h key n small
key_i64-ok cmd make h (k ∷ v ∷ w ∷ ks) = tt

bulks-length : (vs : List Value) → Returns (λ bs. length bs ≡ length vs) (bulks vs)
unfolding bulks
bulks-length [] = refl
bulks-length (v ∷ vs) = after_any _ (bulk v) _ λ b.
    after _ (λ bs. length bs ≡ length vs) (bulks vs) _ (bulks-length vs) λ bs e. omega (arith, e)

pub many_keys-ok :
    (cmd : String) (make : List Bytes → Command)
    → ((ks : List Bytes) → 0 < length ks → IsWellFormed (make ks))
    → ArmOk (many_keys cmd make)
unfolding many_keys
many_keys-ok cmd make h [] = tt
many_keys-ok cmd make h (k ∷ ks) =
    after IsWellFormed (λ bs. length bs ≡ length (k ∷ ks)) (bulks (k ∷ ks)) _
      (bulks-length (k ∷ ks)) λ bs e. h bs (omega (arith, e))

chunks-length : (vs : List Value) → Returns (λ ps. length ps + length ps ≡ length vs) (chunks vs)
unfolding chunks
chunks-length [] = refl
chunks-length (v ∷ []) = tt
chunks-length (k ∷ v ∷ vs) = after_any _ (bulk k) _ λ key. after_any _ (bulk v) _ λ value.
    after _ (λ ps. length ps + length ps ≡ length vs) (chunks vs) _ (chunks-length vs)
      λ ps e. omega (arith, e)

pub parse_m_set-ok : ArmOk parse_m_set
unfolding parse_m_set
parse_m_set-ok args =
    if_elim (Returns IsWellFormed) (ltb (length args) 2 || not (length args % 2 == 0)) _ _ (λ _. tt)
      λ big.
        after IsWellFormed (λ ps. length ps + length ps ≡ length args) (chunks args) _
          (chunks-length args) λ ps e. ground (arith, e)

pub optional-ok :
    (make : Option Bytes → Command)
    → ((o : Option Bytes) → IsWellFormed (make o))
    → ArmOk (optional make)
optional-ok make h [] = h none
optional-ok make h (v ∷ vs) = after_any IsWellFormed (bulk v) _ λ b. h (some b)

ensure_byte :
    (n : ℕ) (raw : Bytes) → Returns (λ _. n < 256) (ensure (ltb n 256) (invalid_integer raw))
ensure_byte n raw = elim (Bool-cases (ltb n 256)) [
  | inl small ↦ rw small (omega (tests, small))
  | inr large ↦ rw large tt
]

pub parse_hello-ok : ArmOk parse_hello
unfolding parse_hello
parse_hello-ok [] = tt
parse_hello-ok (v ∷ vs) = after_any IsWellFormed (bulk v) _ λ raw.
    after_any IsWellFormed (ok_or (atoi_u64 raw) (invalid_integer raw)) _ λ n.
      after IsWellFormed (λ _. n < 256) (ensure (ltb n 256) (invalid_integer raw)) _
        (ensure_byte n raw) λ _ small. small

pub parse_select-ok : ArmOk parse_select
unfolding parse_select
parse_select-ok [] = tt
parse_select-ok (v ∷ []) =
    after IsWellFormed IsU64 (parse_u64 v) _ (parse_u64-IsU64 v) λ n small. small
parse_select-ok (v ∷ w ∷ vs) = tt

pub alone-ok : (cmd : String) (c : Command) → IsWellFormed c → ArmOk (alone cmd c)
alone-ok cmd c h [] = h
alone-ok cmd c h (v ∷ vs) = tt

watch_args-ok :
    (vs : List Value) → Returns (λ (w : List Bytes × Option ℕ). SinceOk w.1) (watch_args vs)
unfolding watch_args
watch_args-ok [] = tt
watch_args-ok (k ∷ []) = after_any _ (bulk k) _ λ key. tt
watch_args-ok (s ∷ n ∷ []) = after_any _ (bulk s) _ λ b.
    if_elim (Returns (λ (w : List Bytes × Option ℕ). SinceOk w.1)) (is_since b) _ _
      (λ _. after _ IsU64 (parse_u64 n) _ (parse_u64-IsU64 n) λ m small. small)
      (λ _. after_any _ (bulk n) _ λ last. tt)
watch_args-ok (k ∷ s ∷ n ∷ rest) =
    after _ (λ (w : List Bytes × Option ℕ). SinceOk w.1) (watch_args (s ∷ n ∷ rest)) _
      (watch_args-ok (s ∷ n ∷ rest)) λ w h. after_any _ (bulk k) _ λ key. h

pub parse_watch-ok : ArmOk parse_watch
unfolding parse_watch
parse_watch-ok [] = tt
parse_watch-ok (k ∷ ks) =
    after IsWellFormed (λ (w : List Bytes × Option ℕ). SinceOk w.1) (watch_args (k ∷ ks)) _
      (watch_args-ok (k ∷ ks)) λ w h. h

pub parse_p_watch-ok : ArmOk parse_p_watch
unfolding parse_p_watch
parse_p_watch-ok [] = tt
parse_p_watch-ok (p ∷ []) = after_any IsWellFormed (bulk p) _ λ prefix. tt
parse_p_watch-ok (p ∷ s ∷ []) = after_any IsWellFormed (bulk p) _ λ prefix. tt
parse_p_watch-ok (p ∷ s ∷ n ∷ rest) = after_any IsWellFormed (bulk p) _ λ prefix.
    after_any IsWellFormed (bulk s) _ λ b.
      if_elim (Returns IsWellFormed) (is_since b) _ _
        (λ _. after IsWellFormed IsU64 (parse_u64 n) _ (parse_u64-IsU64 n) λ m small. small)
        (λ _. tt)
