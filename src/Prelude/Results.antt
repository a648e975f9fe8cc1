-- ===== src/Prelude/Results.antt =====
-- Rust's `Result`, and its `?` as `>>=`.
use mathlib.Core.Path.{◌≡◌, refl}
use mathlib.Core.Bool.{Bool, true, false}
use mathlib.Core.Option.{Option, none, some}

pub data Result {ℓ κ} (E : Type ℓ) (A : Type κ) : Type (ℓ ⊔ κ) where
  ok : A → Result E A
  err : E → Result E A

-- `if !cond { return Err(e) }`
abbrev pub ensure {ℓ} : {E : Type ℓ} → Bool → E → Result E (Unit {0})
ensure false e = err e
ensure true _ = ok tt

-- `?`: the rest of a function behind a call that may fail.
infixl 5 ◌>>=◌
abbrev pub ◌>>=◌ {ℓ κ ι} :
    {E : Type ℓ} {A : Type κ} {B : Type ι} → Result E A → (A → Result E B) → Result E B
err e >>= rest = err e
ok a >>= rest = rest a

-- `Option::ok_or`
abbrev pub ok_or {ℓ κ} : {E : Type ℓ} {A : Type κ} → Option A → E → Result E A
ok_or (some a) e = ok a
ok_or none e = err e

-- The rest of a method that changes its object and may fail: what was changed before an error stays.
abbrev pub and_then {ℓ κ ι} :
    {S E : Type ℓ} {A : Type κ} {B : Type ι}
    → S × Result E A
    → (A → S → S × Result E B)
    → S × Result E B
and_then (s, ok a) f = f a s
and_then (s, err e) f = (s, err e)

-- A property of what follows a step, from what the step does on each outcome.
pub and_then_elim {ℓ κ ι o} :
    {S E : Type ℓ} {A : Type κ} {B : Type ι} (P : S × Result E B → Type o) (m : S × Result E A)
    → (f : A → S → S × Result E B) → ((s : S) (e : E) → m ≡ (s, err e) → P (s, err e))
    → ((s : S) (a : A) → m ≡ (s, ok a) → P (f a s))
    → P (and_then m f)
and_then_elim P (s, ok a) f bad good = good s a refl
and_then_elim P (s, err e) f bad good = bad s e refl

-- `result.is_ok()`
abbrev pub is_ok {ℓ κ} : {E : Type ℓ} {A : Type κ} → Result E A → Bool
is_ok (ok a) = true
is_ok (err e) = false

-- The same, of a step that is known to leave the state `s`.
pub then_elim {ℓ κ ι o} :
    {S E : Type ℓ} {A : Type κ} {B : Type ι} (P : S × Result E B → Type o) (s : S) (r : Result E A)
    → (f : A → S → S × Result E B) → ((e : E) → r ≡ err e → P (s, err e))
    → ((a : A) → r ≡ ok a → P (f a s))
    → P (and_then (s, r) f)
then_elim P s (ok a) f bad good = good a refl
then_elim P s (err e) f bad good = bad e refl

-- A statement in a do block.
infixl 5 ◌>>◌
abbrev pub ◌>>◌ {ℓ κ} : {E : Type ℓ} {B : Type κ} → Result E (Unit {0}) → Result E B → Result E B
check >> rest = check >>= (λ done. rest)
