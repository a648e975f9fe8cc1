-- ===== src/Engine/Store/Ensures.antt =====
-- Conditions before and after the methods of the store, crates/engine/src/store.rs.
use kv.Prelude.{◌≡◌, refl, sym, subst, Bool, true, false, if◌then◌else◌, ok, err}
use kv.Engine.Error.{Result}
use kv.Engine.Store.{Shard, Exec, pure, lift, gets, ◌>>=◌, continue}

-- `F` of the store if the method failed, and else `Q`.
abbrev pub Post : {A : Type 0} → (Shard → Type 0) → (A → Shard → Type 0) → Shard × Result A → Type 0
Post F Q (s, ok a) = Q a s
Post F Q (s, err e) = F s

pub record Ensures {A : Type 0} (F P : Shard → Type 0) (m : Exec A) (Q : A → Shard → Type 0)
    : Type 0 where
  pub at : (s : Shard) → P s → Post F Q (m s)

module _ {A : Type 0} {F P : Shard → Type 0} where
  pub Ensures-pure :
      (Q : A → Shard → Type 0) (a : A) → ((s : Shard) → P s → Q a s) → Ensures F P (pure a) Q
  Ensures-pure Q a h = record { at = h }

  pub Ensures-gets :
      (Q : A → Shard → Type 0) (f : Shard → A)
      → ((s : Shard) → P s → Q (f s) s)
      → Ensures F P (gets f) Q
  Ensures-gets Q f h = record { at = h }

  -- The store is as it was if the result is an error.
  pub Ensures-lift :
      (r : Result A) → ((s : Shard) → P s → F s) → Ensures F P (lift r) (λ a s. P s × (r ≡ ok a))
  Ensures-lift (ok a) h = record { at = λ s p. (p, refl) }
  Ensures-lift (err e) h = record { at = h }

  pub Ensures-if :
      (Q : A → Shard → Type 0) (b : Bool) (m n : Exec A)
      → (b ≡ true → Ensures F P m Q)
      → (b ≡ false → Ensures F P n Q)
      → Ensures F P (if b then m else n) Q
  Ensures-if Q true m n h g = h refl
  Ensures-if Q false m n h g = g refl

  pub Ensures-imp :
      {P' : Shard → Type 0} (m : Exec A) (Q : A → Shard → Type 0)
      → ((s : Shard) → P' s → P s)
      → Ensures F P m Q
      → Ensures F P' m Q
  Ensures-imp m Q h e = record { at = λ s p. e.at s (h s p) }

-- A weaker condition after the method.
module _ {A : Type 0} (F P : Shard → Type 0) (m : Exec A) (Q Q' : A → Shard → Type 0)
    (weaker : (a : A) (s : Shard) → Q a s → Q' a s) where
  weakened : (r : Shard × Result A) → Post F Q r → Post F Q' r
  weakened (s, ok a) h = weaker a s h
  weakened (s, err e) h = h

  pub Ensures-weaken : Ensures F P m Q → Ensures F P m Q'
  Ensures-weaken h = record { at = λ s p. weakened (m s) (h.at s p) }

-- After a method that may fail with any store.
abbrev pub Anything : Shard → Type 0
Anything s = Unit

module _ {A : Type 0} (F P : Shard → Type 0) (m : Exec A) (Q : A → Shard → Type 0) where
  or_Anything : (r : Shard × Result A) → Post F Q r → Post Anything Q r
  or_Anything (s, ok a) h = h
  or_Anything (s, err e) h = tt

  pub Ensures-Anything : Ensures F P m Q → Ensures Anything P m Q
  Ensures-Anything h = record { at = λ s p. or_Anything (m s) (h.at s p) }

-- What a method leaves alone keeps its properties.
module _ {A T : Type 0} (F P : Shard → Type 0) (f : Shard → T) (R : T → Type 0) where
  framed :
      (Q : A → Shard → Type 0) (t : T) (r : Shard × Result A)
      → f r.0 ≡ t
      → R t
      → Post F Q r
      → Post F (λ a s. Q a s × R (f s)) r
  framed Q t (s, ok a) same h q = (q, subst R (sym same) h)
  framed Q t (s, err e) same h q = q

  pub Ensures-frame :
      (m : Exec A) (Q : A → Shard → Type 0)
      → ((s : Shard) → f (m s).0 ≡ f s)
      → Ensures F P m Q
      → Ensures F (λ s. P s × R (f s)) m (λ a s. Q a s × R (f s))
  Ensures-frame m Q same h = record { at = λ s p. framed Q (f s) (m s) (same s) p.1 (h.at s p.0) }

module _ {A B : Type 0} {F P : Shard → Type 0} where
  pub Ensures-bind :
      (R : A → Shard → Type 0) (Q : B → Shard → Type 0) (m : Exec A) (f : A → Exec B)
      → Ensures F P m R
      → ((a : A) → Ensures F (R a) (f a) Q)
      → Ensures F P (m >>= f) Q
  unfolding ◌>>=◌
  Ensures-bind R Q m f h k = record { at = λ s p. bind_at (m s) (h.at s p) }
    where
      bind_at : (r : Shard × Result A) → Post F R r → Post F Q (continue r f)
      bind_at (s, ok a) q = (k a).at s q
      bind_at (s, err e) q = q

-- What holds after a run that succeeded.
pub Ensures-ok :
    {A : Type 0} {F P : Shard → Type 0} {Q : A → Shard → Type 0} {m : Exec A} {s s' : Shard} {a : A}
    → Ensures F P m Q
    → P s
    → m s ≡ (s', ok a)
    → Q a s'
Ensures-ok {F} {Q} h p e = subst (Post F Q) e (h.at _ p)
