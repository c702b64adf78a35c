-- ===== src/Prelude/Keeps.antt =====
-- What an action keeps, and what it ensures where it returns: one rule for each way to build an action.
use mathlib.Core.Bool.{Bool, true, false}
use mathlib.Core.Path.{◌≡◌, refl}
use k8s_dr.Prelude.Tests.{if◌then◌else◌}
use k8s_dr.Prelude.Effects.{
  Error, Result, ok, err, Exec, pure, raise, lift, raise_if, ask, handle, catching, continue, ◌>>=◌,
}

-- `m` keeps `Q`, whether it returns or raises.
pub record Keeps {S A : Type 0} (Q : S → Type 0) (m : Exec S A) : Type 0 where
  pub at : (s : S) → Q s → Q (m s).1

module _ {S A : Type 0} {Q : S → Type 0} where
  pub Keeps-pure : (a : A) → Keeps Q (pure a)
  unfolding pure
  Keeps-pure a = record { at = λ s h. h }

  pub Keeps-raise : (e : Error) → Keeps Q (raise {A = A} e)
  unfolding raise
  Keeps-raise e = record { at = λ s h. h }

  pub Keeps-lift : (r : Result A) → Keeps Q (lift r)
  unfolding lift
  Keeps-lift r = record { at = λ s h. h }

  pub Keeps-ask : (f : S → Result A) → Keeps Q (ask f)
  unfolding ask
  Keeps-ask f = record { at = λ s h. h }

  pub Keeps-if : (b : Bool) (m n : Exec S A) → Keeps Q m → Keeps Q n → Keeps Q (if b then m else n)
  Keeps-if true m n km kn = km
  Keeps-if false m n km kn = kn

  handle-Keeps :
      (r : Result A) (handler : Error → Exec S A) (s : S)
      → ((e : Error) → Keeps Q (handler e))
      → Q s
      → Q (handle r handler s).1
  handle-Keeps (ok a) handler s kh h = h
  handle-Keeps (err e) handler s kh h = (kh e).at s h

  pub Keeps-catching :
      (m : Exec S A) (handler : Error → Exec S A)
      → Keeps Q m
      → ((e : Error) → Keeps Q (handler e))
      → Keeps Q (catching m handler)
  unfolding catching
  Keeps-catching m handler km kh = record {
    at = λ s h. let (r, s') = m s in handle-Keeps r handler s' kh (km.at s h);
  }

module _ {S : Type 0} {Q : S → Type 0} where
  pub Keeps-raise_if : (b : Bool) (e : Error) → Keeps Q (raise_if b e)
  unfolding raise_if
  Keeps-raise_if true e = record { at = λ s h. h }
  Keeps-raise_if false e = record { at = λ s h. h }

module _ {S A B : Type 0} {Q : S → Type 0} where
  continue-Keeps :
      (r : Result A) (f : A → Exec S B) (s : S)
      → ((a : A) → Keeps Q (f a))
      → Q s
      → Q (continue r f s).1
  continue-Keeps (ok a) f s kf h = (kf a).at s h
  continue-Keeps (err e) f s kf h = h

  pub Keeps-bind :
      (m : Exec S A) (f : A → Exec S B) → Keeps Q m → ((a : A) → Keeps Q (f a)) → Keeps Q (m >>= f)
  unfolding ◌>>=◌
  Keeps-bind m f km kf = record {
    at = λ s h. let (r, s') = m s in continue-Keeps r f s' kf (km.at s h);
  }

pub ruleset action_rules = (
  Keeps-pure, Keeps-raise, Keeps-lift, Keeps-ask, Keeps-if, Keeps-catching, Keeps-raise_if,
  Keeps-bind,
)

-- What holds of the value and the object where an action returns.
abbrev pub OnOk : {S A : Type 0} → (A → S → Type 0) → Result A → S → Type 0
OnOk Q (ok a) s = Q a s
OnOk Q (err e) s = Unit {0}

-- Wherever `m` returns, `Q` holds of its value and the object.
pub record Ensures {S A : Type 0} (Q : A → S → Type 0) (m : Exec S A) : Type 0 where
  pub at : (s : S) → OnOk Q (m s).0 (m s).1

module _ {S A : Type 0} {Q : A → S → Type 0} where
  pub Ensures-raise : (e : Error) → Ensures Q (raise e)
  unfolding raise
  Ensures-raise e = record { at = λ s. tt }

  pub Ensures-if :
      (b : Bool) (m n : Exec S A) → Ensures Q m → Ensures Q n → Ensures Q (if b then m else n)
  Ensures-if true m n em en = em
  Ensures-if false m n em en = en

  handle-Ensures :
      (r : Result A) (handler : Error → Exec S A) (s : S)
      → ((e : Error) → Ensures Q (handler e))
      → OnOk Q r s
      → OnOk Q (handle r handler s).0 (handle r handler s).1
  handle-Ensures (ok a) handler s eh h = h
  handle-Ensures (err e) handler s eh h = (eh e).at s

  pub Ensures-catching :
      (m : Exec S A) (handler : Error → Exec S A)
      → Ensures Q m
      → ((e : Error) → Ensures Q (handler e))
      → Ensures Q (catching m handler)
  unfolding catching
  Ensures-catching m handler em eh = record {
    at = λ s. let (r, s') = m s in handle-Ensures r handler s' eh (em.at s);
  }

module _ {S A B : Type 0} where
  -- With a fact that holds where the first action returns, and that the rest keeps.
  pub continue-keeping :
      (P : B → S → Type 0) (R : S → Type 0) (r : Result A) (f : A → Exec S B) (s : S)
      → ((a : A) (s : S) → R s → OnOk P (f a s).0 (f a s).1)
      → OnOk (λ _ s. R s) r s
      → OnOk P (continue r f s).0 (continue r f s).1
  continue-keeping P R (ok a) f s ef h = ef a s h
  continue-keeping P R (err e) f s ef h = tt

module _ {S A B : Type 0} {Q : B → S → Type 0} where
  continue-Ensures :
      (r : Result A) (f : A → Exec S B) (s : S)
      → ((a : A) → Ensures Q (f a))
      → OnOk Q (continue r f s).0 (continue r f s).1
  continue-Ensures (ok a) f s ef = (ef a).at s
  continue-Ensures (err e) f s ef = tt

  pub Ensures-bind :
      (m : Exec S A) (f : A → Exec S B) → ((a : A) → Ensures Q (f a)) → Ensures Q (m >>= f)
  unfolding ◌>>=◌
  Ensures-bind m f ef = record { at = λ s. let (r, s') = m s in continue-Ensures r f s' ef }

  pub bind-Ensures_after :
      (R : S → Type 0) (m : Exec S A) (f : A → Exec S B)
      → Ensures (λ _ s. R s) m
      → ((a : A) (s : S) → R s → OnOk Q (f a s).0 (f a s).1)
      → Ensures Q (m >>= f)
  unfolding ◌>>=◌
  bind-Ensures_after R m f em ef = record {
    at = λ s. let (r, s') = m s in continue-keeping Q R r f s' ef (em.at s);
  }

  continue-Ensures_value :
      (R : A → Type 0) (r : Result A) (f : A → Exec S B) (s : S)
      → ((a : A) → R a → Ensures Q (f a))
      → OnOk (λ a _. R a) r s
      → OnOk Q (continue r f s).0 (continue r f s).1
  continue-Ensures_value R (ok a) f s ef h = (ef a h).at s
  continue-Ensures_value R (err e) f s ef h = tt

  -- With a fact about the value of the first action.
  pub bind-Ensures_value :
      (R : A → Type 0) (m : Exec S A) (f : A → Exec S B)
      → Ensures (λ a _. R a) m
      → ((a : A) → R a → Ensures Q (f a))
      → Ensures Q (m >>= f)
  unfolding ◌>>=◌
  bind-Ensures_value R m f em ef = record {
    at = λ s. let (r, s') = m s in continue-Ensures_value R r f s' ef (em.at s);
  }

module _ {S A : Type 0} where
  pub Ensures-pure : (R : A → Type 0) (a : A) → R a → Ensures {S = S} (λ a _. R a) (pure a)
  unfolding pure
  Ensures-pure R a h = record { at = λ s. h }

  -- The value of a `lift` is the one that is lifted.
  pub Ensures-lift : (r : Result A) → Ensures {S = S} (λ a _. r ≡ ok a) (lift r)
  unfolding lift
  Ensures-lift (ok a) = record { at = λ s. refl }
  Ensures-lift (err e) = record { at = λ s. tt }

-- Behind a `raise_if`, its test is false.
pub Ensures-raise_if :
    {S : Type 0} (b : Bool) (e : Error) → Ensures {S = S} (λ _ _. b ≡ false) (raise_if b e)
unfolding raise_if
Ensures-raise_if true e = record { at = λ s. tt }
Ensures-raise_if false e = record { at = λ s. refl }

-- A fact about the object holds on each result.
pub OnOk-of : {S A : Type 0} (Q : S → Type 0) (r : Result A) (s : S) → Q s → OnOk (λ _ s. Q s) r s
OnOk-of Q (ok a) s h = h
OnOk-of Q (err e) s h = tt

pub ruleset ensure_rules = (Ensures-raise, Ensures-if, Ensures-catching, Ensures-bind)

-- From `P`, where `m` returns, `Q` holds of its value and the object.
pub record Triple {S A : Type 0} (P : S → Type 0) (m : Exec S A) (Q : A → S → Type 0) : Type 0 where
  pub at : (s : S) → P s → OnOk Q (m s).0 (m s).1

module _ {S A B : Type 0} where
  continue-Triple :
      (R : A → S → Type 0) (Q : B → S → Type 0) (r : Result A) (f : A → Exec S B) (s : S)
      → ((a : A) → Triple (R a) (f a) Q)
      → OnOk R r s
      → OnOk Q (continue r f s).0 (continue r f s).1
  continue-Triple R Q (ok a) f s k h = (k a).at s h
  continue-Triple R Q (err e) f s k h = tt

  pub Triple-bind :
      (P : S → Type 0) (R : A → S → Type 0) (Q : B → S → Type 0) (m : Exec S A) (f : A → Exec S B)
      → Triple P m R
      → ((a : A) → Triple (R a) (f a) Q)
      → Triple P (m >>= f) Q
  unfolding ◌>>=◌
  Triple-bind P R Q m f km kf = record {
    at = λ s h. let (r, s') = m s in continue-Triple R Q r f s' kf (km.at s h);
  }

-- What is kept, as a triple.
pub Keeps-Triple : {S A : Type 0} (P : S → Type 0) (m : Exec S A) → Keeps P m → Triple P m (λ _. P)
Keeps-Triple P m k = record { at = λ s h. OnOk-of P (m s).0 (m s).1 (k.at s h) }

-- The same from every object.
pub Triple-any :
    {S A : Type 0} (P : S → Type 0) (m : Exec S A) (Q : A → S → Type 0)
    → Triple (λ s. Unit {0}) m Q
    → Triple P m Q
Triple-any P m Q k = record { at = λ s h. k.at s tt }

-- The value of a `lift` is the one that is lifted.
pub Triple-lift :
    {S A : Type 0} (P : S → Type 0) (r : Result A) → Triple P (lift r) (λ a s. P s × (r ≡ ok a))
unfolding lift
Triple-lift P (ok a) = record { at = λ s h. (h, refl) }
Triple-lift P (err e) = record { at = λ s h. tt }

-- Behind a `raise_if`, its test is false.
pub Triple-raise_if :
    {S : Type 0} (P : S → Type 0) (b : Bool) (e : Error)
    → Triple P (raise_if b e) (λ _ s. P s × (b ≡ false))
unfolding raise_if
Triple-raise_if P true e = record { at = λ s h. tt }
Triple-raise_if P false e = record { at = λ s h. (h, refl) }

pub Triple-true : {S A : Type 0} (P : S → Type 0) (m : Exec S A) → Triple P m (λ a s. Unit {0})
Triple-true P m = record { at = λ s h. OnOk-of (λ s. Unit {0}) (m s).0 (m s).1 tt }

-- A fact beside what holds of the object.
pub Triple-fact :
    {S A : Type 0} (P : S → Type 0) (F : Type 0) (m : Exec S A) (Q : A → S → Type 0)
    → (F → Triple P m Q)
    → Triple (λ s. P s × F) m Q
Triple-fact P F m Q k = record { at = λ s h. (k h.1).at s h.0 }

pub OnOk-weaken :
    {S A : Type 0} (Q R : A → S → Type 0) (r : Result A) (s : S)
    → ((a : A) (s : S) → Q a s → R a s)
    → OnOk Q r s
    → OnOk R r s
OnOk-weaken Q R (ok a) s k h = k a s h
OnOk-weaken Q R (err e) s k h = tt

pub Triple-weaken :
    {S A : Type 0} (P : S → Type 0) (m : Exec S A) (Q R : A → S → Type 0)
    → ((a : A) (s : S) → Q a s → R a s)
    → Triple P m Q
    → Triple P m R
Triple-weaken P m Q R k t = record { at = λ s h. OnOk-weaken Q R (m s).0 (m s).1 k (t.at s h) }

OnOk-both :
    {S A : Type 0} (Q R : A → S → Type 0) (r : Result A) (s : S)
    → OnOk Q r s
    → OnOk R r s
    → OnOk (λ a s. Q a s × R a s) r s
OnOk-both Q R (ok a) s h k = (h, k)
OnOk-both Q R (err e) s h k = tt

pub Triple-both :
    {S A : Type 0} (P : S → Type 0) (m : Exec S A) (Q R : A → S → Type 0)
    → Triple P m Q
    → Triple P m R
    → Triple P m (λ a s. Q a s × R a s)
Triple-both P m Q R tq tr = record {
  at = λ s h. OnOk-both Q R (m s).0 (m s).1 (tq.at s h) (tr.at s h);
}

-- What follows from what is ensured.
pub Ensures-map :
    {S A : Type 0} (P Q : Type 0) (m : Exec S A)
    → (P → Q)
    → Ensures (λ _ _. P) m
    → Ensures (λ _ _. Q) m
Ensures-map P Q m k e = record {
  at = λ s. OnOk-weaken (λ _ _. P) (λ _ _. Q) (m s).0 (m s).1 (λ _ _. k) (e.at s);
}
