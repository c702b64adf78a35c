-- ===== src/Prelude/Effects.antt =====
-- Exceptions as values, and methods that change an object and may raise. What was written before a
-- raise stays written, so the state comes back beside the error.
use mathlib.Core.Bool.{Bool, true, false}
use mathlib.Core.List.{List, [], ◌∷◌}
use Prim.Native.String.{String}

-- The exception classes that the scripts raise and catch, each with its text. `out_of_fuel` marks
-- a loop of the model that was given too little fuel; no handler catches it.
pub data Error : Type 0 where
  stage_failed no_start drill_failed failed value_error key_error os_error runtime_error :
      String → Error
  out_of_fuel : Error

abbrev pub message : Error → String
message (stage_failed m) = m
message (no_start m) = m
message (drill_failed m) = m
message (failed m) = m
message (value_error m) = m
message (key_error m) = m
message (os_error m) = m
message (runtime_error m) = m
message out_of_fuel = ""

pub data Result {ℓ} (A : Type ℓ) : Type ℓ where
  ok : A → Result A
  err : Error → Result A

abbrev pub Exec {ℓ} : Type ℓ → Type ℓ → Type ℓ
Exec S A = S → Result A × S

module _ {ℓ} {S A : Type ℓ} where
  unfoldable pub pure : A → Exec S A
  pure a s = (ok a, s)

  unfoldable pub raise : Error → Exec S A
  raise e s = (err e, s)

  unfoldable pub lift : Result A → Exec S A
  lift r s = (r, s)

  -- Reads the object, and may raise.
  unfoldable pub ask : (S → Result A) → Exec S A
  ask f s = (f s, s)

module _ {ℓ} {S : Type ℓ} where
  unfoldable pub modify : (S → S) → Exec S (Unit {ℓ})
  modify f s = (ok tt, f s)

  -- `if b: raise e`.
  unfoldable pub raise_if : Bool → Error → Exec S (Unit {ℓ})
  raise_if true e s = (err e, s)
  raise_if false e s = (ok tt, s)

module _ {ℓ} {S A B : Type ℓ} where
  abbrev pub continue : Result A → (A → Exec S B) → Exec S B
  continue (ok a) f s = f a s
  continue (err e) f s = (err e, s)

  infixl 5 ◌>>=◌ ◌>>◌
  -- Opening this opens the actions above too.
  unfoldable pub ◌>>=◌ : Exec S A → (A → Exec S B) → Exec S B
  unfolding pure raise lift ask modify raise_if
  ◌>>=◌ m f s = let (r, s') = m s in continue r f s'

  abbrev pub ◌>>◌ : Exec S A → Exec S B → Exec S B
  m >> n = m >>= λ _. n

module _ {ℓ} {S A : Type ℓ} where
  abbrev pub handle : Result A → (Error → Exec S A) → Exec S A
  handle (ok a) handler s = (ok a, s)
  handle (err e) handler s = handler e s

  -- `try: m except … : handler`; the handler sees each error and may raise it again.
  unfoldable pub catching : Exec S A → (Error → Exec S A) → Exec S A
  catching m handler s = let (r, s') = m s in handle r handler s'

-- A `for` loop whose body only acts.
unfoldable pub for_each {ℓ} : {S A : Type ℓ} → (A → Exec S (Unit {ℓ})) → List A → Exec S (Unit {ℓ})
for_each f [] = pure tt
for_each f (x ∷ xs) = f x >>= λ _. for_each f xs

-- The type of a method that returns nothing.
abbrev pub Done : Type 0
Done = Unit {0}
