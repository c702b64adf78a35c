-- ===== src/Prelude/Members.antt =====
-- Membership in the lists that `keep` and `first` select.
use mathlib.Core.Path.{◌≡◌, refl, sym, ap, ◌∙◌, subst}
use mathlib.Core.Logic.{◌⊎◌, inl, inr}
use mathlib.Core.Bool.{Bool, true, false}
use mathlib.Core.Option.{some}
use mathlib.Core.List.{List, [], ◌∷◌, Memᴰ}
use mathlib.Core.List.Memᴰ
use native.Mathlib.Omega.{arith}
use k8s_dr.Prelude.Tests.{if◌then◌else◌, Bool-cases}
use k8s_dr.Prelude.Lists.{keep, any, first, All}

module _ {ℓ} {A : Type ℓ} (p : A → Bool) where
  mem-if :
      (a x : A) (rest : List A) (b : Bool)
      → p x ≡ b
      → Memᴰ a (if b then x ∷ rest else rest)
      → (Memᴰ a (x ∷ []) × (p a ≡ true)) ⊎ Memᴰ a rest
  mem-if a x rest true e (Memᴰ.head h) = inl (Memᴰ.head h, ap p h ∙ e)
  mem-if a x rest true e (Memᴰ.tail m) = inr m
  mem-if a x rest false e m = inr m

  mem_single : (a x : A) (xs : List A) → Memᴰ a (x ∷ []) → Memᴰ a (x ∷ xs)
  mem_single a x xs (Memᴰ.head h) = Memᴰ.head h
  mem_single a x xs (Memᴰ.tail m) = absurd (Memᴰ.not-nil m)

  pub mem-keep : (a : A) (xs : List A) → Memᴰ a (keep p xs) → Memᴰ a xs × (p a ≡ true)
  mem-keep a [] m = absurd (Memᴰ.not-nil m)
  mem-keep a (x ∷ xs) m = elim (mem-if a x (keep p xs) (p x) refl m) [
    | inl here ↦ (mem_single a x xs here.0, here.1)
    | inr later ↦ let (m', h) = mem-keep a xs later in (Memᴰ.tail m', h)
  ]

  pub mem-keep_of : (a : A) (xs : List A) → Memᴰ a xs → p a ≡ true → Memᴰ a (keep p xs)
  mem-keep_of a [] m h = absurd (Memᴰ.not-nil m)
  mem-keep_of a (x ∷ xs) (Memᴰ.head e) h = rw (ap p (sym e) ∙ h) (Memᴰ.head e)
  mem-keep_of a (x ∷ xs) (Memᴰ.tail m) h = elim (Bool-cases (p x)) [
    | inl kept ↦ rw kept (Memᴰ.tail (mem-keep_of a xs m h))
    | inr dropped ↦ rw dropped (mem-keep_of a xs m h)
  ]

  pub first-mem : (a : A) (xs : List A) → first p xs ≡ some a → Memᴰ a xs × (p a ≡ true)
  first-mem a [] h = cc
  first-mem a (x ∷ xs) h = elim (Bool-cases (p x)) [
    | inl e ↦ let q : x ≡ a = ground arith in (Memᴰ.head (sym q), ap p (sym q) ∙ e)
    | inr e ↦ let (m, h') = first-mem a xs (ground arith) in (Memᴰ.tail m, h')
  ]

pub All-mem {ℓ} : {A : Type ℓ} (P : A → Type 0) (a : A) (xs : List A) → All P xs → Memᴰ a xs → P a
All-mem P a [] h m = absurd (Memᴰ.not-nil m)
All-mem P a (x ∷ xs) h (Memᴰ.head e) = subst P (sym e) h.0
All-mem P a (x ∷ xs) h (Memᴰ.tail m) = All-mem P a xs h.1 m

-- A test that some element passes fails on every element when it fails.
pub any-false {ℓ} :
    {A : Type ℓ} (p : A → Bool) (a : A) (xs : List A) → any p xs ≡ false → Memᴰ a xs → p a ≡ false
any-false p a [] h m = absurd (Memᴰ.not-nil m)
any-false p a (x ∷ xs) h (Memᴰ.head e) = ap p e ∙ ground arith
any-false p a (x ∷ xs) h (Memᴰ.tail m) = any-false p a xs (ground arith) m

pub any-false_of {ℓ} :
    {A : Type ℓ} (p : A → Bool) (xs : List A)
    → ((a : A) → Memᴰ a xs → p a ≡ false)
    → any p xs ≡ false
any-false_of p [] h = refl
any-false_of p (x ∷ xs) h = rw (h x (Memᴰ.head refl)) (any-false_of p xs (λ a m. h a (Memᴰ.tail m)))
