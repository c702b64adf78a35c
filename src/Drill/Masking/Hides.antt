-- ===== src/Drill/Masking/Hides.antt =====
-- What `masked` of scripts/drill.py hides.
use mathlib.Core.List.{Memᴰ}
use mathlib.Core.List.Memᴰ
use k8s_dr.Prelude.{
  ℕ, zero, suc, ◌-◌, Char, ==_iff, ◌≡◌, refl, sym, ap, ◌∙◌, subst, code, String, true, false, ◌==◌,
  Option, none, some, List, [], ◌∷◌, arith, Bool-cases, inl, inr, ◌⊎◌,
}
use k8s_dr.Text.{◌<>◌, empty, after_prefix, contains, contains_char}
use k8s_dr.Watchdog.{env_get}
use k8s_dr.Drill.Masking.{text_length, starts, stars_from, mask_one, mask_all, masked_names, masked}

-- A text that can be found again behind a mask only where it stood: no star, and not empty.
abbrev pub NoStar : String → Type 0
NoStar t = (contains_char (λ c. c == 42) t ≡ false) × (empty t ≡ false)

pub starts-cons :
    (c d : Char) (v s : String)
    → starts (String.◌∷◌ c v) (String.◌∷◌ d s) ≡ true
    → (code c ≡ code d) × (starts v s ≡ true)
unfolding after_prefix
starts-cons c d v s h = elim (Bool-cases (code c == code d)) [
  | inl e ↦ ((==_iff _ _).0 e, ground arith)
  | inr e ↦ absurd (ground arith)
]

pub starts-cons_of :
    (c d : Char) (v s : String)
    → code c ≡ code d
    → starts v s ≡ true
    → starts (String.◌∷◌ c v) (String.◌∷◌ d s) ≡ true
unfolding after_prefix
starts-cons_of c d v s e h = let k = (==_iff (code c) (code d)).1 e in ground arith

module _ (w : String) (c : Char) (s : String) where
  stars_from_hit :
      starts w (String.◌∷◌ c s) ≡ true
      → stars_from w 0 (String.◌∷◌ c s) ≡ "***" <> stars_from w (text_length w - 1) s
  unfolding stars_from
  stars_from_hit h = rw h

  stars_from_miss :
      starts w (String.◌∷◌ c s) ≡ false
      → stars_from w 0 (String.◌∷◌ c s) ≡ String.◌∷◌ c (stars_from w 0 s)
  unfolding stars_from
  stars_from_miss h = rw h

-- Nothing without a star starts at a star.
starts_star :
    (c : Char) (v t : String)
    → contains_char (λ k. k == 42) (String.◌∷◌ c v) ≡ false
    → starts (String.◌∷◌ c v) (String.◌∷◌ "*" t) ≡ false
unfolding after_prefix contains_char
starts_star c v t n = ground arith

-- What starts the masked text starts the text.
starts-stars_from :
    (w v s : String)
    → contains_char (λ c. c == 42) v ≡ false
    → starts v (stars_from w 0 s) ≡ true
    → starts v s ≡ true
unfolding contains_char
starts-stars_from w String.[] s n h = unfold after_prefix in refl
starts-stars_from w (String.◌∷◌ c v) String.[] n h = unfold stars_from in h
starts-stars_from w (String.◌∷◌ c v) (String.◌∷◌ d s) n h =
    elim (Bool-cases (starts w (String.◌∷◌ d s))) [
      | inl hit ↦
          let k : starts (String.◌∷◌ c v) ("***" <> stars_from w (text_length w - 1) s) ≡ true =
            rw (← stars_from_hit w d s hit) h in
          let l = starts_star c v (unfold ◌<>◌ in "**" <> stars_from w (text_length w - 1) s) n in
          absurd (unfold ◌<>◌ in ground arith)
      | inr miss ↦
          let k = starts-cons c d v (stars_from w 0 s) (rw (← stars_from_miss w d s miss) h) in
          starts-cons_of c d v s k.0 (starts-stars_from w v s (ground arith) k.1)
    ]

pub contains-cons :
    (v : String) (c : Char) (s : String)
    → contains v (String.◌∷◌ c s) ≡ true
    → (starts v (String.◌∷◌ c s) ≡ true) ⊎ (contains v s ≡ true)
unfolding contains
contains-cons v c s h = elim (Bool-cases (starts v (String.◌∷◌ c s))) [
  | inl e ↦ inl e
  | inr e ↦ inr (ground arith)
]

pub contains_of_starts :
    (v : String) (c : Char) (s : String)
    → starts v (String.◌∷◌ c s) ≡ true
    → contains v (String.◌∷◌ c s) ≡ true
unfolding contains
contains_of_starts v c s h = ground arith

pub contains_of_tail :
    (v : String) (c : Char) (s : String) → contains v s ≡ true → contains v (String.◌∷◌ c s) ≡ true
unfolding contains
contains_of_tail v c s h = ground arith

-- What stands in a text behind a star, and has none, stands behind the star.
contains_behind_star :
    (v t : String) → NoStar v → contains v (String.◌∷◌ "*" t) ≡ true → contains v t ≡ true
contains_behind_star String.[] t n h = absurd (let k = n.1 in ground arith)
contains_behind_star (String.◌∷◌ c v) t n h = elim (contains-cons (String.◌∷◌ c v) "*" t h) [
  | inl e ↦ absurd (let k = starts_star c v t n.0 in ground arith)
  | inr e ↦ e
]

contains_behind_stars :
    (v t : String) → NoStar v → contains v ("***" <> t) ≡ true → contains v t ≡ true
unfolding ◌<>◌
contains_behind_stars v t n h =
    let one = String.◌∷◌ "*" t in
    let two = String.◌∷◌ "*" one in
    contains_behind_star v t n (contains_behind_star v one n (contains_behind_star v two n h))

-- A masked text holds nothing without a star that the text does not hold.
contains-stars_from :
    (w v : String) (k : ℕ) (s : String)
    → NoStar v
    → contains v (stars_from w k s) ≡ true
    → contains v s ≡ true
contains-stars_from w v zero String.[] n h = unfold stars_from in h
contains-stars_from w v (suc k) String.[] n h = unfold stars_from in h
contains-stars_from w v (suc k) (String.◌∷◌ c s) n h =
    contains_of_tail v c s (contains-stars_from w v k s n (unfold stars_from in h))
contains-stars_from w v zero (String.◌∷◌ c s) n h = elim (Bool-cases (starts w (String.◌∷◌ c s))) [
  | inl hit ↦ contains_of_tail v c s (
      contains-stars_from w v (text_length w - 1) s n
        (contains_behind_stars v _ n (rw (← stars_from_hit w c s hit) h)))
  | inr miss ↦ elim (contains-cons v c (stars_from w 0 s) (rw (← stars_from_miss w c s miss) h)) [
    | inl e ↦
        contains_of_starts v c s
          (starts-stars_from w v (String.◌∷◌ c s) n.0 (rw (stars_from_miss w c s miss) e))
    | inr e ↦ contains_of_tail v c s (contains-stars_from w v zero s n e)
  ]
]

-- The masked value itself is gone.
stars_from-gone :
    (w : String) (k : ℕ) (s : String) → NoStar w → contains w (stars_from w k s) ≡ true → ⊥
stars_from-gone w zero String.[] n h = let e = n.1 in unfold stars_from contains in ground arith
stars_from-gone w (suc k) String.[] n h = let e = n.1 in unfold stars_from contains in ground arith
stars_from-gone w (suc k) (String.◌∷◌ c s) n h = stars_from-gone w k s n (unfold stars_from in h)
stars_from-gone w zero (String.◌∷◌ c s) n h = elim (Bool-cases (starts w (String.◌∷◌ c s))) [
  | inl hit ↦
      stars_from-gone w (text_length w - 1) s n
        (contains_behind_stars w _ n (rw (← stars_from_hit w c s hit) h))
  | inr miss ↦ elim (contains-cons w c (stars_from w 0 s) (rw (← stars_from_miss w c s miss) h)) [
    | inl e ↦ absurd (
        let k = starts-stars_from w w (String.◌∷◌ c s) n.0 (rw (stars_from_miss w c s miss) e) in
        ground arith)
    | inr e ↦ stars_from-gone w zero s n e
  ]
]

mask_one-keeps :
    (value : Option String) (v text : String)
    → NoStar v
    → contains v (mask_one value text) ≡ true
    → contains v text ≡ true
mask_one-keeps none v text n h = h
mask_one-keeps (some w) v text n h = elim (Bool-cases (empty w)) [
  | inl e ↦ rw e at h
  | inr e ↦ contains-stars_from w v 0 text n (rw e at h)
]

mask_all-keeps :
    (environ : List (String × String)) (names : List String) (v text : String)
    → NoStar v
    → contains v (mask_all environ names text) ≡ true
    → contains v text ≡ true
unfolding mask_all
mask_all-keeps environ [] v text n h = h
mask_all-keeps environ (name ∷ names) v text n h =
    mask_one-keeps (env_get name environ) v text n (mask_all-keeps environ names v _ n h)

mask_all-gone :
    (environ : List (String × String)) (names : List String) (name value text : String)
    → Memᴰ name names
    → env_get name environ ≡ some value
    → NoStar value
    → contains value (mask_all environ names text) ≡ true
    → ⊥
unfolding mask_all
mask_all-gone environ [] name value text m e n h = Memᴰ.not-nil m
mask_all-gone environ (x ∷ names) name value text (Memᴰ.tail m) e n h =
    mask_all-gone environ names name value _ m e n h
mask_all-gone environ (x ∷ names) name value text (Memᴰ.head p) e n h =
    let q : env_get x environ ≡ some value = ap (λ y. env_get y environ) (sym p) ∙ e in
    let k = mask_all-keeps environ names value (mask_one (env_get x environ) text) n h in
    let l : contains value (mask_one (some value) text) ≡ true =
      subst (λ o. contains value (mask_one o text) ≡ true) q k in
    let g = n.1 in stars_from-gone value 0 text n (rw g at l)

-- A masked text never holds the value of a masked variable, if the value is not empty and has
-- no star.
pub masked-hides :
    (environ : List (String × String)) (name value text : String)
    → Memᴰ name masked_names
    → env_get name environ ≡ some value
    → NoStar value
    → contains value (masked environ text) ≡ false
unfolding masked
masked-hides environ name value text m e n =
    elim (Bool-cases (contains value (mask_all environ masked_names text))) [
      | inl h ↦ absurd (mask_all-gone environ masked_names name value text m e n h)
      | inr h ↦ h
    ]
