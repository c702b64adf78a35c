-- ===== src/Sorting.antt =====
-- `sorted(items, key=…)`: stable insertion, and what it returns.
use mathlib.Core.List.{Perm, Memᴰ}
use mathlib.Core.List.Memᴰ
use k8s_dr.Prelude.Members.{All-mem}
use mathlib.Core.List.Perm
use k8s_dr.Prelude.{
  ℕ, ◌≤◌, ◌≡◌, refl, Bool, List, [], ◌∷◌, All, keep, last?, leb, arith, sym, ◌∙◌, some, ◌⊎◌,
  if◌then◌else◌, Bool-cases, inl, inr,
}

module _ {ℓ} {A : Type ℓ} (key : A → ℕ) where
  unfoldable pub insert_by : A → List A → List A
  insert_by a [] = a ∷ []
  insert_by a (x ∷ xs) =
      let rest = insert_by a xs in if leb (key a) (key x) then a ∷ x ∷ xs else x ∷ rest

  unfoldable pub sort_by : List A → List A
  unfolding insert_by
  sort_by [] = []
  sort_by (x ∷ xs) = insert_by x (sort_by xs)

  -- Every later element has a key that is no smaller.
  abbrev pub IsSorted : List A → Type 0
  IsSorted [] = Unit
  IsSorted (x ∷ xs) = All (λ y. key x ≤ key y) xs × IsSorted xs

  insert_by-All :
      (n : ℕ) (a : A) (xs : List A)
      → n ≤ key a
      → All (λ y. n ≤ key y) xs
      → All (λ y. n ≤ key y) (insert_by a xs)
  unfolding insert_by
  insert_by-All n a [] h hs = (h, tt)
  insert_by-All n a (x ∷ xs) h hs = ground (arith, insert_by-All n a xs)

  All-le : (n m : ℕ) (xs : List A) → n ≤ m → All (λ y. m ≤ key y) xs → All (λ y. n ≤ key y) xs
  All-le n m [] h hs = tt
  All-le n m (x ∷ xs) h hs = (omega (arith, hs.0), All-le n m xs h hs.1)

  insert_by-IsSorted : (a : A) (xs : List A) → IsSorted xs → IsSorted (insert_by a xs)
  unfolding insert_by
  insert_by-IsSorted a [] s = (tt, tt)
  insert_by-IsSorted a (x ∷ xs) s = elim (Bool-cases (leb (key a) (key x))) [
    | inl h ↦ rw h ((ground arith, All-le (key a) (key x) xs (ground arith) s.0), s)
    | inr h ↦ rw h (insert_by-All (key x) a xs (ground arith) s.0, insert_by-IsSorted a xs s.1)
  ]

  -- The result of sorting is sorted.
  pub sort_by-IsSorted : (xs : List A) → IsSorted (sort_by xs)
  unfolding sort_by
  sort_by-IsSorted [] = tt
  sort_by-IsSorted (x ∷ xs) = insert_by-IsSorted x (sort_by xs) (sort_by-IsSorted xs)

  insert_by-perm : (a : A) (xs : List A) → Perm (insert_by a xs) (a ∷ xs)
  unfolding insert_by
  insert_by-perm a [] = Perm.refl (a ∷ [])
  insert_by-perm a (x ∷ xs) = elim (Bool-cases (leb (key a) (key x))) [
    | inl h ↦ rw h (Perm.refl (a ∷ x ∷ xs))
    | inr h ↦ rw h (Perm.trans (Perm.cons x (insert_by-perm a xs)) (Perm.swap a x xs))
  ]

  -- Sorting neither loses nor invents an element.
  pub sort_by-perm : (xs : List A) → Perm (sort_by xs) xs
  unfolding sort_by
  sort_by-perm [] = Perm.refl []
  sort_by-perm (x ∷ xs) = Perm.trans (insert_by-perm x (sort_by xs)) (Perm.cons x (sort_by-perm xs))

  insert_by-self : (a : A) (xs : List A) → Memᴰ a (insert_by a xs)
  unfolding insert_by
  insert_by-self a [] = Memᴰ.head refl
  insert_by-self a (x ∷ xs) = elim (Bool-cases (leb (key a) (key x))) [
    | inl h ↦ rw h (Memᴰ.head refl)
    | inr h ↦ rw h (Memᴰ.tail (insert_by-self a xs))
  ]

  insert_by-old : (b a : A) (xs : List A) → Memᴰ b xs → Memᴰ b (insert_by a xs)
  unfolding insert_by
  insert_by-old b a [] m = absurd (Memᴰ.not-nil m)
  insert_by-old b a (x ∷ xs) (Memᴰ.head e) = elim (Bool-cases (leb (key a) (key x))) [
    | inl h ↦ rw h (Memᴰ.tail (Memᴰ.head e))
    | inr h ↦ rw h (Memᴰ.head e)
  ]
  insert_by-old b a (x ∷ xs) (Memᴰ.tail m) = elim (Bool-cases (leb (key a) (key x))) [
    | inl h ↦ rw h (Memᴰ.tail (Memᴰ.tail m))
    | inr h ↦ rw h (Memᴰ.tail (insert_by-old b a xs m))
  ]

  mem-cons_cases : (b x : A) (ys : List A) → Memᴰ b (x ∷ ys) → (b ≡ x) ⊎ Memᴰ b ys
  mem-cons_cases b x ys (Memᴰ.head e) = inl e
  mem-cons_cases b x ys (Memᴰ.tail m) = inr m

  insert_by-mem : (b a : A) (xs : List A) → Memᴰ b (insert_by a xs) → (b ≡ a) ⊎ Memᴰ b xs
  unfolding insert_by
  insert_by-mem b a [] m = mem-cons_cases b a [] m
  insert_by-mem b a (x ∷ xs) m = elim (Bool-cases (leb (key a) (key x))) [
    | inl h ↦ mem-cons_cases b a (x ∷ xs) (rw h at m)
    | inr h ↦ elim (mem-cons_cases b x (insert_by a xs) (rw h at m)) [
      | inl e ↦ inr (Memᴰ.head e)
      | inr k ↦ elim (insert_by-mem b a xs k) [ inl e ↦ inl e | inr l ↦ inr (Memᴰ.tail l) ]
    ]
  ]

  pub sort_by-mem_of : (b : A) (xs : List A) → Memᴰ b xs → Memᴰ b (sort_by xs)
  unfolding sort_by
  sort_by-mem_of b [] m = absurd (Memᴰ.not-nil m)
  sort_by-mem_of b (x ∷ xs) (Memᴰ.head e) = rw e (insert_by-self x (sort_by xs))
  sort_by-mem_of b (x ∷ xs) (Memᴰ.tail m) = insert_by-old b x (sort_by xs) (sort_by-mem_of b xs m)

  pub sort_by-mem : (b : A) (xs : List A) → Memᴰ b (sort_by xs) → Memᴰ b xs
  unfolding sort_by
  sort_by-mem b [] m = m
  sort_by-mem b (x ∷ xs) m = elim (insert_by-mem b x (sort_by xs) m) [
    | inl e ↦ Memᴰ.head e
    | inr k ↦ Memᴰ.tail (sort_by-mem b xs k)
  ]

  pub last?-mem : (l : A) (xs : List A) → last? xs ≡ some l → Memᴰ l xs
  last?-mem l [] h = cc
  last?-mem l (x ∷ []) h = let q : x ≡ l = ground arith in Memᴰ.head (sym q)
  last?-mem l (x ∷ y ∷ xs) h = Memᴰ.tail (last?-mem l (y ∷ xs) h)

  -- The last element of a sorted list has the largest key.
  pub last?-max :
      (a l : A) (xs : List A) → IsSorted xs → last? xs ≡ some l → Memᴰ a xs → key a ≤ key l
  last?-max a l [] s h m = absurd (Memᴰ.not-nil m)
  last?-max a l (x ∷ []) s h (Memᴰ.head e) =
      let q : x ≡ l = ground arith in rw (e ∙ q) (omega arith)
  last?-max a l (x ∷ []) s h (Memᴰ.tail m) = absurd (Memᴰ.not-nil m)
  last?-max a l (x ∷ y ∷ xs) s h (Memᴰ.head e) =
      rw e (All-mem (λ z. key x ≤ key z) l (y ∷ xs) s.0 (last?-mem l (y ∷ xs) h))
  last?-max a l (x ∷ y ∷ xs) s h (Memᴰ.tail m) = last?-max a l (y ∷ xs) s.1 h m

  All-keep : (P : A → Type 0) (p : A → Bool) (xs : List A) → All P xs → All P (keep p xs)
  All-keep P p [] h = tt
  All-keep P p (x ∷ xs) h = elim (Bool-cases (p x)) [
    | inl e ↦ rw e (h.0, All-keep P p xs h.1)
    | inr e ↦ rw e (All-keep P p xs h.1)
  ]

  pub keep-IsSorted : (p : A → Bool) (xs : List A) → IsSorted xs → IsSorted (keep p xs)
  keep-IsSorted p [] s = tt
  keep-IsSorted p (x ∷ xs) s = elim (Bool-cases (p x)) [
    | inl e ↦ rw e (All-keep (λ y. key x ≤ key y) p xs s.0, keep-IsSorted p xs s.1)
    | inr e ↦ rw e (keep-IsSorted p xs s.1)
  ]

  -- The first element of a sorted list has the smallest key.
  pub head-min : (a x : A) (xs : List A) → IsSorted (x ∷ xs) → Memᴰ a (x ∷ xs) → key x ≤ key a
  head-min a x xs s (Memᴰ.head e) = rw e (omega arith)
  head-min a x xs s (Memᴰ.tail m) = All-mem (λ y. key x ≤ key y) a xs s.0 m
