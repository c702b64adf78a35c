-- ===== src/Dataset/Chunks.antt =====
-- The chunks of a part make up its size.
use k8s_dr.Prelude.{
  ℕ, zero, suc, ◌+◌, ◌-◌, ◌≤◌, ◌<◌, ◌≡◌, List, [], ◌∷◌, All, leb, arith, Bool-cases, inl, inr,
}
use k8s_dr.Dataset.{chunk_size, smaller, chunk_sizes}

abbrev pub total : List ℕ → ℕ
total [] = 0
total (n ∷ ns) = n + total ns

smaller-bounds :
    (n : ℕ)
    → 0 < n
    → (0 < smaller chunk_size n) × (smaller chunk_size n ≤ chunk_size) × (smaller chunk_size n ≤ n)
unfolding smaller
smaller-bounds n h = elim (Bool-cases (leb chunk_size n)) [
  | inl e ↦ rw e (omega arith, omega arith, ground arith)
  | inr e ↦ rw e (h, ground arith, omega arith)
]

-- With as many rounds as bytes are left, and one more, the chunks hold exactly the bytes that are left, and each holds
-- at least one and at most CHUNK.
pub chunk_sizes-total :
    (fuel left : ℕ)
    → left < fuel
    → (total (chunk_sizes fuel left) ≡ left)
      × All (λ n. (0 < n) × (n ≤ chunk_size)) (chunk_sizes fuel left)
unfolding chunk_sizes
chunk_sizes-total zero left h = absurd (omega arith)
chunk_sizes-total (suc fuel) zero h = (omega arith, tt)
chunk_sizes-total (suc fuel) (suc left) h =
    let (some_bytes, at_most, within) = smaller-bounds (suc left) (omega arith) in
    let later = chunk_sizes-total fuel (suc left - smaller chunk_size (suc left)) (omega arith) in
    let sum = later.0 in (omega arith, ((some_bytes, at_most), later.1))
