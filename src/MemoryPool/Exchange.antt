-- ===== src/MemoryPool/Exchange.antt =====
-- Theorems on what a pool has after an object was taken from it or given back.
use cpp_mmo.Base.{
  ℕ, zero, suc, ◌+◌, ◌≤◌, ◌<◌, ◌≡◌, refl, ◌⊎◌, inl, inr, true, Option, none, some, List, [], ◌∷◌,
  arith, Bool-cases, ltb, ◌==◌, length, length-append, to_nat, count, count_one, count-append,
}
use cpp_mmo.MemoryPool.{Pool, acquire, release}
use cpp_mmo.MemoryPool.Wrappers.{Wrapper, numbered, give_back, numbers}

abbrev pub is_object : ℕ → Option ℕ → ℕ
is_object q none = 0
is_object q (some x) = to_nat (q == x)

abbrev pub is_held : Option ℕ → ℕ
is_held none = 0
is_held (some x) = 1

-- A wrapper with an object knows the pool.
abbrev pub HasPool : Wrapper → Type 0
HasPool w = (w.has_pool ≡ true) ⊎ (w.object ≡ none)

-- The pool after it got an object back, or dropped it because it is full.
abbrev Returned : Pool ℕ → Option ℕ → Pool ℕ → Type 0
Returned p x p' =
    (p'.pool_size ≡ p.pool_size)
    × (length p'.available ≤ p.pool_size)
    × ((q : ℕ) → count q p'.available ≤ count q p.available + is_object q x)
    × ((length p'.available ≡ length p.available + is_held x) ⊎ (length p'.available ≡ p.pool_size))

release-Returned :
    (p : Pool ℕ) (x : Option ℕ)
    → length p.available ≤ p.pool_size
    → Returned p x (release (numbered 0) p x)
unfolding release
release-Returned p none h = (refl, h, (λ q. omega arith), inl (omega arith))
release-Returned p (some x) h = elim (Bool-cases (ltb (length p.available) p.pool_size)) [
  | inl room ↦
      let longer = length-append p.available (x ∷ []) in
      simp room (
        refl,
        ground arith,
        (λ q. omega (arith, count-append q p.available (x ∷ []), count_one q x)),
        inl (omega arith),
      )
  | inr full ↦ simp full (refl, h, (λ q. omega arith), inr (ground arith))
]

pub give_back-Returned :
    (p : Pool ℕ) (w : Wrapper)
    → HasPool w
    → length p.available ≤ p.pool_size
    → Returned p w.object (give_back p w)
unfolding give_back
give_back-Returned p w (inl set_pool) h = simp set_pool (release-Returned p w.object h)
give_back-Returned p w (inr empty) h = elim (Bool-cases w.has_pool) [
  | inl set_pool ↦ simp set_pool (release-Returned p w.object h)
  | inr null ↦ simp (null, empty) (refl, h, (λ q. omega arith), inl (omega arith))
]

-- The pool after an object was taken from it, or made.
abbrev Taken : Pool ℕ → ℕ → ℕ × Pool ℕ → Type 0
Taken p next (x, p') =
    (p'.pool_size ≡ p.pool_size)
    × (length p'.available ≤ length p.available)
    × ((q : ℕ) → count q p'.available + to_nat (q == x) ≤ count q p.available + to_nat (q == next))
    × (length p.available ≤ length p'.available + 1)

pub acquire-Taken :
    (size next : ℕ) (xs : List ℕ)
    → Taken
        (record { pool_size = size; available = xs })
        next
        (acquire (numbered next) (record { pool_size = size; available = xs }))
unfolding acquire count
acquire-Taken size next [] = (refl, omega arith, (λ q. omega arith), omega arith)
acquire-Taken size next (x ∷ xs) = (refl, omega arith, (λ q. omega arith), omega arith)

pub length-numbers : (i n : ℕ) → length (numbers i n) ≡ n
unfolding numbers
length-numbers i zero = refl
length-numbers i (suc n) = omega (arith, length-numbers (suc i) n)

pub count-numbers :
    (q i n : ℕ)
    → count q (numbers i n) ≤ 1
      × (q < i → count q (numbers i n) ≡ 0)
      × (i + n ≤ q → count q (numbers i n) ≡ 0)
unfolding numbers count
count-numbers q i zero = (omega arith, (λ h. refl), (λ h. refl))
count-numbers q i (suc n) = ground (arith, count-numbers q (suc i) n)
