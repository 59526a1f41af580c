-- ===== src/MemoryPool.antt =====
-- src/Utils/MemoryPool.h and MemoryPool.cpp: the pools, of one shape, and the cache of player names.
-- The pooled objects are an argument, with how one is made and how one is cleared.
pub mod Wrappers
pub mod Exchange
pub mod Ownership
pub mod Manager
use cpp_mmo.Base.{
  ℕ, zero, suc, ◌+◌, ◌≤◌, ◌≡◌, refl, sym, ap, ◌∙◌, inl, inr, Option, none, some, List, [], ◌∷◌,
  ◌++◌, arith, Bool-cases, Option-cases, ltb, leb, ◌==◌, ==_iff, if◌then◌else◌, length,
  length-append,
}
use cpp_mmo.Base.Dict.{Dict, find, store, find-store, length-store-le}
use cpp_mmo.Base.Text.{Text, player_name}

-- The objects of a pool: builders, or vectors.
pub record Pooled (T : Type 0) : Type 0 where
  pub create : T
  pub clear : T → T

pub record Pool (T : Type 0) : Type 0 where
  pub pool_size : ℕ
  pub available : List T

module _ {T : Type 0} (objects : Pooled T) where
  -- The loop of the constructor.
  unfoldable fill : ℕ → List T → List T
  fill zero available = available
  fill (suc n) available = fill n (available ++ objects.create ∷ [])

  unfoldable new_pool : ℕ → Pool T
  unfolding fill
  new_pool pool_size = record { pool_size = pool_size; available = fill pool_size [] }

  unfoldable pub acquire : Pool T → T × Pool T
  acquire p = elim p.available [
    | [] ↦ (objects.create, p)
    | x ∷ xs ↦ (objects.clear x, record p { available = xs })
  ]

  -- A null pointer is ignored.
  unfoldable pub release : Pool T → Option T → Pool T
  release p none = p
  release p (some x) =
      if ltb (length p.available) p.pool_size
      then record p { available = p.available ++ objects.clear x ∷ [] }
      else p

-- What users do with a pool.
pub data PoolCall (T : Type 0) : Type 0 where
  acquires : PoolCall T
  releases : Option T → PoolCall T

module _ {T : Type 0} (objects : Pooled T) where
  unfoldable pub call : Pool T → PoolCall T → Pool T
  unfolding acquire release
  call p acquires = (acquire objects p).1
  call p (releases x) = release objects p x

  abbrev pub calls : Pool T → List (PoolCall T) → Pool T
  calls p [] = p
  calls p (c ∷ cs) = calls (call p c) cs

  abbrev IsWithin : Pool T → ℕ → Type 0
  IsWithin p n = (p.pool_size ≡ n) × (length p.available ≤ n)

  acquire-IsWithin :
      (size : ℕ) (xs : List T) (n : ℕ)
      → size ≡ n
      → length xs ≤ n
      → IsWithin (acquire objects (record { pool_size = size; available = xs })).1 n
  unfolding acquire
  acquire-IsWithin size [] n e h = (e, h)
  acquire-IsWithin size (x ∷ xs) n e h = (e, omega arith)

  call-IsWithin : (p : Pool T) (c : PoolCall T) (n : ℕ) → IsWithin p n → IsWithin (call p c) n
  unfolding call acquire release
  call-IsWithin p acquires n (size, h) = acquire-IsWithin p.pool_size p.available n size h
  call-IsWithin p (releases none) n h = h
  call-IsWithin p (releases (some x)) n (size, h) =
      elim (Bool-cases (ltb (length p.available) p.pool_size)) [
        | inl room ↦
            simp room (size, ground (arith, length-append p.available (objects.clear x ∷ [])))
        | inr full ↦ simp full (size, h)
      ]

  length-fill : (n : ℕ) (xs : List T) → length (fill objects n xs) ≡ n + length xs
  unfolding fill
  length-fill zero xs = omega arith
  length-fill (suc n) xs =
      omega
        (arith, length-fill n (xs ++ objects.create ∷ []), length-append xs (objects.create ∷ []))

  calls-IsWithin :
      (p : Pool T) (cs : List (PoolCall T)) (n : ℕ) → IsWithin p n → IsWithin (calls p cs) n
  calls-IsWithin p [] n h = h
  calls-IsWithin p (c ∷ cs) n h = calls-IsWithin (call p c) cs n (call-IsWithin p c n h)

  -- Whatever is acquired and released, a pool keeps its size and never holds more objects than that.
  new_pool-IsWithin : (n : ℕ) (cs : List (PoolCall T)) → IsWithin (calls (new_pool objects n) cs) n
  unfolding new_pool
  new_pool-IsWithin n cs =
      calls-IsWithin (new_pool objects n) cs n (refl, omega (arith, length-fill n []))

abbrev pub max_cache_size : ℕ
max_cache_size = 10_000

unfoldable pub get_player_name : Dict Text → ℕ → Text × Dict Text
get_player_name names id = elim (find id names) [
  | none ↦
      if ltb (length names) max_cache_size
      then (player_name id, store id (player_name id) names)
      else (player_name id, names)
  | some name ↦ (name, names)
]

-- The loop of `PrewarmCache` from `i` on, `n` times.
unfoldable prewarm_from : ℕ → ℕ → Dict Text → Dict Text
prewarm_from zero i names = names
prewarm_from (suc n) i names = prewarm_from n (i + 1) (store i (player_name i) names)

unfoldable prewarm_cache : Dict Text → ℕ → Dict Text
unfolding prewarm_from
prewarm_cache names max_players =
    prewarm_from (if leb max_players max_cache_size then max_players else max_cache_size) 1 names

-- Every name in the cache is its player's.
abbrev pub IsNamed : Dict Text → Type 0
IsNamed names = (id : ℕ) (name : Text) → find id names ≡ some name → name ≡ player_name id

store-IsNamed :
    (id : ℕ) (names : Dict Text) → IsNamed names → IsNamed (store id (player_name id) names)
store-IsNamed id names h q name e = elim (Bool-cases (q == id)) [
  | inl same ↦
      let e' : some (player_name id) ≡ some name =
        rw (find-store id q (player_name id) names, same) at e in
      let e'' : player_name id ≡ name = cc in sym e'' ∙ ap player_name (sym ((==_iff q id).0 same))
  | inr other ↦ h q name (rw (find-store id q (player_name id) names, other) at e)
]

prewarm_from-IsNamed :
    (n i : ℕ) (names : Dict Text) → IsNamed names → IsNamed (prewarm_from n i names)
unfolding prewarm_from
prewarm_from-IsNamed zero i names h = h
prewarm_from-IsNamed (suc n) i names h = prewarm_from-IsNamed n (i + 1) _ (store-IsNamed i names h)

-- Warming the cache, for however many players, leaves every name in it its player's.
prewarm_cache-IsNamed :
    (names : Dict Text) (n : ℕ) → IsNamed names → IsNamed (prewarm_cache names n)
unfolding prewarm_cache
prewarm_cache-IsNamed names n h =
    prewarm_from-IsNamed (if leb n max_cache_size then n else max_cache_size) 1 names h

-- `GetPlayerName` gives `Player_` and the id, cached or not, and a cache that is right and within
-- its bound stays so.
pub get_player_name_lem :
    (names : Dict Text) (id : ℕ)
    → IsNamed names
    → length names ≤ max_cache_size
    → ((get_player_name names id).0 ≡ player_name id)
      × IsNamed (get_player_name names id).1
      × (length (get_player_name names id).1 ≤ max_cache_size)
unfolding get_player_name
get_player_name_lem names id h bounded = elim (Option-cases (find id names)) [
  | inl missing ↦ elim (Bool-cases (ltb (length names) max_cache_size)) [
    | inl room ↦
        rw (missing, get_player_name)
          (simp room (
            refl,
            store-IsNamed id names h,
            ground (arith, length-store-le id (player_name id) names),
          ))
    | inr full ↦ rw (missing, get_player_name) (simp full (refl, h, bounded))
  ]
  | inr (name, there) ↦ rw (there, get_player_name) (h id name there, h, bounded)
]
