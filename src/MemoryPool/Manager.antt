-- ===== src/MemoryPool/Manager.antt =====
-- `MemoryPoolManager` of src/Utils/MemoryPool.h and MemoryPool.cpp: the pools and the cache of player
-- names that the whole server shares.
use cpp_mmo.Base.{
  ℕ, zero, suc, ◌+◌, ◌≤◌, ◌≡◌, Option, none, some, List, [], ◌∷◌, arith, leb, if◌then◌else◌, length,
}
use cpp_mmo.Base.Dict.{Dict, find, store, length-store-le}
use cpp_mmo.Base.Text.{Text, player_name}
use cpp_mmo.MemoryPool.{
  Pooled, Pool, PoolCall, call, new_pool, IsWithin, new_pool-IsWithin, call-IsWithin,
  max_cache_size, get_player_name, prewarm_from, prewarm_cache, IsNamed, prewarm_cache-IsNamed,
  get_player_name_lem, acquire, release,
}

abbrev default_builder_pool_size : ℕ
default_builder_pool_size = 1024

abbrev default_vector_pool_size : ℕ
default_vector_pool_size = 256

abbrev default_string_cache_size : ℕ
default_string_cache_size = 1000

pub record MemoryPoolManager (B V : Type 0) : Type 0 where
  pub builder_pool : Pool B
  pub vector_pool : Pool V
  pub string_cache : Dict Text

-- What the server does with the manager.
pub data ManagerCall (B V : Type 0) : Type 0 where
  with_builders : PoolCall B → ManagerCall B V
  with_vectors : PoolCall V → ManagerCall B V
  names : ℕ → ManagerCall B V

module _ {B V : Type 0} (builders : Pooled B) (vectors : Pooled V) where
  -- The constructor, which warms the cache.
  unfoldable pub new_manager : MemoryPoolManager B V
  unfolding new_pool prewarm_cache
  new_manager = record {
    builder_pool = new_pool builders default_builder_pool_size;
    vector_pool = new_pool vectors default_vector_pool_size;
    string_cache = prewarm_cache [] default_string_cache_size;
  }

  unfoldable manager_call : MemoryPoolManager B V → ManagerCall B V → MemoryPoolManager B V
  unfolding call get_player_name
  manager_call m (with_builders c) = record m { builder_pool = call builders m.builder_pool c }
  manager_call m (with_vectors c) = record m { vector_pool = call vectors m.vector_pool c }
  manager_call m (names id) = record m { string_cache = (get_player_name m.string_cache id).1 }

  unfoldable pub manager_calls :
      MemoryPoolManager B V → List (ManagerCall B V) → MemoryPoolManager B V
  unfolding manager_call
  manager_calls m [] = m
  manager_calls m (c ∷ cs) = manager_calls (manager_call m c) cs

  -- The pools keep within their sizes, the cache is right and within its own.
  pub record IsSound (m : MemoryPoolManager B V) : Type 0 where
    pub builders_within : IsWithin builders m.builder_pool default_builder_pool_size
    pub vectors_within : IsWithin vectors m.vector_pool default_vector_pool_size
    pub named : IsNamed m.string_cache
    pub bounded : length m.string_cache ≤ max_cache_size

  length-prewarm_from :
      (n i : ℕ) (cache : Dict Text) → length (prewarm_from n i cache) ≤ n + length cache
  unfolding prewarm_from
  length-prewarm_from zero i cache = omega arith
  length-prewarm_from (suc n) i cache = omega (
    arith,
    length-prewarm_from n (i + 1) (store i (player_name i) cache),
    length-store-le i (player_name i) cache,
  )

  length-prewarm_cache : (n : ℕ) → length (prewarm_cache [] n) ≤ max_cache_size
  unfolding prewarm_cache
  length-prewarm_cache n =
      ground (arith, length-prewarm_from (if leb n max_cache_size then n else max_cache_size) 1 [])

  new_manager-IsSound : IsSound new_manager
  unfolding new_manager find
  new_manager-IsSound = record {
    builders_within = new_pool-IsWithin builders default_builder_pool_size [];
    vectors_within = new_pool-IsWithin vectors default_vector_pool_size [];
    named = prewarm_cache-IsNamed [] default_string_cache_size (λ id name e. cc);
    bounded = length-prewarm_cache default_string_cache_size;
  }

  manager_call-IsSound :
      (m : MemoryPoolManager B V) (c : ManagerCall B V) → IsSound m → IsSound (manager_call m c)
  unfolding manager_call
  manager_call-IsSound m (with_builders c) h = record {
    builders_within =
        call-IsWithin builders m.builder_pool c default_builder_pool_size h.builders_within;
    vectors_within = h.vectors_within;
    named = h.named;
    bounded = h.bounded;
  }
  manager_call-IsSound m (with_vectors c) h = record {
    builders_within = h.builders_within;
    vectors_within =
        call-IsWithin vectors m.vector_pool c default_vector_pool_size h.vectors_within;
    named = h.named;
    bounded = h.bounded;
  }
  manager_call-IsSound m (names id) h =
      let (right, named, bounded) = get_player_name_lem m.string_cache id h.named h.bounded in
      record {
        builders_within = h.builders_within;
        vectors_within = h.vectors_within;
        named = named;
        bounded = bounded;
      }

  manager_calls-IsSound :
      (m : MemoryPoolManager B V) (cs : List (ManagerCall B V))
      → IsSound m
      → IsSound (manager_calls m cs)
  unfolding manager_calls
  manager_calls-IsSound m [] h = h
  manager_calls-IsSound m (c ∷ cs) h =
      manager_calls-IsSound (manager_call m c) cs (manager_call-IsSound m c h)

  -- Whatever the server acquires, releases and asks names for, from the start on: the pools keep
  -- their sizes and hold no more objects than 1024 and 256, the cache has at most 10000 names, and
  -- `GetPlayerName` gives `Player_` and the id, cached or not.
  pub get_player_name-manager_calls :
      (cs : List (ManagerCall B V)) (id : ℕ)
      → IsSound (manager_calls new_manager cs)
        × ((get_player_name (manager_calls new_manager cs).string_cache id).0 ≡ player_name id)
  get_player_name-manager_calls cs id =
      let h = manager_calls-IsSound new_manager cs new_manager-IsSound in
      (h, (get_player_name_lem (manager_calls new_manager cs).string_cache id h.named h.bounded).0)

-- `ObjectPool`, which starts empty; an object that it has to make is made from the caller's arguments.
abbrev made_of : {T : Type 0} → T → Pooled T
made_of x = record { create = x; clear = λ y. y }

unfoldable new_object_pool : {T : Type 0} → ℕ → Pool T
new_object_pool pool_size = record { pool_size = pool_size; available = [] }

unfoldable acquire_object : {T : Type 0} → Pool T → T → T × Pool T
unfolding acquire
acquire_object p x = acquire (made_of x) p

unfoldable release_object : {T : Type 0} → Pool T → Option T → Pool T
unfolding release
release_object p none = p
release_object p (some x) = release (made_of x) p (some x)
