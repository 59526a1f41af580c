-- ===== src/MemoryPool/Wrappers.antt =====
-- src/Utils/MemoryPool.h and MemoryPool.cpp: the wrappers that give a pooled object back, one model
-- for builders and vectors. Objects are told apart by numbers; clearing one keeps its number.
use cpp_mmo.Base.{
  ℕ, zero, suc, Bool, true, false, Option, none, some, List, [], ◌∷◌, ◌++◌, ◌==◌, if◌then◌else◌,
  get_elem?, set,
}
use cpp_mmo.MemoryPool.{Pooled, Pool, acquire, release}

pub record Wrapper : Type 0 where
  -- Whether `m_pool` is set.
  pub has_pool : Bool
  -- `m_builder` or `m_vector`.
  pub object : Option ℕ

-- The pool, every wrapper so far in the order of construction, and the number for the next object.
pub record Store : Type 0 where
  pub pool : Pool ℕ
  pub wrappers : List Wrapper
  pub next : ℕ

abbrev pub numbered : ℕ → Pooled ℕ
numbered n = record { create = n; clear = λ x. x }

-- A wrapper that was moved from or destroyed.
abbrev pub moved_from : Wrapper
moved_from = record { has_pool = false; object = none }

-- `if (m_pool && m_builder) m_pool->Release(std::move(m_builder))`
unfoldable pub give_back : Pool ℕ → Wrapper → Pool ℕ
unfolding release
give_back p w = if w.has_pool then release (numbered 0) p w.object else p

unfoldable pub construct : Store → Store
unfolding acquire
construct s =
    let (x, p) = acquire (numbered s.next) s.pool in
    record {
      pool = p;
      wrappers = s.wrappers ++ record { has_pool = true; object = some x } ∷ [];
      next = suc s.next;
    }

-- The destructor of a wrapper.
unfoldable pub destroy : Store → ℕ → Wrapper → Store
unfolding give_back
destroy s i w = record s { pool = give_back s.pool w; wrappers = set s.wrappers i moved_from }

-- The move constructor, from a wrapper.
unfoldable pub move_construct : Store → ℕ → Wrapper → Store
move_construct s i w = record s { wrappers = set s.wrappers i moved_from ++ w ∷ [] }

-- The move assignment from the wrapper `w` at `j` to the one at `i`.
unfoldable pub move_assign : Store → ℕ → Wrapper → ℕ → Wrapper → Store
unfolding give_back
move_assign s i old j w =
    if i == j
    then s
    else record s { pool = give_back s.pool old; wrappers = set (set s.wrappers i w) j moved_from }

-- What a program does with wrappers, which it names by their place.
pub data WrapperCall : Type 0 where
  constructs : WrapperCall
  destroys : ℕ → WrapperCall
  moves : ℕ → WrapperCall
  assigns : ℕ → ℕ → WrapperCall

-- A call on a wrapper that there is not changes nothing.
abbrev pub with_wrapper : Store → Option Wrapper → (Wrapper → Store) → Store
with_wrapper s none f = s
with_wrapper s (some w) f = f w

unfoldable pub wrapper_call : Store → WrapperCall → Store
unfolding construct destroy move_construct move_assign
wrapper_call s constructs = construct s
wrapper_call s (destroys i) = with_wrapper s (get_elem? s.wrappers i) (destroy s i)
wrapper_call s (moves i) = with_wrapper s (get_elem? s.wrappers i) (move_construct s i)
wrapper_call s (assigns i j) =
    with_wrapper s (get_elem? s.wrappers i)
      (λ old. with_wrapper s (get_elem? s.wrappers j) (move_assign s i old j))

unfoldable pub wrapper_calls : Store → List WrapperCall → Store
unfolding wrapper_call
wrapper_calls s [] = s
wrapper_calls s (c ∷ cs) = wrapper_calls (wrapper_call s c) cs

-- The objects that the pool's constructor makes, `n` from a number on.
unfoldable pub numbers : ℕ → ℕ → List ℕ
numbers i zero = []
numbers i (suc n) = i ∷ numbers (suc i) n

unfoldable pub new_store : ℕ → Store
unfolding numbers
new_store n = record {
  pool = record { pool_size = n; available = numbers 0 n };
  wrappers = [];
  next = n;
}
