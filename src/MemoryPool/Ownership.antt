-- ===== src/MemoryPool/Ownership.antt =====
-- Theorems on the wrappers of pooled objects: who has each object.
use cpp_mmo.Base.{
  ℕ, ◌+◌, ◌≤◌, ◌≡◌, refl, ◌∙◌, inl, inr, true, Option, none, some, List, [], ◌∷◌, arith, Bool-cases,
  ◌==◌, length, to_nat, get_elem?, set, count, get_elem?-set_other, total, total-append, total-set,
  All, All-append, All-set, All-get_elem?,
}
use cpp_mmo.MemoryPool.{acquire}
use cpp_mmo.MemoryPool.Wrappers.{
  Wrapper, Store, numbered, moved_from, construct, destroy, move_construct, move_assign,
  WrapperCall, with_wrapper, constructs, destroys, moves, assigns, wrapper_call, wrapper_calls,
  new_store,
}
use cpp_mmo.MemoryPool.Exchange.{
  is_object, is_held, HasPool, give_back-Returned, acquire-Taken, length-numbers, count-numbers,
}

-- In how many places an object is: in the pool, or in a wrapper.
abbrev places : ℕ → Store → ℕ
places q s = count q s.pool.available + total (λ w. is_object q w.object) s.wrappers

-- How many objects there are in the pool and in wrappers.
abbrev pub objects : Store → ℕ
objects s = length s.pool.available + total (λ w. is_held w.object) s.wrappers

pub record IsOwned (n : ℕ) (s : Store) : Type 0 where
  pub size : s.pool.pool_size ≡ n
  pub within : length s.pool.available ≤ n
  pub once : (q : ℕ) → places q s ≤ 1
  pub fresh : (q : ℕ) → s.next ≤ q → places q s ≡ 0
  pub kept : n ≤ objects s
  pub pools : All HasPool s.wrappers

-- A new number is at most once more in its place.
once_more :
    (s : Store) (q : ℕ)
    → (places q s ≤ 1)
    → (s.next ≤ q → places q s ≡ 0)
    → places q s + to_nat (q == s.next) ≤ 1
once_more s q once fresh = ground arith

module _ {n : ℕ} where
  construct-IsOwned : (s : Store) → IsOwned n s → IsOwned n (construct s)
  unfolding construct
  construct-IsOwned s h =
      let (size, fewer, moved, kept) = acquire-Taken s.pool.pool_size s.next s.pool.available in
      let x = (acquire (numbered s.next) s.pool).0 in
      let w : Wrapper = record { has_pool = true; object = some x } in
      record {
        size = size ∙ h.size;
        within = omega (arith, h.within);
        once = λ q. omega (
          arith,
          moved q,
          once_more s q (h.once q) (h.fresh q),
          total-append (λ v. is_object q v.object) s.wrappers (w ∷ []),
        );
        fresh = λ q new.
            let old : to_nat (q == s.next) ≡ 0 = ground arith in
            omega (
              arith,
              moved q,
              old,
              h.fresh q (omega arith),
              total-append (λ v. is_object q v.object) s.wrappers (w ∷ []),
            );
        kept = omega (arith, h.kept, total-append (λ v. is_held v.object) s.wrappers (w ∷ []));
        pools = All-append HasPool s.wrappers (w ∷ []) h.pools (inl refl, tt);
      }

  destroy-IsOwned :
      (s : Store) (i : ℕ) (w : Wrapper)
      → get_elem? s.wrappers i ≡ some w
      → IsOwned n s
      → IsOwned n (destroy s i w)
  unfolding destroy
  destroy-IsOwned s i w there h =
      let (size, within, fewer, kept) =
        give_back-Returned s.pool w (All-get_elem? HasPool s.wrappers i w h.pools there)
          (omega (arith, h.size, h.within)) in
      record {
        size = size ∙ h.size;
        within = omega (arith, h.size);
        once = λ q. omega (
          arith,
          h.once q,
          fewer q,
          total-set (λ v. is_object q v.object) s.wrappers i w moved_from there,
        );
        fresh = λ q new. omega (
          arith,
          h.fresh q new,
          fewer q,
          total-set (λ v. is_object q v.object) s.wrappers i w moved_from there,
        );
        kept = omega (
          arith,
          h.kept,
          h.size,
          total-set (λ v. is_held v.object) s.wrappers i w moved_from there,
        );
        pools = All-set HasPool s.wrappers i moved_from h.pools (inr refl);
      }

  move_construct-IsOwned :
      (s : Store) (i : ℕ) (w : Wrapper)
      → get_elem? s.wrappers i ≡ some w
      → IsOwned n s
      → IsOwned n (move_construct s i w)
  unfolding move_construct
  move_construct-IsOwned s i w there h =
      let ws = set s.wrappers i moved_from in
      record {
        size = h.size;
        within = h.within;
        once = λ q. omega (
          arith,
          h.once q,
          total-append (λ v. is_object q v.object) ws (w ∷ []),
          total-set (λ v. is_object q v.object) s.wrappers i w moved_from there,
        );
        fresh = λ q new. omega (
          arith,
          h.fresh q new,
          total-append (λ v. is_object q v.object) ws (w ∷ []),
          total-set (λ v. is_object q v.object) s.wrappers i w moved_from there,
        );
        kept = omega (
          arith,
          h.kept,
          total-append (λ v. is_held v.object) ws (w ∷ []),
          total-set (λ v. is_held v.object) s.wrappers i w moved_from there,
        );
        pools =
            All-append HasPool ws (w ∷ [])
              (All-set HasPool s.wrappers i moved_from h.pools (inr refl))
              (All-get_elem? HasPool s.wrappers i w h.pools there, tt);
      }

  move_assign-IsOwned :
      (s : Store) (i j : ℕ) (old w : Wrapper)
      → get_elem? s.wrappers i ≡ some old
      → get_elem? s.wrappers j ≡ some w
      → IsOwned n s
      → IsOwned n (move_assign s i old j w)
  unfolding move_assign
  move_assign-IsOwned s i j old w here there h = elim (Bool-cases (i == j)) [
    | inl self ↦ simp self h
    | inr other ↦
        let (size, within, fewer, kept) =
          give_back-Returned s.pool old (All-get_elem? HasPool s.wrappers i old h.pools here)
            (omega (arith, h.size, h.within)) in
        let ws = set s.wrappers i w in
        let still : get_elem? ws j ≡ some w = get_elem?-set_other s.wrappers i j w other ∙ there in
        simp other (record {
          size = size ∙ h.size;
          within = omega (arith, h.size);
          once = λ q. omega (
            arith,
            h.once q,
            fewer q,
            total-set (λ v. is_object q v.object) s.wrappers i old w here,
            total-set (λ v. is_object q v.object) ws j w moved_from still,
          );
          fresh = λ q new. omega (
            arith,
            h.fresh q new,
            fewer q,
            total-set (λ v. is_object q v.object) s.wrappers i old w here,
            total-set (λ v. is_object q v.object) ws j w moved_from still,
          );
          kept = omega (
            arith,
            h.kept,
            h.size,
            total-set (λ v. is_held v.object) s.wrappers i old w here,
            total-set (λ v. is_held v.object) ws j w moved_from still,
          );
          pools =
              All-set HasPool ws j moved_from
                (All-set HasPool s.wrappers i w h.pools
                  (All-get_elem? HasPool s.wrappers j w h.pools there))
                (inr refl);
        })
  ]

  with_wrapper-IsOwned :
      (s : Store) (o : Option Wrapper) (f : Wrapper → Store)
      → IsOwned n s
      → ((w : Wrapper) → o ≡ some w → IsOwned n (f w))
      → IsOwned n (with_wrapper s o f)
  with_wrapper-IsOwned s none f h k = h
  with_wrapper-IsOwned s (some w) f h k = k w refl

  wrapper_call-IsOwned : (s : Store) (c : WrapperCall) → IsOwned n s → IsOwned n (wrapper_call s c)
  unfolding wrapper_call
  wrapper_call-IsOwned s constructs h = construct-IsOwned s h
  wrapper_call-IsOwned s (destroys i) h =
      with_wrapper-IsOwned s (get_elem? s.wrappers i) (destroy s i) h
        (λ w there. destroy-IsOwned s i w there h)
  wrapper_call-IsOwned s (moves i) h =
      with_wrapper-IsOwned s (get_elem? s.wrappers i) (move_construct s i) h
        (λ w there. move_construct-IsOwned s i w there h)
  wrapper_call-IsOwned s (assigns i j) h =
      with_wrapper-IsOwned s (get_elem? s.wrappers i)
        (λ old. with_wrapper s (get_elem? s.wrappers j) (move_assign s i old j)) h
        (λ old here.
          with_wrapper-IsOwned s (get_elem? s.wrappers j) (move_assign s i old j) h
            (λ w there. move_assign-IsOwned s i j old w here there h))

  wrapper_calls-IsOwned :
      (s : Store) (cs : List WrapperCall) → IsOwned n s → IsOwned n (wrapper_calls s cs)
  unfolding wrapper_calls
  wrapper_calls-IsOwned s [] h = h
  wrapper_calls-IsOwned s (c ∷ cs) h =
      wrapper_calls-IsOwned (wrapper_call s c) cs (wrapper_call-IsOwned s c h)

new_store-IsOwned : (n : ℕ) → IsOwned n (new_store n)
unfolding new_store
new_store-IsOwned n = record {
  size = refl;
  within = omega (arith, length-numbers 0 n);
  once = λ q. omega (arith, (count-numbers q 0 n).0);
  fresh = λ q new. let z = (count-numbers q 0 n).2 (omega arith) in omega arith;
  kept = omega (arith, length-numbers 0 n);
  pools = tt;
}

-- Whatever wrappers of a pool of `n` objects are constructed, moved, assigned to each other or to
-- themselves, and destroyed: an object is in at most one place, in the pool or in one wrapper; the
-- pool never has more than `n`; and pool and wrappers together have at least `n`, so the pool is full
-- when no wrapper has an object.
pub wrapper_calls-new_store :
    (n : ℕ) (cs : List WrapperCall) → IsOwned n (wrapper_calls (new_store n) cs)
wrapper_calls-new_store n cs = wrapper_calls-IsOwned (new_store n) cs (new_store-IsOwned n)
