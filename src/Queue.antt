-- ===== src/Queue.antt =====
-- src/Utils/JobQueue.h, JobQueue.cpp, src/Game/GameLogicQueue.h and GameLogicQueue.cpp: two queues
-- of one shape, over `moodycamel::ConcurrentQueue`, which is an argument. Each operation is a step;
-- what another thread does between the two tests of `Pop` is an argument too.
use mathlib.Core.List.{Permᴰ}
use cpp_mmo.Base.{
  ◌≡◌, refl, sym, ap, ◌∙◌, Bool, true, false, ◌||◌, Option, none, some, List, [], ◌∷◌, arith,
  Option-cases, head_or, tail, inl, inr, if◌then◌else◌,
}

-- The operations of the concurrent queue that the code calls.
pub record ConcurrentQueue (A Q : Type 0) : Type 0 where
  pub empty : Q
  pub enqueue : A → Q → Q
  pub try_dequeue : Q → Option (A × Q)

-- What its documentation promises when no two operations overlap: it gives back each element that was
-- enqueued once, and gives none only if it is empty. It promises no order among the elements of
-- several producers, so an element that is enqueued may change the order of the others.
pub record QueueLaws {A Q : Type 0} (ops : ConcurrentQueue A Q) : Type 0 where
  -- The elements, in the order in which they come out if no other is enqueued.
  pub items : Q → List A
  pub items-empty : items ops.empty ≡ []
  pub items_none : (q : Q) → ops.try_dequeue q ≡ none → items q ≡ []
  pub items_some : (q r : Q) (x : A) → ops.try_dequeue q ≡ some (x, r) → items q ≡ x ∷ items r
  pub items-enqueue : (x : A) (q : Q) → Permᴰ (items (ops.enqueue x q)) (x ∷ items q)

pub record Queue (Q : Type 0) : Type 0 where
  pub queue : Q
  pub shutting_down : Bool

module _ {A Q : Type 0} (ops : ConcurrentQueue A Q) where
  unfoldable new_queue : Queue Q
  new_queue = record { queue = ops.empty; shutting_down = false }

  -- `PushJob` and `PushGameCommand`.
  unfoldable pub push : A → Queue Q → Queue Q
  push x q = if q.shutting_down then q else record q { queue = ops.enqueue x q.queue }

  -- The predicate of the wait: what was dequeued, if it was, and whether the wait ends.
  unfoldable wait_predicate : A → Queue Q → A × Queue Q × Bool
  wait_predicate x q = elim (ops.try_dequeue q.queue) [
    | none ↦ (x, q, q.shutting_down)
    | some (y, rest) ↦ (y, record q { queue = rest }, true)
  ]

  -- What follows the wait, with the default for an empty answer.
  unfoldable after_wait : A → A → Queue Q → A × Queue Q
  after_wait default x q =
      if q.shutting_down
      then elim (ops.try_dequeue q.queue) [
        | none ↦ (default, q)
        | some (y, rest) ↦ (y, record q { queue = rest })
      ]
      else (x, q)

  -- What a test of the predicate leads to; `none` while the wait goes on.
  unfoldable finish_pop : A → Bool → A × Queue Q × Bool → Option (A × Queue Q)
  unfolding after_wait
  finish_pop default is_shut (x, q, is_over) =
      if is_over
      then some (after_wait default x (record q { shutting_down = q.shutting_down || is_shut }))
      else none

  -- `PopJob` and `PopGameCommand` from a test of the predicate. `is_shut` says whether another thread
  -- calls `Shutdown` between the wait and the test that follows it.
  unfoldable pub pop : A → Bool → Queue Q → Option (A × Queue Q)
  unfolding wait_predicate finish_pop
  pop default is_shut q = finish_pop default is_shut (wait_predicate default q)

  -- `TryPopGameCommand`
  unfoldable try_pop : Queue Q → Option (A × Queue Q)
  try_pop q = elim (ops.try_dequeue q.queue) [
    | none ↦ none
    | some (y, rest) ↦ some (y, record q { queue = rest })
  ]

unfoldable pub shutdown : {Q : Type 0} → Queue Q → Queue Q
shutdown q = record q { shutting_down = true }

module _ {A Q : Type 0} (ops : ConcurrentQueue A Q) (laws : QueueLaws ops) where
  pop-none :
      (default : A) (is_shut : Bool) (q : Queue Q)
      → ops.try_dequeue q.queue ≡ none
      → q.shutting_down ≡ false
      → pop ops default is_shut q ≡ none
  unfolding pop finish_pop
  pop-none default is_shut q empty running =
      let w : wait_predicate ops default q ≡ (default, q, false) =
        rw (empty, running, wait_predicate) in
      ap (finish_pop ops default is_shut) w

  pop-some :
      (default y : A) (is_shut : Bool) (q : Queue Q) (left : Q)
      → ops.try_dequeue q.queue ≡ some (y, left)
      → pop ops default is_shut q
        ≡ some (
            after_wait ops default y
              (record { queue = left; shutting_down = q.shutting_down || is_shut }))
  unfolding pop finish_pop
  pop-some default y is_shut q left found =
      let w : wait_predicate ops default q ≡ (y, record q { queue = left }, true) =
        rw (found, wait_predicate) in
      ap (finish_pop ops default is_shut) w

  after_wait_running :
      (default x : A) (q : Queue Q) → q.shutting_down ≡ false → after_wait ops default x q ≡ (x, q)
  unfolding after_wait
  after_wait_running default x q running = simp running refl

  -- The second `try_dequeue`.
  after_wait_shutting_down :
      (default x : A) (q : Queue Q)
      → q.shutting_down ≡ true
      → (r : Queue Q) × (after_wait ops default x q ≡ (head_or default (laws.items q.queue), r))
        × (laws.items r.queue ≡ tail (laws.items q.queue))
  unfolding after_wait
  after_wait_shutting_down default x q closing = elim (Option-cases (ops.try_dequeue q.queue)) [
    | inl empty ↦
        let e = laws.items_none q.queue empty in (q, simp (closing, empty, e) refl, simp e refl)
    | inr ((y, left), found) ↦
        let e = laws.items_some q.queue left y found in
        (record q { queue = left }, simp (closing, found, e) refl, simp e refl)
  ]

  -- Either an answer took the next element, or there was none.
  abbrev pub Popped : Queue Q → Option (A × Queue Q) → Type 0
  Popped q none = laws.items q.queue ≡ []
  Popped q (some (x, r)) = laws.items q.queue ≡ x ∷ laws.items r.queue

  -- `Pop` on a queue that is not shutting down waits until there is an element, and takes the one
  -- that comes next.
  pub pop-Popped :
      (default : A) (q : Queue Q) → q.shutting_down ≡ false → Popped q (pop ops default false q)
  pop-Popped default q running = elim (Option-cases (ops.try_dequeue q.queue)) [
    | inl empty ↦ simp (pop-none default false q empty running) (laws.items_none q.queue empty)
    | inr ((x, r), found) ↦
        let e =
          after_wait_running default x
            (record { queue = r; shutting_down = q.shutting_down || false }) (simp running refl) in
        simp (pop-some default x false q r found ∙ ap some e) (laws.items_some q.queue r x found)
  ]

  -- On a queue that shuts down, `Pop` drops the element that comes next and takes the one behind it,
  -- or gives the default if there is none.
  pub pop-shutting_down :
      (default x : A) (rest : List A) (q : Queue Q) (is_shut : Bool)
      → (q.shutting_down || is_shut) ≡ true
      → laws.items q.queue ≡ x ∷ rest
      → (r : Queue Q) × (pop ops default is_shut q ≡ some (head_or default rest, r))
        × (laws.items r.queue ≡ tail rest)
  pop-shutting_down default x rest q is_shut closing there =
      elim (Option-cases (ops.try_dequeue q.queue)) [
        | inl empty ↦ absurd (ground (arith, laws.items_none q.queue empty))
        | inr ((y, left), found) ↦
            let e : y ∷ laws.items left ≡ x ∷ rest =
              sym (laws.items_some q.queue left y found) ∙ there in
            let e' : laws.items left ≡ rest = cc in
            let (r, popped, behind) =
              after_wait_shutting_down default y
                (record { queue = left; shutting_down = q.shutting_down || is_shut }) closing in
            (
              r,
              pop-some default y is_shut q left found ∙ simp (popped, e') refl,
              behind ∙ ap tail e',
            )
      ]

  -- On an empty queue that shuts down, `Pop` does not wait, and gives the default each time.
  pub pop_closed :
      (default : A) (is_shut : Bool) (q : Q)
      → laws.items q ≡ []
      → pop ops default is_shut (record { queue = q; shutting_down = true })
        ≡ some (default, record { queue = q; shutting_down = true })
  unfolding pop finish_pop
  pop_closed default is_shut q empty = elim (Option-cases (ops.try_dequeue q)) [
    | inl none_left ↦
        let w : wait_predicate ops default (record { queue = q; shutting_down = true })
            ≡ (default, record { queue = q; shutting_down = true }, true) =
          rw (none_left, wait_predicate) in
        let e : after_wait ops default default (record { queue = q; shutting_down = true })
            ≡ (default, record { queue = q; shutting_down = true }) =
          rw (none_left, after_wait) in
        ap (finish_pop ops default is_shut) w ∙ ap some e
    | inr ((y, left), found) ↦ absurd (ground (arith, laws.items_some q left y found))
  ]

  -- On a queue that does not shut down, `Pop` takes the element that comes next.
  pub pop_running :
      (default x : A) (rest : List A) (q : Q)
      → laws.items q ≡ x ∷ rest
      → (left : Q) × (pop ops default false (record { queue = q; shutting_down = false })
          ≡ some (x, record { queue = left; shutting_down = false }))
        × (laws.items left ≡ rest)
  pop_running default x rest q there = elim (Option-cases (ops.try_dequeue q)) [
    | inl empty ↦ absurd (ground (arith, laws.items_none q empty))
    | inr ((y, left), found) ↦
        let e : y ∷ laws.items left ≡ x ∷ rest = sym (laws.items_some q left y found) ∙ there in
        let same : y ≡ x = cc in
        let behind : laws.items left ≡ rest = cc in
        let popped =
          pop-some default y false (record { queue = q; shutting_down = false }) left found
          ∙ ap some (
              after_wait_running default y (record { queue = left; shutting_down = false }) refl) in
        (
          left,
          popped ∙ ap (λ z. some (z, record { queue = left; shutting_down = false })) same,
          behind,
        )
  ]
