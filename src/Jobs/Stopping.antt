-- ===== src/Jobs/Stopping.antt =====
-- Theorems on how the worker threads of the job processor stop.
use mathlib.Core.List.{Permᴰ}
use mathlib.Core.List.Permᴰ as Perms
use cpp_mmo.Base.{
  ℕ, zero, suc, ◌+◌, ◌≡◌, refl, ap, ◌∙◌, inl, inr, true, false, none, some, List, [], ◌∷◌, ◌++◌,
  map, Bool-cases, ◌==◌, to_nat,
}
use cpp_mmo.Float.{FloatOps}
use cpp_mmo.Queue.{ConcurrentQueue, QueueLaws, push, pop_closed}
use cpp_mmo.Jobs.{Job, Accessors, Effect, logs, Processor, work}
use cpp_mmo.Jobs.Crew.{
  empty_job, shutdown_job, Crew, push_signals, take_job, take_popped, worker_round, run_workers,
  stop_crew,
}

-- How many shutdown signals there are.
abbrev pub signals : List Job → ℕ
signals [] = 0
signals (j ∷ js) = to_nat j.is_shutdown_signal + signals js

-- So many shutdown signals, and then these jobs.
abbrev pub with_signals : ℕ → List Job → List Job
with_signals zero jobs = jobs
with_signals (suc n) jobs = shutdown_job ∷ with_signals n jobs

-- A crew on a queue that does not shut down.
abbrev pub running : {F H Q : Type 0} → Q → ℕ → List (Effect F H) → Crew F H Q
running q alive effects = record {
  queue = record { queue = q; shutting_down = false };
  alive = alive;
  effects = effects;
}

-- A crew on a queue that was shut down.
abbrev pub closed : {F H Q : Type 0} → Q → ℕ → List (Effect F H) → Crew F H Q
closed q alive effects = record {
  queue = record { queue = q; shutting_down = true };
  alive = alive;
  effects = effects;
}

module _ {Q : Type 0} {ops : ConcurrentQueue Job Q} (laws : QueueLaws ops) where
  push_signals_closed :
      (n : ℕ) (q : Q)
      → push_signals ops n (record { queue = q; shutting_down = true })
        ≡ record { queue = q; shutting_down = true }
  unfolding push_signals push
  push_signals_closed zero q = refl
  push_signals_closed (suc n) q = push_signals_closed n q

module _ {F D H Q : Type 0} ⦃fl : FloatOps F⦄ (accessors : Accessors D) (p : Processor H)
    {ops : ConcurrentQueue Job Q} (laws : QueueLaws ops) where
  -- No thread is left; the jobs that left the queue were done in its order.
  abbrev pub IsStopped : List Job → List (Effect F H) → Crew F H Q → Type 0
  IsStopped jobs before c =
      (done : List Job) × (c.alive ≡ 0)
      × (jobs ≡ done ++ laws.items c.queue.queue)
      × (c.effects ≡ before ++ map (work accessors p) done)

  run_workers_next :
      (fuel : ℕ) (c next : Crew F H Q)
      → (c.alive == 0) ≡ false
      → worker_round accessors p ops c ≡ some next
      → run_workers accessors p ops (suc fuel) c ≡ run_workers accessors p ops fuel next
  unfolding run_workers
  run_workers_next fuel c next busy round =
      rw (busy, run_workers)
        (ap
          (λ o. elim o as (λ x. Crew F H Q) [
            | none ↦ c
            | some d ↦ run_workers accessors p ops fuel d
          ])
          round)

  run_workers-closed :
      (fuel : ℕ) (q : Q) (alive : ℕ) (before : List (Effect F H))
      → laws.items q ≡ []
      → (run_workers accessors p ops fuel (closed q alive before)).alive ≡ alive
  unfolding run_workers worker_round take_popped take_job work
  run_workers-closed zero q alive before empty = refl
  run_workers-closed (suc fuel) q alive before empty = elim (Bool-cases (alive == 0)) [
    | inl ended ↦ rw (ended, run_workers)
    | inr busy ↦
        let round =
          ap (take_popped accessors p ops (closed q alive before))
            (pop_closed ops laws empty_job false q empty) in
        ap (λ (c : Crew F H Q). c.alive)
          (run_workers_next fuel (closed q alive before) _ busy round)
        ∙ run_workers-closed fuel q alive (before ++ logs ∷ []) empty
  ]

  -- After `Shutdown` of an empty job queue, `Stop` never gets a thread to end, however long it waits:
  -- its signals are refused, and each `PopJob` gives an empty job at once.
  pub stop_crew-closed :
      (fuel : ℕ) (q : Q) (alive : ℕ) (before : List (Effect F H))
      → laws.items q ≡ []
      → (stop_crew accessors p ops fuel (closed q alive before)).alive ≡ alive
  unfolding stop_crew
  stop_crew-closed fuel q alive before empty =
      simp (push_signals_closed laws alive q) (run_workers-closed fuel q alive before empty)
