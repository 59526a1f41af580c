-- ===== src/Jobs/Crew.antt =====
-- src/Utils/JobProcessor.cpp over src/Utils/JobQueue.cpp: the worker threads, which take jobs from
-- one queue until each has taken a shutdown signal.
use cpp_mmo.Base.{
  ℕ, zero, suc, ◌-◌, Bool, true, false, Option, none, some, List, [], ◌∷◌, ◌++◌, ◌==◌,
  if◌then◌else◌,
}
use cpp_mmo.Float.{FloatOps}
use cpp_mmo.Queue.{ConcurrentQueue, Queue, push, pop}
use cpp_mmo.Jobs.{Job, Accessors, Effect, exits, logs, dispatches, pushes, Processor, work}

-- `Job{}`; its session is null, and nothing reads it while the buffer is empty.
abbrev pub empty_job : Job
empty_job = record {
  session = record { session_id = 0; player_id = 0 };
  packet_buffer = [];
  is_shutdown_signal = false;
}

abbrev pub shutdown_job : Job
shutdown_job = record empty_job { is_shutdown_signal = true }

-- The threads that are in `WorkerLoop`, the queue that they share, and what they did so far.
pub record Crew (F H Q : Type 0) : Type 0 where
  pub queue : Queue Q
  pub alive : ℕ
  pub effects : List (Effect F H)

abbrev pub is_exit : {F H : Type 0} → Effect F H → Bool
is_exit exits = true
is_exit logs = false
is_exit (dispatches h) = false
is_exit (pushes c) = false

module _ {Q : Type 0} (ops : ConcurrentQueue Job Q) where
  -- The loop of `Stop` that pushes a signal for each thread.
  unfoldable pub push_signals : ℕ → Queue Q → Queue Q
  unfolding push
  push_signals zero q = q
  push_signals (suc n) q = push_signals n (push ops shutdown_job q)

module _ {F D H Q : Type 0} ⦃fl : FloatOps F⦄ (accessors : Accessors D) (p : Processor H)
    (ops : ConcurrentQueue Job Q) where
  -- A thread does the job that it popped.
  unfoldable pub take_job : Crew F H Q → Job → Queue Q → Crew F H Q
  unfolding work
  take_job c job q =
      let effect : Effect F H = work accessors p job in
      record {
        queue = q;
        alive = if is_exit effect then c.alive - 1 else c.alive;
        effects = c.effects ++ effect ∷ [];
      }

  unfoldable pub take_popped : Crew F H Q → Option (Job × Queue Q) → Option (Crew F H Q)
  unfolding take_job
  take_popped c none = none
  take_popped c (some (job, q)) = some (take_job c job q)

  -- A round of `WorkerLoop` in one of the threads; `none` while all of them wait.
  unfoldable pub worker_round : Crew F H Q → Option (Crew F H Q)
  unfolding take_popped
  worker_round c = take_popped c (pop ops empty_job false c.queue)

  -- The rounds until no thread is left, or all wait, or the fuel is spent.
  unfoldable pub run_workers : ℕ → Crew F H Q → Crew F H Q
  unfolding worker_round
  run_workers zero c = c
  run_workers (suc fuel) c = elim (c.alive == 0) [
    | true ↦ c
    | false ↦ elim (worker_round c) [ none ↦ c | some next ↦ run_workers fuel next ]
  ]

  -- `Stop`, with as many threads as there are in `WorkerLoop`, and what they do until it has joined
  -- them or the fuel is spent.
  unfoldable pub stop_crew : ℕ → Crew F H Q → Crew F H Q
  unfolding push_signals run_workers
  stop_crew fuel c = run_workers fuel (record c { queue = push_signals ops c.alive c.queue })
