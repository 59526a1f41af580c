-- ===== src/Shutdown.antt =====
-- Theorems on how the parts of the server start and stop, src/main.cpp.
use cpp_mmo.Base.{
  leb, none, ℕ, zero, suc, ◌≡◌, Bool, true, false, ◌&&◌, Option, some, if◌then◌else◌,
}
use cpp_mmo.Base.Int.{ℤ, pos, negsuc}
use cpp_mmo.Base.Text.{Text}
use cpp_mmo.Redis.{Answer, unreachable, without_subscriber, reachable}
use cpp_mmo.Lifecycle.{
  Run, finishes, throws_here, throws_on_thread, threads_of, Parts, CommandLine, refused, asks_help,
  options, Surroundings, running,
}

-- The game loop and the workers have ended.
abbrev pub IsStopped : Parts → Type 0
IsStopped p = (p.game.running ≡ false) × (p.game.has_thread ≡ false) × (p.jobs.worker_threads ≡ 0)

abbrev is_positive : ℤ → Bool
is_positive (pos zero) = false
is_positive (pos (suc n)) = true
is_positive (negsuc n) = false

-- Whether `ChatManager::Initialize` throws nothing: Redis is not there, or takes the subscription.
abbrev has_chat : Answer → Bool → Bool
has_chat unreachable accepts = true
has_chat without_subscriber accepts = true
has_chat reachable accepts = accepts

-- Whether the server starts: there is an I/O thread, and listening and starting them all succeeds.
abbrev can_start : ℤ → Bool → ℕ → Bool
can_start io listens limit = is_positive io && (listens && leb (threads_of io) limit)

-- The I/O threads that are started.
abbrev started_threads : ℤ → Bool → ℕ → ℕ
started_threads io listens limit =
    if listens then (if leb (threads_of io) limit then threads_of io else limit) else 0

abbrev is_finished : Run → Bool
is_finished finishes = true
is_finished throws_here = false
is_finished throws_on_thread = false

abbrev is_fatal : Run → Bool
is_fatal finishes = false
is_fatal throws_here = false
is_fatal throws_on_thread = true

-- Whether the start of the server is tried: everything before it succeeds.
abbrev is_tried : Surroundings → Bool
is_tried s = s.game_constructed && (s.server_constructed && has_chat s.redis s.subscribes)

abbrev can_serve : CommandLine → Surroundings → Bool
can_serve refused s = false
can_serve asks_help s = true
can_serve (options io logic) s =
    is_tried s && (can_start io s.listens s.thread_limit && is_finished s.run)

abbrev dies_in : CommandLine → Surroundings → Bool
dies_in refused s = false
dies_in asks_help s = false
dies_in (options io logic) s =
    is_tried s && (can_start io s.listens s.thread_limit && is_fatal s.run)

abbrev left_in : CommandLine → Surroundings → ℕ
left_in refused s = 0
left_in asks_help s = 0
left_in (options io logic) s =
    if is_tried s && is_positive io then started_threads io s.listens s.thread_limit else 0

-- Whether help was asked for, or everything that the server needs succeeds, and it ran to its end.
abbrev pub succeeds : Surroundings → Bool
succeeds s = can_serve s.command_line s

-- Whether an exception left `run()` in an I/O thread of a server that started.
abbrev pub dies : Surroundings → Bool
dies s = dies_in s.command_line s

-- The I/O threads that were started.
abbrev pub threads_left : Surroundings → ℕ
threads_left s = left_in s.command_line s

-- How a run ends: it has no end of its own, or one with `ok`, and with the I/O threads that nothing has
-- joined.
abbrev pub Ended : Bool → Bool → ℕ → Option (Parts × ℕ) → Type 0
Ended true ok io result = result ≡ none
Ended false ok io result =
    (r : Parts × ℕ) × (result ≡ some r)
    × IsStopped r.0
    × (r.0.server_threads ≡ io)
    × (r.1 ≡ (if ok then 0 else 1))

-- The parts once the chat manager holds the server.
abbrev kept : Text × Text → ℤ → Parts
kept auth logic = record (running auth logic) { server_is_kept = true }
