-- ===== src/Tests/Threads.antt =====
-- The theorems on what runs side by side, and on the pooled objects, at small inputs.
use mathlib.Core.Path.{subst}
use mathlib.Core.List.{append-nil, Permᴰ}
use mathlib.Core.List.Permᴰ as Perms
use cpp_mmo.Base.{ℕ, ◌≡◌, refl, true, false, Option, none, some, List, [], ◌∷◌, ◌++◌, arith}
use cpp_mmo.Network.Session.{Bytes, frame, send}
use cpp_mmo.Network.Link.{
  Link, Reached, starts, continues, sends, begins, writes, fails, stops_reading, start_link,
  send_on, begin_write, end_write, fail_write, end_reading,
}
use cpp_mmo.Network.Closing.{IsTold, Reached-IsTold}
use cpp_mmo.Network.Delivery.{IsDelivered, Reached-IsDelivered}
use cpp_mmo.Network.Peer.{calls, IsArrived, read_loop-Reached}
use cpp_mmo.Queue.{ConcurrentQueue, QueueLaws}
use cpp_mmo.Jobs.{Accessors, Job, Processor}
use cpp_mmo.Jobs.Crew.{stop_crew}
use cpp_mmo.Jobs.Stopping.{closed, stop_crew-closed}
use cpp_mmo.MemoryPool.Wrappers.{
  WrapperCall, constructs, destroys, moves, assigns, wrapper_calls, new_store,
}
use cpp_mmo.MemoryPool.Ownership.{IsOwned, wrapper_calls-new_store}
use cpp_mmo.MemoryPool.{Pooled, acquires, releases, get_player_name}
use cpp_mmo.MemoryPool.Manager.{
  ManagerCall, with_builders, names, manager_calls, new_manager, IsSound,
  get_player_name-manager_calls,
}
use cpp_mmo.Base.Text.{player_name}
use cpp_mmo.Tests.Scaled.{scaled}

-- A packet of two bytes is sent, its write fails after three bytes, and the other loop ends.
abbrev body : Bytes
body = 5 ∷ 6 ∷ []

abbrev broken : Link
broken =
    end_reading
      (fail_write (begin_write (send_on (start_link 4) body) [] (frame body) []) (2 ∷ 0 ∷ 0 ∷ []))

broken_reached : Reached 4 broken
unfolding start_link send_on begin_write fail_write frame send
broken_reached =
    continues
      (continues
        (continues (continues starts (sends body)) (begins [] (frame body) [] refl refl refl refl))
        (fails (frame body) (2 ∷ 0 ∷ 0 ∷ []) (0 ∷ 5 ∷ 6 ∷ []) refl refl))
      (stops_reading refl)

Reached-IsTold_example : IsTold broken
Reached-IsTold_example = Reached-IsTold broken_reached

Reached-IsDelivered_example : IsDelivered broken
Reached-IsDelivered_example = Reached-IsDelivered broken_reached

-- The same packet, written whole.
abbrev idle : Link
idle = end_write (begin_write (send_on (start_link 4) body) [] (frame body) []) (frame body)

idle_reached : Reached 4 idle
unfolding start_link send_on begin_write frame send
idle_reached =
    continues
      (continues (continues starts (sends body)) (begins [] (frame body) [] refl refl refl refl))
      (writes (frame body) refl refl)

open_still : idle.session.is_open ≡ true
unfolding start_link send_on begin_write end_write send
open_still = refl

nothing_written : idle.writing ≡ none
unfolding end_write
nothing_written = refl

nothing_waits : idle.session.write_queue ≡ []
unfolding begin_write end_write
nothing_waits = refl

read_loop-Reached_example : ∥ IsArrived (calls idle_reached) idle.wire ∥₁
unfolding idle_reached
read_loop-Reached_example =
    read_loop-Reached idle_reached (((omega arith, omega arith), tt), tt) open_still nothing_written
      nothing_waits

-- Packets of one byte, which is their id, with a table of one number.
abbrev accessors : Accessors ℕ
accessors = record {
  verified = λ bytes. none;
  input_flags = λ d. d;
  sequence_number = λ d. d;
  zone_id = λ d. d;
}

abbrev processor : Processor ℕ
processor = record { packet_manager = some []; has_game_logic_queue = true }

abbrev job : Job
job = record {
  session = record { session_id = 1; player_id = 7 };
  packet_buffer = 10 ∷ [];
  is_shutdown_signal = false;
}

-- A queue of one producer is a list.
abbrev from_front : List Job → Option (Job × List Job)
from_front [] = none
from_front (x ∷ xs) = some (x, xs)

abbrev fifo : ConcurrentQueue Job (List Job)
fifo = record { empty = []; enqueue = λ x q. q ++ x ∷ []; try_dequeue = from_front }

front_none : (q : List Job) → from_front q ≡ none → q ≡ []
front_none [] h = refl
front_none (x ∷ q) h = cc

front_some : (q r : List Job) (x : Job) → from_front q ≡ some (x, r) → q ≡ x ∷ r
front_some [] r x h = cc
front_some (y ∷ q) r x h = cc

last_first : (x : Job) (q : List Job) → Permᴰ (q ++ x ∷ []) (x ∷ q)
last_first x q = subst (λ r. Permᴰ (q ++ x ∷ []) (x ∷ r)) (append-nil q) (Perms.middle x q [])

abbrev fifo_laws : QueueLaws fifo
fifo_laws = record {
  items = λ q. q;
  items-empty = refl;
  items_none = front_none;
  items_some = front_some;
  items-enqueue = last_first;
}

stop_crew-closed_example : (stop_crew {F = ℕ} accessors processor fifo 9 (closed [] 2 [])).alive ≡ 2
stop_crew-closed_example = stop_crew-closed {F = ℕ} accessors processor fifo_laws 9 [] 2 [] refl

abbrev uses : List WrapperCall
uses = constructs ∷ constructs ∷ assigns 0 1 ∷ assigns 0 0 ∷ moves 0 ∷ destroys 2 ∷ destroys 0 ∷ []

wrapper_calls-new_store_example : IsOwned 2 (wrapper_calls (new_store 2) uses)
wrapper_calls-new_store_example = wrapper_calls-new_store 2 uses

-- Builders and vectors, each told by a number.
abbrev counters : Pooled ℕ
counters = record { create = 0; clear = λ x. 0 }

abbrev users : List (ManagerCall ℕ ℕ)
users = with_builders acquires ∷ with_builders (releases (some 3)) ∷ names 7 ∷ []

get_player_name-manager_calls_example :
    IsSound counters counters
      (manager_calls counters counters (new_manager counters counters) users)
    × ((get_player_name
          (manager_calls counters counters (new_manager counters counters) users).string_cache
          5000).0
        ≡ player_name 5000)
get_player_name-manager_calls_example = get_player_name-manager_calls counters counters users 5000
