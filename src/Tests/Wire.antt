-- ===== src/Tests/Wire.antt =====
-- The theorems on sessions, queues, jobs, chat and pools at small inputs.
use mathlib.Core.Path.{subst}
use mathlib.Core.List.{append-nil, Permᴰ}
use mathlib.Core.List.Permᴰ as Perms
use cpp_mmo.Base.{
  ℕ, ◌≡◌, ◌≢◌, refl, true, false, Option, none, some, List, [], ◌∷◌, ◌++◌, arith, leb, length, ◌≤◌,
  ◌+◌, if◌then◌else◌, All, head_or,
}
use cpp_mmo.Base.Dict.{find}
use cpp_mmo.Queue.{ConcurrentQueue, QueueLaws, Queue, pop, Popped, pop-Popped, pop-shutting_down}
use cpp_mmo.Network.Session.{
  Session, Bytes, send_batch, read_loop, out_of_fuel, written, max_batch_size,
}
use cpp_mmo.Network.Framing.{IsBody, framed_size, send_all, send_batch_lem, read_loop-bodies}
use cpp_mmo.Network.Manager.{
  Manager, Server, accept, on_session_disconnected_internal, remove_session,
}
use cpp_mmo.Network.Sessions.{
  remove_session-twice, IsBounded, start, accepts, disconnects, Served-IsBounded,
}
use cpp_mmo.Jobs.{Accessors, Job, Processor, register_handler, work}
use cpp_mmo.Dispatch.{IsOwnEffect, work-IsOwnEffect}
use cpp_mmo.Chat.{to_int64, message_with_player, parse_chat}
use cpp_mmo.ChatText.{parse_chat-message_with_player}
use cpp_mmo.Tests.Scaled.{scaled}

abbrev idle : Session
idle = record {
  session_id = 1;
  player_id = 7;
  is_open = true;
  read_header = [];
  read_body = [];
  write_queue = [];
  has_callback = true;
}

abbrev packets : List Bytes
packets = (1 ∷ 2 ∷ 3 ∷ []) ∷ (4 ∷ []) ∷ []

bodies : All IsBody packets
bodies = ((omega arith, omega arith), ((omega arith, omega arith), tt))

send_batch_lem_example :
    (written (send_batch idle packets).write_queue ≡ (
      if leb (framed_size packets) max_batch_size
      then written (send_all idle packets).write_queue
      else written idle.write_queue))
    × (length (send_batch idle packets).write_queue ≤ length idle.write_queue + 1)
send_batch_lem_example = send_batch_lem idle packets (omega arith, (omega arith, tt))

-- A packet of two bytes and a header of 0.
abbrev stream : Bytes
stream = 2 ∷ 0 ∷ 0 ∷ 0 ∷ 5 ∷ 6 ∷ 0 ∷ 0 ∷ 0 ∷ 0 ∷ []

read_loop-bodies_example :
    All IsBody (read_loop 11 stream).0 × ((read_loop 11 stream).1 ≢ out_of_fuel)
read_loop-bodies_example = read_loop-bodies 11 stream (omega arith)

abbrev manager : Manager ℕ
manager = record { active_sessions = (1, idle) ∷ []; pushed = some [] }

remove_session-twice_example :
    remove_session (remove_session manager 1 5) 1 6 ≡ remove_session manager 1 5
remove_session-twice_example = remove_session-twice manager 1 5 6

abbrev fresh_server : Server ℕ
fresh_server = record {
  manager = some (record { active_sessions = []; pushed = some [] });
  next_session_id = 0;
}

abbrev last_server : Server ℕ
last_server = on_session_disconnected_internal (accept (accept fresh_server).1).1 idle 5

Served-IsBounded_example : IsBounded last_server.manager
Served-IsBounded_example =
    Served-IsBounded (disconnects idle 5 (accepts (accepts (start (some [])))))

-- Packets of one byte, which is their id, with a table of one number.
abbrev accessors : Accessors ℕ
accessors = record {
  verified = λ bytes. some (record { id = head_or 0 bytes; table = some 9 });
  input_flags = λ d. d;
  sequence_number = λ d. d;
  zone_id = λ d. d;
}

abbrev processor : Processor ℕ
processor = record { packet_manager = some []; has_game_logic_queue = true }

abbrev job : Job
job = record {
  session = record { session_id = 1; player_id = 7 };
  packet_buffer = 10 ∷ [];
  is_shutdown_signal = false;
}

work-IsOwnEffect_example : IsOwnEffect {F = ℕ} {H = ℕ} job.session (work accessors processor job)
work-IsOwnEffect_example = work-IsOwnEffect ℕ ℕ accessors processor job

registered : register_handler {H = ℕ} [] 4 (some 40) ≡ some ((4, 40) ∷ [])
unfolding register_handler find
registered = refl

parse_chat-message_with_player_example :
    parse_chat (message_with_player 7 (b'a' ∷ b'|' ∷ [])) ≡ some (to_int64 7, b'a' ∷ b'|' ∷ [])
parse_chat-message_with_player_example =
    parse_chat-message_with_player 7 (b'a' ∷ b'|' ∷ []) (omega arith)

-- A queue of one producer is a list.
abbrev from_front : List ℕ → Option (ℕ × List ℕ)
from_front [] = none
from_front (x ∷ xs) = some (x, xs)

abbrev fifo : ConcurrentQueue ℕ (List ℕ)
fifo = record { empty = []; enqueue = λ x q. q ++ x ∷ []; try_dequeue = from_front }

front_none : (q : List ℕ) → from_front q ≡ none → q ≡ []
front_none [] h = refl
front_none (x ∷ q) h = cc

front_some : (q r : List ℕ) (x : ℕ) → from_front q ≡ some (x, r) → q ≡ x ∷ r
front_some [] r x h = cc
front_some (y ∷ q) r x h = cc

last_first : (x : ℕ) (q : List ℕ) → Permᴰ (q ++ x ∷ []) (x ∷ q)
last_first x q = subst (λ r. Permᴰ (q ++ x ∷ []) (x ∷ r)) (append-nil q) (Perms.middle x q [])

abbrev fifo_laws : QueueLaws fifo
fifo_laws = record {
  items = λ q. q;
  items-empty = refl;
  items_none = front_none;
  items_some = front_some;
  items-enqueue = last_first;
}

abbrev jobs : Queue (List ℕ)
jobs = record { queue = 1 ∷ 2 ∷ 3 ∷ []; shutting_down = false }

pop-Popped_example : Popped fifo fifo_laws jobs (pop fifo 0 false jobs)
pop-Popped_example = pop-Popped fifo fifo_laws 0 jobs refl

pop-shutting_down_example :
    (r : Queue (List ℕ)) × (pop fifo 0 true jobs ≡ some (2, r)) × (r.queue ≡ 3 ∷ [])
pop-shutting_down_example = pop-shutting_down fifo fifo_laws 0 1 (2 ∷ 3 ∷ []) jobs true refl refl
