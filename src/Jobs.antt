-- ===== src/Jobs.antt =====
-- src/Network/PacketManager.cpp and src/Utils/JobProcessor.cpp: from a packet's bytes to a handler
-- or to a game command. FlatBuffers is an argument: the verifier with the access to the root, and
-- the fields of a table, read as the kind of table that the packet id says.
pub mod Crew
pub mod Stopping
use cpp_mmo.Base.{
  ℕ, ◌+◌, Bool, true, false, ◌||◌, Option, none, some, List, [], ◌∷◌, ◌++◌, ◌==◌, if◌then◌else◌,
}
use cpp_mmo.Base.Dict.{Dict, find, erase, has_some}
use cpp_mmo.Float.{FloatOps}
use cpp_mmo.Vector.{origin}
use cpp_mmo.Command.{GameCommand, Payload, player_input, enter_zone}

-- `Protocol::PacketId`, as protocol.fbs numbers it.
abbrev pub c_login : ℕ
c_login = 1

abbrev s_login_success : ℕ
s_login_success = 2

abbrev s_login_failure : ℕ
s_login_failure = 3

abbrev pub c_chat : ℕ
c_chat = 4

abbrev s_chat : ℕ
s_chat = 5

abbrev pub c_player_input : ℕ
c_player_input = 10

abbrev pub c_enter_zone : ℕ
c_enter_zone = 20

-- The handlers of a packet manager, by packet id.
module _ {H : Type 0} where
  -- `emplace` leaves a handler that is there; `none` for the exception on a null handler.
  unfoldable pub register_handler : Dict H → ℕ → Option H → Option (Dict H)
  register_handler handlers id none = none
  register_handler handlers id (some h) =
      if has_some (find id handlers) then some handlers else some (handlers ++ (id, h) ∷ [])

  unfoldable pub unregister_handler : Dict H → ℕ → Dict H
  unregister_handler handlers id = erase id handlers

  -- The handler that `DispatchPacket` calls.
  unfoldable pub dispatch_packet : Dict H → ℕ → Option H
  dispatch_packet handlers id = find id handlers

-- What a worker uses of the job's session.
pub record JobSession : Type 0 where
  pub session_id : ℕ
  pub player_id : ℕ

pub record Job : Type 0 where
  pub session : JobSession
  pub packet_buffer : List ℕ
  pub is_shutdown_signal : Bool

-- `HandlePacket`: the job that it pushes.
unfoldable handle_packet : JobSession → List ℕ → Job
handle_packet session packet = record {
  session = session;
  packet_buffer = packet;
  is_shutdown_signal = false;
}

-- A verified packet: its id, and the table of its union, which may be null.
pub record UnifiedPacket (D : Type 0) : Type 0 where
  pub id : ℕ
  pub table : Option D

-- The fields that the accessors of the generated code give.
pub record Accessors (D : Type 0) : Type 0 where
  -- `VerifyUnifiedPacketBuffer` and then `GetUnifiedPacket`.
  pub verified : List ℕ → Option (UnifiedPacket D)
  pub input_flags : D → ℕ
  pub sequence_number : D → ℕ
  pub zone_id : D → ℕ

-- What a worker does with a job.
pub data Effect (F H : Type 0) : Type 0 where
  exits : Effect F H
  -- Nothing but a line in the log.
  logs : Effect F H
  dispatches : H → Effect F H
  pushes : GameCommand F → Effect F H

pub record Processor (H : Type 0) : Type 0 where
  -- `m_packetManager`, which may be null, by its handlers.
  pub packet_manager : Option (Dict H)
  pub has_game_logic_queue : Bool

unfoldable pub is_non_game_packet : ℕ → Bool
is_non_game_packet id =
    id == c_login
    || (id == s_login_success || (id == s_login_failure || (id == c_chat || id == s_chat)))

-- A command of the session with the default time, 0.
abbrev command_from : {F : Type 0} → JobSession → Payload F → GameCommand F
command_from s payload = record {
  command_id = 0;
  payload = payload;
  sender_session_id = s.session_id;
  timestamp = 0;
}

abbrev pub dispatched : {F H : Type 0} → Option H → Effect F H
dispatched none = logs
dispatched (some h) = dispatches h

module _ {F D H : Type 0} ⦃fl : FloatOps F⦄ (accessors : Accessors D) where
  -- The switch over the in-game packets. The fields that it does not set keep their defaults.
  unfoldable pub game_packet : JobSession → ℕ → Option D → Effect F H
  unfolding origin
  game_packet s id none = logs
  game_packet s id (some table) =
      if id == c_player_input
      then pushes (
          command_from s (
            player_input (record {
              player_id = s.player_id;
              tick_number = 0;
              client_time = 0;
              input_flags = accessors.input_flags table;
              mouse_position = origin;
              sequence_number = accessors.sequence_number table;
              session_id = 0;
            })))
      else if id == c_enter_zone
      then pushes (
          command_from s (
            enter_zone (record {
              player_id = s.player_id;
              zone_id = accessors.zone_id table;
              session_id = s.session_id;
            })))
      else logs

  unfoldable pub process_job_packet : Processor H → JobSession → UnifiedPacket D → Effect F H
  unfolding is_non_game_packet dispatch_packet game_packet
  process_job_packet p s packet =
      if is_non_game_packet packet.id
      then elim p.packet_manager [
        | none ↦ logs
        | some handlers ↦ dispatched (dispatch_packet handlers packet.id)
      ]
      else if p.has_game_logic_queue
      then game_packet s packet.id packet.table
      else logs

  -- A round of `WorkerLoop` on the job that it popped.
  unfoldable pub work : Processor H → Job → Effect F H
  unfolding process_job_packet
  work p job = if job.is_shutdown_signal then exits else elim job.packet_buffer [
    | [] ↦ logs
    | b ∷ bs ↦ elim (accessors.verified (b ∷ bs)) [
      | none ↦ logs
      | some packet ↦ process_job_packet p job.session packet
    ]
  ]

-- The threads of a `JobProcessor`.
pub record Workers : Type 0 where
  pub running : Bool
  pub worker_threads : ℕ

unfoldable pub start : Workers → ℕ → Workers
start w num_threads =
    if w.running
    then w
    else record { running = true; worker_threads = w.worker_threads + num_threads }

-- The workers after `Stop`, and how many shutdown signals it pushed.
unfoldable pub stop : Workers → Workers × ℕ
stop w = if w.running then (record w { worker_threads = 0 }, w.worker_threads) else (w, 0)
