-- ===== src/Network/Manager.antt =====
-- src/Network/SessionManager.cpp, and of TcpServer.cpp what `AcceptLoop` and
-- `OnSessionDisconnectedInternal` do with the sessions.
use cpp_mmo.Base.{
  ℕ, ◌+◌, ◌%◌, ◌^◌, Bool, false, Option, none, some, List, [], ◌∷◌, ◌++◌, map, leb, ◌==◌,
  if◌then◌else◌, length,
}
use cpp_mmo.Base.Dict.{Dict, find, store, erase}
use cpp_mmo.Command.{GameCommand, player_disconnect}
use cpp_mmo.Network.Session.{Session, new_session, set_on_disconnected_callback}

pub record Manager (F : Type 0) : Type 0 where
  pub active_sessions : Dict Session
  -- Null, or the calls of `PushGameCommand` so far.
  pub pushed : Option (List (GameCommand F))

module _ {F : Type 0} where
  unfoldable pub add_session : Manager F → Session → Manager F
  add_session m s = record m { active_sessions = store s.session_id s m.active_sessions }

  unfoldable pub get_session : Manager F → ℕ → Option Session
  get_session m id = find id m.active_sessions

  unfoldable get_active_session_count : Manager F → ℕ
  get_active_session_count m = length m.active_sessions

  unfoldable get_all_sessions : Manager F → List Session
  get_all_sessions m = map (λ e. e.1) m.active_sessions

  unfoldable pub disconnect_command : Session → ℕ → GameCommand F
  disconnect_command s now = record {
    command_id = 0;
    payload = player_disconnect (record { player_id = s.player_id });
    sender_session_id = s.session_id;
    timestamp = now;
  }

  unfoldable push_game_command :
      Option (List (GameCommand F)) → GameCommand F → Option (List (GameCommand F))
  push_game_command none c = none
  push_game_command (some cs) c = some (cs ++ c ∷ [])

  unfoldable pub on_session_disconnected : Manager F → Session → ℕ → Manager F
  unfolding disconnect_command push_game_command
  on_session_disconnected m s now =
      if s.player_id == 0
      then m
      else record m { pushed = push_game_command m.pushed (disconnect_command s now) }

  unfoldable pub remove_session : Manager F → ℕ → ℕ → Manager F
  unfolding on_session_disconnected
  remove_session m id now = elim (find id m.active_sessions) [
    | none ↦ m
    | some s ↦
        on_session_disconnected (record m { active_sessions = erase id m.active_sessions }) s now
  ]

abbrev pub max_concurrent_connections : ℕ
max_concurrent_connections = 600

pub record Server (F : Type 0) : Type 0 where
  pub manager : Option (Manager F)
  -- `Session::s_nextSessionId`
  pub next_session_id : ℕ

module _ {F : Type 0} where
  -- `m_sessionManager && m_sessionManager->GetActiveSessionCount() >= MAX_CONCURRENT_CONNECTIONS`
  abbrev pub is_full : Option (Manager F) → Bool
  is_full none = false
  is_full (some m) = leb max_concurrent_connections (length m.active_sessions)

  -- A round of `AcceptLoop`: the session that it makes, if it does.
  unfoldable pub accept : Server F → Option Session × Server F
  unfolding new_session set_on_disconnected_callback add_session
  accept server =
      let session = set_on_disconnected_callback (new_session server.next_session_id) in
      let next = (server.next_session_id + 1) % 2 ^ 64 in
      if is_full server.manager then (none, server) else elim server.manager [
        | none ↦ (some session, record server { next_session_id = next })
        | some m ↦ (
          some session,
          record { manager = some (add_session m session); next_session_id = next },
        )
      ]

  -- The manager's part of the callback of a session that disconnects.
  unfoldable pub on_session_disconnected_internal : Server F → Session → ℕ → Server F
  unfolding remove_session
  on_session_disconnected_internal server s now = elim server.manager [
    | none ↦ server
    | some m ↦ record server { manager = some (remove_session m s.session_id now) }
  ]
