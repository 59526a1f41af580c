-- ===== src/Online.antt =====
-- The sessions of src/Network/TcpServer.cpp with its two callbacks, which src/Game/Managers/ChatManager.cpp
-- sets: the session manager and the chat manager each keep a map of the sessions.
use cpp_mmo.Base.{ℕ, ◌+◌, ◌%◌, ◌^◌, ◌<◌, Option, none, some, List, [], if◌then◌else◌}
use cpp_mmo.Command.{GameCommand}
use cpp_mmo.Network.Session.{Session, new_session, set_on_disconnected_callback}
use cpp_mmo.Network.Manager.{
  Manager, add_session, is_full, Server, on_session_disconnected_internal,
}
use cpp_mmo.ChatManager.{Sessions, on_session_connected, on_chat_disconnected}

pub record Online (F : Type 0) : Type 0 where
  pub server : Server F
  pub chat : Sessions

module _ {F : Type 0} where
  -- The server once it has started, with no session.
  abbrev pub nobody : Option (List (GameCommand F)) → Online F
  nobody queue = record {
    server = record {
      manager = some (record { active_sessions = []; pushed = queue });
      next_session_id = 0;
    };
    chat = [];
  }

  -- A round of `AcceptLoop` up to `session->Start()`: the session that it makes, if it does.
  unfoldable pub make_session : Online F → Option Session × Online F
  unfolding new_session set_on_disconnected_callback
  make_session o = if is_full o.server.manager then (none, o) else (
    some (set_on_disconnected_callback (new_session o.server.next_session_id)),
    record o {
      server = record o.server { next_session_id = (o.server.next_session_id + 1) % 2 ^ 64 };
    },
  )

  abbrev pub add_to : Option (Manager F) → Session → Option (Manager F)
  add_to none s = none
  add_to (some m) s = some (add_session m s)

  -- The rest of the round: the session is added, and the callback is called.
  unfoldable pub announce_session : Online F → Session → Online F
  unfolding add_session on_session_connected
  announce_session o s = record {
    server = record o.server { manager = add_to o.server.manager s };
    chat = on_session_connected o.chat s;
  }

  abbrev announce_made : Option Session × Online F → Online F
  announce_made (none, o) = o
  announce_made (some s, o) = announce_session o s

  -- A round in which nothing comes between its two parts.
  unfoldable pub accept_session : Online F → Online F
  unfolding make_session announce_session
  accept_session o = announce_made (make_session o)

  -- `OnSessionDisconnectedInternal`, with its callback.
  unfoldable pub drop_session : Online F → Session → ℕ → Online F
  unfolding on_session_disconnected_internal on_chat_disconnected
  drop_session o s now = record {
    server = on_session_disconnected_internal o.server s now;
    chat = on_chat_disconnected o.chat s;
  }

  -- Rounds of `AcceptLoop`, and sessions that disconnect between them.
  pub data Reached : Online F → Type 0 where
    starts : (queue : Option (List (GameCommand F))) → Reached (nobody queue)
    accepts : {o : Online F} → Reached o → Reached (accept_session o)
    -- The constructor of the session throws after it has taken its id.
    skips : {o : Online F} → Reached o → Reached (make_session o).1
    drops :
        {o : Online F} (s : Session) (now : ℕ)
        → s.session_id < 2 ^ 64
        → Reached o
        → Reached (drop_session o s now)
