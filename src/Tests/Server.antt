-- ===== src/Tests/Server.antt =====
-- The theorems on the start, the configuration and Redis at small inputs.
use cpp_mmo.Base.{ℕ, ◌≡◌, ◌↔◌, refl, true, false, none, some, List, [], ◌∷◌, arith}
use cpp_mmo.Base.Int.{pos}
use cpp_mmo.Base.Text.{Text, to_string}
use cpp_mmo.Network.Session.{Session}
use cpp_mmo.Game.Settings.{Document, missing}
use cpp_mmo.Chat.{message_with_player, to_int64, to_string_ℤ}
use cpp_mmo.ChatManager.{on_session_connected, handle_chat}
use cpp_mmo.Redis.{
  consuming, RedisChatService, new_service, reachable, connect, disconnect, returns, start_thread,
  subscribe, consume_reply, Result, chat_channel, initialize, subscribe_connected, publish,
}
use cpp_mmo.Relay.{
  Chatting, Reached, starts, continues, initializes, connects, says, takes, quiet, say, hold,
  last_request, take_text,
}
use cpp_mmo.Relayed.{IsRelayed, Reached-IsRelayed}
use cpp_mmo.Subscription.{Served, HasEnded, disconnect_lem}
use cpp_mmo.Subscription
use cpp_mmo.Lifecycle.{Surroundings, finishes, options, absent}
use cpp_mmo.Online.{nobody, accept_session}
use cpp_mmo.Accepting.{
  Arrival, Event, arrives, leaves, going, accept_loop, IsLess, accept_loop-is_unnamed,
}
use cpp_mmo.Tests.Scaled.{scaled}

-- A file without the object of the last field.
abbrev no_performance : Document ℕ
no_performance = record {
  aoi_range = some 90;
  chat_range = some 40;
  move_speed = some 6;
  tick_rate = some (pos 60);
  map_width = some 300;
  map_height = some 300;
  performance = missing;
}

abbrev defaults : Surroundings
defaults = record {
  command_line = options (pos 2) (pos 4);
  server_file = absent;
  game_constructed = true;
  server_constructed = true;
  listens = true;
  thread_limit = 100;
  run = finishes;
  redis = reachable;
  subscribes = true;
}

-- The service once `Initialize` has returned.
abbrev listening : RedisChatService
listening = record {
  has_redis = true;
  has_subscriber = true;
  requests = (true, chat_channel) ∷ [];
  replies = 1;
  thread = consuming;
  running = true;
}

initialized : initialize reachable true new_service ≡ returns listening
unfolding initialize connect subscribe_connected subscribe start_thread new_service
initialized = refl

subscribed : subscribe (connect reachable new_service).1 chat_channel true ≡ returns listening
unfolding connect subscribe start_thread new_service
subscribed = refl

-- The thread has taken the confirmation, and no text comes.
abbrev quiet_service : RedisChatService
quiet_service = consume_reply listening

disconnect_lem_example :
    ((disconnect quiet_service false true ≡ none)
      ↔ (quiet_service.thread ≡ consuming) × (quiet_service.replies ≡ 0) × (false ≡ false))
    × ((result : Result) → disconnect quiet_service false true ≡ some result → HasEnded result)
disconnect_lem_example = disconnect_lem false true (
    Subscription.confirms refl (omega arith) (
      Subscription.subscribes chat_channel true subscribed
        (Subscription.connects reachable Subscription.starts)))

abbrev alice : Session
alice = record {
  session_id = 3;
  player_id = 7;
  is_open = true;
  read_header = [];
  read_body = [];
  write_queue = [];
  has_callback = true;
}

-- A session connects and says a word, which the thread handles.
abbrev word : Text
word = b'h' ∷ b'i' ∷ []

abbrev relayed : Chatting
relayed =
    take_text
      (say
        (record {
          service = listening;
          sessions = on_session_connected [] alice;
          waiting = [];
          sent = [];
          heard = [];
          rounds = [];
        })
        alice word true)
      (b'7' ∷ b'|' ∷ word) []

relayed_reached : Reached relayed
unfolding quiet say hold last_request publish handle_chat message_with_player to_int64 to_string_ℤ
    to_string
relayed_reached =
    continues
      (continues
        (continues (continues starts (initializes reachable true listening initialized))
          (connects alice (omega arith)))
        (says alice word true (omega arith)))
      (takes (b'7' ∷ b'|' ∷ word) [] refl refl)

Reached-IsRelayed_example : IsRelayed relayed
Reached-IsRelayed_example = Reached-IsRelayed relayed_reached

-- Two sessions connect, the first disconnects, and a peer resets its connection at once.
abbrev good : Arrival
good = record {
  accept_fails = false;
  is_unnamed = false;
  close_fails = false;
  options_fail = false;
  session_fails = false;
  callback_fails = false;
}

abbrev reset : Arrival
reset = record good { is_unnamed = true }

abbrev events : List Event
events =
    arrives good
    ∷ arrives good
    ∷ leaves (record alice { session_id = 0; player_id = 0 }) 5
    ∷ arrives (record good { session_fails = true })
    ∷ []

accept_loop-is_unnamed_example :
    IsLess {F = ℕ}
      (going (accept_session (nobody (some []))))
      (accept_loop (going (accept_session (nobody (some [])))) (arrives reset ∷ events))
accept_loop-is_unnamed_example =
    accept_loop-is_unnamed (going (accept_session (nobody (some [])))) reset events refl
