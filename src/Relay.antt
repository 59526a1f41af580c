-- ===== src/Relay.antt =====
-- The chat from end to end: ChatPacketHandler.cpp publishes through RedisChatService.cpp, and its
-- thread hands what Redis delivers to ChatManager.cpp. Redis keeps the order of a channel, and holds
-- for a subscriber what is published while it has subscribed.
use cpp_mmo.Base.{
  true, ℕ, ◌^◌, ◌<◌, ◌≡◌, Bool, false, none, some, List, [], ◌∷◌, ◌++◌, if◌then◌else◌,
}
use cpp_mmo.Base.Text.{Text}
use cpp_mmo.Network.Session.{Session}
use cpp_mmo.Jobs.{c_chat}
use cpp_mmo.ChatManager.{
  Sessions, on_session_connected, on_chat_disconnected, ChatSent, handle_redis_chat_message,
  handle_chat,
}
use cpp_mmo.Redis.{
  consuming, RedisChatService, new_service, Answer, publish, returns, throws, consume_round,
  consume_reply, initialize, shutdown_chat,
}

pub record Chatting : Type 0 where
  pub service : RedisChatService
  pub sessions : Sessions
  -- The texts that Redis holds for the subscriber.
  pub waiting : List Text
  -- The calls of `Send`.
  pub sent : List ChatSent
  -- The player and the words of each text that Redis has taken for the subscriber.
  pub heard : List (ℕ × Text)
  -- The sessions that were connected when a text was handled, for each of these texts.
  pub rounds : List Sessions

unfoldable pub quiet : Chatting
unfolding new_service
quiet = record {
  service = new_service;
  sessions = [];
  waiting = [];
  sent = [];
  heard = [];
  rounds = [];
}

-- Whether Redis holds texts for the subscriber: the last request was to subscribe.
unfoldable pub last_request : Bool → List (Bool × Text) → Bool
last_request b [] = b
last_request b ((r, channel) ∷ rs) = last_request r rs

unfoldable pub hold : Chatting → ℕ × Text → Text → Chatting
unfolding last_request
hold c said text =
    if last_request false c.service.requests
    then record c { waiting = c.waiting ++ text ∷ []; heard = c.heard ++ said ∷ [] }
    else c

-- A session says words, and its endpoint is known: the handler runs, and publishes.
unfoldable pub say : Chatting → Session → Text → Bool → Chatting
unfolding handle_chat publish hold
say c sender words accepts = elim (handle_chat true (some sender) c_chat (some (some words))) [
  | none ↦ c
  | some text ↦ if publish c.service accepts then hold c (sender.player_id, words) text else c
]

-- The callback for each text.
unfoldable pub relay : Sessions → List Text → List ChatSent
unfolding handle_redis_chat_message
relay m [] = []
relay m (text ∷ texts) = handle_redis_chat_message m text ++ relay m texts

-- The thread takes the first of the texts that wait.
unfoldable pub take_text : Chatting → Text → List Text → Chatting
unfolding consume_round relay
take_text c text rest =
    let (texts, r) = consume_round c.service (some text) in
    record c {
      service = r;
      waiting = rest;
      sent = c.sent ++ relay c.sessions texts;
      rounds = c.rounds ++ c.sessions ∷ [];
    }

-- `Initialize` runs once, and `Shutdown` at the end.
pub data Step (c : Chatting) : Chatting → Type 0 where
  initializes :
      (answer : Answer) (accepts : Bool) (r : RedisChatService)
      → initialize answer accepts c.service ≡ returns r
      → Step c (record c { service = r })
  fails :
      (answer : Answer) (accepts : Bool) (r : RedisChatService)
      → initialize answer accepts c.service ≡ throws r
      → Step c (record c { service = r })
  shuts :
      (comes accepts : Bool) (r : RedisChatService)
      → shutdown_chat c.service comes accepts ≡ some (returns r)
      → Step c (record c { service = r })
  shuts_failing :
      (comes accepts : Bool) (r : RedisChatService)
      → shutdown_chat c.service comes accepts ≡ some (throws r)
      → Step c (record c { service = r })
  connects :
      (s : Session)
      → s.session_id < 2 ^ 64
      → Step c (record c { sessions = on_session_connected c.sessions s })
  disconnects : (s : Session) → Step c (record c { sessions = on_chat_disconnected c.sessions s })
  says :
      (sender : Session) (words : Text) (accepts : Bool)
      → sender.player_id < 2 ^ 64
      → Step c (say c sender words accepts)
  takes :
      (text : Text) (rest : List Text)
      → c.service.thread ≡ consuming
      → c.waiting ≡ text ∷ rest
      → Step c (take_text c text rest)
  confirms :
      c.service.thread ≡ consuming
      → 0 < c.service.replies
      → Step c (record c { service = consume_reply c.service })
  loses :
      c.service.thread ≡ consuming
      → Step c (record c { service = (consume_round c.service none).1 })

pub data Reached : Chatting → Type 0 where
  starts : Reached quiet
  continues : {c d : Chatting} → Reached c → Step c d → Reached d
