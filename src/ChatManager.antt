-- ===== src/ChatManager.antt =====
-- src/Game/Managers/ChatManager.cpp and src/Game/PacketHandlers/ChatPacketHandler.cpp: the sessions
-- that the chat manager knows, and the handler. `std::map` keeps its strings in order.
use cpp_mmo.Base.{ℕ, Bool, Option, none, some, List, [], ◌∷◌, map, ltb, ◌==◌, if◌then◌else◌}
use cpp_mmo.Base.Int.{ℤ}
use cpp_mmo.Base.Text.{Text, to_string}
use cpp_mmo.Network.Session.{Session}
use cpp_mmo.Jobs.{c_chat}
use cpp_mmo.Chat.{message_with_player, parse_chat}

pub data Ordering : Type 0 where
  less equal greater : Ordering

-- `std::string::compare`
unfoldable pub compare : Text → Text → Ordering
compare [] [] = equal
compare [] (y ∷ ys) = less
compare (x ∷ xs) [] = greater
compare (x ∷ xs) (y ∷ ys) =
    let rest = compare xs ys in if ltb x y then less else if ltb y x then greater else rest

abbrev pub by_order : {A : Type 0} → Ordering → A → A → A → A
by_order less x y z = x
by_order equal x y z = y
by_order greater x y z = z

abbrev pub Sessions : Type 0
Sessions = List (Text × Session)

unfoldable pub find_session : Text → Sessions → Option Session
unfolding compare
find_session k [] = none
find_session k ((j, s) ∷ m) =
    let rest = find_session k m in by_order (compare k j) rest (some s) rest

-- `m[k] = s`
unfoldable pub store_session : Text → Session → Sessions → Sessions
unfolding compare
store_session k s [] = (k, s) ∷ []
store_session k s ((j, t) ∷ m) =
    let rest = store_session k s m in
    by_order (compare k j) ((k, s) ∷ (j, t) ∷ m) ((j, s) ∷ m) ((j, t) ∷ rest)

-- `m.erase(k)`
unfoldable pub erase_session : Text → Sessions → Sessions
unfolding compare
erase_session k [] = []
erase_session k ((j, t) ∷ m) =
    let rest = erase_session k m in by_order (compare k j) ((j, t) ∷ rest) rest ((j, t) ∷ rest)

unfoldable pub on_session_connected : Sessions → Session → Sessions
unfolding store_session to_string
on_session_connected m s = store_session (to_string s.session_id) s m

unfoldable pub on_chat_disconnected : Sessions → Session → Sessions
unfolding erase_session to_string
on_chat_disconnected m s = erase_session (to_string s.session_id) m

-- A call of `Send` with an S_Chat packet.
pub record ChatSent : Type 0 where
  pub session_id : ℕ
  pub player_id : ℤ
  pub message : Text

-- The calls of `Send` for the connected sessions with a player id and a message, if these are read.
unfoldable pub send_chat : Sessions → Option (ℤ × Text) → List ChatSent
send_chat sessions none = []
send_chat sessions (some (id, words)) =
    map (λ e. record { session_id = e.1.session_id; player_id = id; message = words }) sessions

unfoldable pub handle_redis_chat_message : Sessions → Text → List ChatSent
unfolding parse_chat send_chat
handle_redis_chat_message sessions text = send_chat sessions (parse_chat text)

-- What the handler publishes, if it does: the packet's id, its C_Chat table, and the message there
-- may each fail the test. `named`: whether `GetRemoteEndpoint()`, which the log prints before, gives the
-- peer; it throws where the socket has been closed.
unfoldable pub handle_chat : Bool → Option Session → ℕ → Option (Option Text) → Option Text
unfolding message_with_player
handle_chat named none packet_id packet = none
handle_chat named (some s) packet_id packet =
    if packet_id == c_chat
    then elim packet [
      | none ↦ none
      | some message ↦ elim message [
        | none ↦ none
        | some words ↦ if named then some (message_with_player s.player_id words) else none
      ]
    ]
    else none
