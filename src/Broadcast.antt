-- ===== src/Broadcast.antt =====
-- Theorems on the chat from a session to the sessions, ChatPacketHandler.cpp and ChatManager.cpp.
use cpp_mmo.Base.{
  true, ℕ, ◌^◌, ◌<◌, ◌≡◌, refl, ap, sym, ◌∙◌, inl, inr, Option, none, some, List, [], ◌∷◌, map,
  arith, Bool-cases, ◌==◌, ==_iff, if◌then◌else◌, All,
}
use cpp_mmo.Base.Int.{ℤ}
use cpp_mmo.Base.Text.{Text, to_string}
use cpp_mmo.Network.Session.{Session}
use cpp_mmo.Jobs.{c_chat}
use cpp_mmo.ChatMap.{
  IsOrdered, store_session-IsOrdered, erase_session-IsOrdered, find_session-above,
  store_session-All, erase_session-All, compare_refl, compare_equal, to_string_injective, found_at,
  find_session-store_session, find_session-erase_session,
}
use cpp_mmo.Chat.{to_int64, message_with_player}
use cpp_mmo.ChatText.{parse_chat-message_with_player}
use cpp_mmo.ChatManager.{
  Ordering, less, equal, greater, compare, Sessions, find_session, on_session_connected,
  on_chat_disconnected, ChatSent, handle_redis_chat_message, send_chat, handle_chat,
}

-- An entry's key is the number of its session, which is a `uint64_t`.
abbrev pub IsNamed : Text × Session → Type 0
IsNamed (k, s) = (k ≡ to_string s.session_id) × (s.session_id < 2 ^ 64)

-- The sessions of the chat manager: sessions connect and disconnect.
pub data Connected : Sessions → Type 0 where
  initially : Connected []
  connects :
      {m : Sessions} (s : Session)
      → s.session_id < 2 ^ 64
      → Connected m
      → Connected (on_session_connected m s)
  disconnects : {m : Sessions} (s : Session) → Connected m → Connected (on_chat_disconnected m s)

Connected-IsOrdered : {m : Sessions} → Connected m → IsOrdered m × All IsNamed m
unfolding on_session_connected on_chat_disconnected
Connected-IsOrdered initially = (tt, tt)
Connected-IsOrdered (connects {m} s small before) =
    let (ordered, named) = Connected-IsOrdered before in
    (
      store_session-IsOrdered (to_string s.session_id) s m ordered,
      store_session-All IsNamed (to_string s.session_id) s m
          (λ j e. (sym (compare_equal (to_string s.session_id) j e), small)) (refl, small) named,
    )
Connected-IsOrdered (disconnects {m} s before) =
    let (ordered, named) = Connected-IsOrdered before in
    (
      erase_session-IsOrdered (to_string s.session_id) m ordered,
      erase_session-All IsNamed (to_string s.session_id) m named,
    )

found_at_other : (o : Ordering) (x y : Option Session) → ¬ (o ≡ equal) → found_at o x y ≡ y
found_at_other less x y h = refl
found_at_other equal x y h = absurd (h refl)
found_at_other greater x y h = refl

-- Whether two keys of sessions are the same.
compare-to_string :
    (a b : ℕ) (x y : Option Session)
    → a < 2 ^ 64
    → b < 2 ^ 64
    → found_at (compare (to_string a) (to_string b)) x y ≡ (if a == b then x else y)
compare-to_string a b x y ha hb = elim (Bool-cases (a == b)) [
  | inl same ↦
      let e : a ≡ b = (==_iff a b).0 same in
      let f : compare (to_string a) (to_string b) ≡ equal =
        ap (λ c. compare (to_string a) (to_string c)) (sym e) ∙ compare_refl (to_string a) in
      simp (same, f) refl
  | inr other ↦
      let apart : ¬ (compare (to_string a) (to_string b) ≡ equal) = λ f.
        let e = to_string_injective a b ha hb (compare_equal _ _ f) in
        let never : ⊥ = ground arith in absurd never in
      simp other (found_at_other _ x y apart)
]

-- For session ids that fit in 64 bits: a session that connects is found by its id, one that
-- disconnects is not, and the others are found as before.
pub find_session_lem :
    (m : Sessions) (s : Session) (id : ℕ)
    → s.session_id < 2 ^ 64
    → id < 2 ^ 64
    → (find_session (to_string id) (on_session_connected m s)
        ≡ (if id == s.session_id then some s else find_session (to_string id) m))
      × (find_session (to_string id) (on_chat_disconnected m s)
          ≡ (if id == s.session_id then none else find_session (to_string id) m))
unfolding on_session_connected on_chat_disconnected
find_session_lem m s id hs hid = (
  find_session-store_session (to_string id) (to_string s.session_id) s m
      ∙ compare-to_string id s.session_id _ _ hid hs,
  find_session-erase_session (to_string id) (to_string s.session_id) m
      ∙ compare-to_string id s.session_id _ _ hid hs,
)

-- The calls of `Send` on a session.
unfoldable pub sent_to : ℕ → List ChatSent → List ChatSent
sent_to q [] = []
sent_to q (p ∷ ps) = let rest = sent_to q ps in if q == p.session_id then p ∷ rest else rest

abbrev pub chat_packet : ℕ → ℤ → Text → ChatSent
chat_packet q id words = record { session_id = q; player_id = id; message = words }

abbrev packets : ℤ → Text → Sessions → List ChatSent
packets id words m = map (λ e. chat_packet (e.1).session_id id words) m

abbrev pub once : ChatSent → Option Session → List ChatSent
once p none = []
once p (some s) = p ∷ []

sent_to-packets :
    (q : ℕ) (id : ℤ) (words : Text) (m : Sessions)
    → q < 2 ^ 64
    → IsOrdered m
    → All IsNamed m
    → sent_to q (packets id words m) ≡ once (chat_packet q id words) (find_session (to_string q) m)
unfolding sent_to find_session
sent_to-packets q id words [] small h named = refl
sent_to-packets q id words ((j, t) ∷ m) small (h, hs) ((name, fits), named) =
    elim (Bool-cases (q == t.session_id)) [
      | inl same ↦
          let e : q ≡ t.session_id = (==_iff q t.session_id).0 same in
          let key : to_string q ≡ j = ap to_string e ∙ sym name in
          let here : compare (to_string q) j ≡ equal = ap (λ k. compare k j) key ∙ compare_refl j in
          let gone : find_session (to_string q) m ≡ none =
            ap (λ k. find_session k m) key ∙ find_session-above j m h in
          let rest = sent_to-packets q id words m small hs named in
          simp (same, here, rest, gone) (ap (λ k. chat_packet k id words ∷ []) (sym e))
      | inr other ↦
          let skip =
            compare-to_string q t.session_id (some t) (find_session (to_string q) m) small fits in
          let rest = sent_to-packets q id words m small hs named in
          simp (other, rest)
            (ap (once (chat_packet q id words)) (
              sym (
                ap (λ k. found_at (compare (to_string q) k) (some t) (find_session (to_string q) m))
                  name
                ∙ skip
                ∙ simp other refl)))
    ]

-- What the manager sends to a session for a text that the handler made.
pub sent_to-message_with_player :
    (m : Sessions) (id : ℕ) (words : Text) (q : ℕ)
    → Connected m
    → id < 2 ^ 64
    → q < 2 ^ 64
    → sent_to q (handle_redis_chat_message m (message_with_player id words))
      ≡ once (chat_packet q (to_int64 id) words) (find_session (to_string q) m)
unfolding handle_redis_chat_message send_chat
sent_to-message_with_player m id words q connected player small =
    let (ordered, named) = Connected-IsOrdered connected in
    simp (parse_chat-message_with_player id words player)
      (sent_to-packets q (to_int64 id) words m small ordered named)

-- A chat message of a session, when the sessions of the chat manager are those that connected and
-- did not disconnect: the handler publishes a text, and for that text the manager sends the player's
-- id and the message exactly once to each of these sessions, and to no other.
sent_to-handle_chat :
    (m : Sessions) (sender : Session) (words : Text) (q : ℕ)
    → Connected m
    → sender.player_id < 2 ^ 64
    → q < 2 ^ 64
    → (text : Text) × (handle_chat true (some sender) c_chat (some (some words)) ≡ some text)
      × (sent_to q (handle_redis_chat_message m text)
          ≡ once (chat_packet q (to_int64 sender.player_id) words) (find_session (to_string q) m))
unfolding handle_chat
sent_to-handle_chat m sender words q connected player small = (
  message_with_player sender.player_id words,
  refl,
  sent_to-message_with_player m sender.player_id words q connected player small,
)
