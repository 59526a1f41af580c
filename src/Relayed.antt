-- ===== src/Relayed.antt =====
-- Theorems on the chat from end to end, Relay.
use mathlib.Core.List.{append-nil, append_assoc, map-append}
use cpp_mmo.Base.{
  ℕ, ◌^◌, ◌<◌, ◌≡◌, refl, sym, ap, ◌∙◌, inl, inr, Bool, false, none, List, [], ◌∷◌, ◌++◌, map,
  arith, Bool-cases, ◌==◌, All, All-append, length, length-append,
}
use mathlib.Core.Path.{subst}
use cpp_mmo.Base.Text.{Text, to_string}
use cpp_mmo.Network.Session.{Session}
use cpp_mmo.Chat.{to_int64, message_with_player}
use cpp_mmo.ChatManager.{Sessions, find_session, ChatSent, handle_redis_chat_message, handle_chat}
use cpp_mmo.Broadcast.{
  Connected, initially, sent_to, once, chat_packet, sent_to-message_with_player,
}
use cpp_mmo.Broadcast
use cpp_mmo.Redis.{RedisChatService, publish, consume_round, consume_reply}
use cpp_mmo.Relay.{
  shuts_failing, confirms, Chatting, quiet, last_request, hold, say, relay, take_text, Step,
  initializes, fails, shuts, connects, disconnects, says, takes, loses, Reached, starts, continues,
}

-- What the handler makes of the words of a player.
abbrev pub text_of : ℕ × Text → Text
text_of (id, words) = message_with_player id words

-- What session `q` gets for the texts, each with the sessions that are connected when it is handled:
-- one packet for a text if it is among them, and none otherwise.
unfoldable pub received : ℕ → List (ℕ × Text) → List Sessions → List ChatSent
received q [] ms = []
received q (x ∷ xs) [] = []
received q ((id, words) ∷ xs) (m ∷ ms) =
    once (chat_packet q (to_int64 id) words) (find_session (to_string q) m) ++ received q xs ms

pub record IsRelayed (c : Chatting) : Type 0 where
  -- The texts that the thread has taken, and those that still wait.
  pub done : List (ℕ × Text)
  pub pending : List (ℕ × Text)
  pub held : c.waiting ≡ map text_of pending
  pub split : c.heard ≡ done ++ pending
  pub count : length done ≡ length c.rounds
  pub connected : Connected c.sessions
  pub small : All (λ x. x.0 < 2 ^ 64) c.heard
  pub got : (q : ℕ) → q < 2 ^ 64 → sent_to q c.sent ≡ received q done c.rounds

sent_to-append :
    (q : ℕ) (xs ys : List ChatSent) → sent_to q (xs ++ ys) ≡ sent_to q xs ++ sent_to q ys
unfolding sent_to
sent_to-append q [] ys = refl
sent_to-append q (x ∷ xs) ys = elim (Bool-cases (q == x.session_id)) [
  | inl here ↦ simp (here, sent_to-append q xs ys) refl
  | inr other ↦ simp (other, sent_to-append q xs ys) refl
]

received-append_one :
    (q id : ℕ) (words : Text) (m : Sessions) (xs : List (ℕ × Text)) (ms : List Sessions)
    → length xs ≡ length ms
    → received q (xs ++ (id, words) ∷ []) (ms ++ m ∷ [])
      ≡ received q xs ms ++ once (chat_packet q (to_int64 id) words) (find_session (to_string q) m)
unfolding received
received-append_one q id words m [] [] e = append-nil _
received-append_one q id words m [] (n ∷ ms) e = absurd (omega (arith, e))
received-append_one q id words m (x ∷ xs) [] e = absurd (omega (arith, e))
received-append_one q id words m ((j, w) ∷ xs) (n ∷ ms) e =
    ap (λ ps. once (chat_packet q (to_int64 j) w) (find_session (to_string q) n) ++ ps)
      (received-append_one q id words m xs ms (omega (arith, e)))
    ∙ sym (
        append_assoc (once (chat_packet q (to_int64 j) w) (find_session (to_string q) n))
          (received q xs ms)
          (once (chat_packet q (to_int64 id) words) (find_session (to_string q) m)))

All-second :
    {A : Type 0} (P : A → Type 0) (xs : List A) (y : A) (ys : List A) → All P (xs ++ y ∷ ys) → P y
All-second P [] y ys (h, hs) = h
All-second P (x ∷ xs) y ys (h, hs) = All-second P xs y ys hs

hold-IsRelayed :
    {c : Chatting} (id : ℕ) (words : Text)
    → id < 2 ^ 64
    → IsRelayed c
    → IsRelayed (hold c (id, words) (message_with_player id words))
unfolding hold
hold-IsRelayed {c} id words player h = elim (Bool-cases (last_request false c.service.requests)) [
  | inr deaf ↦ simp deaf h
  | inl listens ↦ simp listens (record {
    done = h.done;
    pending = h.pending ++ (id, words) ∷ [];
    held =
        ap (λ ts. ts ++ message_with_player id words ∷ []) h.held
        ∙ sym (map-append text_of h.pending ((id, words) ∷ []));
    split =
        ap (λ xs. xs ++ (id, words) ∷ []) h.split
        ∙ append_assoc h.done h.pending ((id, words) ∷ []);
    count = h.count;
    connected = h.connected;
    small = All-append _ c.heard ((id, words) ∷ []) h.small (player, tt);
    got = h.got;
  })
]

say-IsRelayed :
    {c : Chatting} (sender : Session) (words : Text) (accepts : Bool)
    → sender.player_id < 2 ^ 64
    → IsRelayed c
    → IsRelayed (say c sender words accepts)
unfolding say handle_chat
say-IsRelayed {c} sender words accepts player h = elim (Bool-cases (publish c.service accepts)) [
  | inl published ↦ simp published (hold-IsRelayed sender.player_id words player h)
  | inr refused ↦ simp refused h
]

-- The thread handles a text of a player.
sent_to-relay :
    (q id : ℕ) (words text : Text) (m : Sessions)
    → Connected m
    → id < 2 ^ 64
    → q < 2 ^ 64
    → text ≡ message_with_player id words
    → sent_to q (relay m (text ∷ []))
      ≡ once (chat_packet q (to_int64 id) words) (find_session (to_string q) m)
unfolding relay
sent_to-relay q id words text m connected player small e =
    ap (sent_to q) (append-nil (handle_redis_chat_message m text))
    ∙ ap (λ t. sent_to q (handle_redis_chat_message m t)) e
    ∙ sent_to-message_with_player m id words q connected player small

take-IsRelayed :
    {c : Chatting} (text : Text) (rest : List Text)
    → c.waiting ≡ text ∷ rest
    → IsRelayed c
    → IsRelayed (take_text c text rest)
unfolding take_text consume_round
take-IsRelayed {c} text rest first h = by_pending h.pending h.held h.split
  where
    by_pending :
        (pending : List (ℕ × Text))
        → c.waiting ≡ map text_of pending
        → c.heard ≡ h.done ++ pending
        → IsRelayed (take_text c text rest)
    by_pending [] held split = absurd (let e : text ∷ rest ≡ [] = sym first ∙ held in cc)
    by_pending ((id, words) ∷ ps) held split =
        let e : text ∷ rest ≡ message_with_player id words ∷ map text_of ps = sym first ∙ held in
        let player : id < 2 ^ 64 =
          All-second (λ x. x.0 < 2 ^ 64) h.done (id, words) ps
            (subst (All (λ x. x.0 < 2 ^ 64)) split h.small) in
        record {
          done = h.done ++ (id, words) ∷ [];
          pending = ps;
          held = cc;
          split = split ∙ sym (append_assoc h.done ((id, words) ∷ []) ps);
          count = omega (
            arith,
            h.count,
            length-append h.done ((id, words) ∷ []),
            length-append c.rounds (c.sessions ∷ []),
          );
          connected = h.connected;
          small = h.small;
          got = λ q small.
              sent_to-append q c.sent (relay c.sessions (text ∷ []))
              ∙ ap (λ ps. sent_to q c.sent ++ ps)
                  (sent_to-relay q id words text c.sessions h.connected player small cc)
              ∙ ap
                  (λ xs.
                    xs
                    ++ once (chat_packet q (to_int64 id) words)
                        (find_session (to_string q) c.sessions))
                  (h.got q small)
              ∙ sym (received-append_one q id words c.sessions h.done c.rounds h.count);
        }

with_service :
    {c : Chatting} (r : RedisChatService) → IsRelayed c → IsRelayed (record c { service = r })
with_service r h = record {
  done = h.done;
  pending = h.pending;
  held = h.held;
  split = h.split;
  count = h.count;
  connected = h.connected;
  small = h.small;
  got = h.got;
}

with_sessions :
    {c : Chatting} (m : Sessions)
    → Connected m
    → IsRelayed c
    → IsRelayed (record c { sessions = m })
with_sessions m connected h = record {
  done = h.done;
  pending = h.pending;
  held = h.held;
  split = h.split;
  count = h.count;
  connected = connected;
  small = h.small;
  got = h.got;
}

Step-IsRelayed : {c d : Chatting} → Step c d → IsRelayed c → IsRelayed d
Step-IsRelayed (initializes answer accepts r e) h = with_service r h
Step-IsRelayed (fails answer accepts r e) h = with_service r h
Step-IsRelayed (shuts comes accepts r e) h = with_service r h
Step-IsRelayed (shuts_failing comes accepts r e) h = with_service r h
Step-IsRelayed {c} (confirms busy waits) h = with_service (consume_reply c.service) h
Step-IsRelayed {c} (connects s small) h = with_sessions _ (Broadcast.connects s small h.connected) h
Step-IsRelayed {c} (disconnects s) h = with_sessions _ (Broadcast.disconnects s h.connected) h
Step-IsRelayed (says sender words accepts player) h = say-IsRelayed sender words accepts player h
Step-IsRelayed (takes text rest busy first) h = take-IsRelayed text rest first h
Step-IsRelayed {c} (loses busy) h = with_service (consume_round c.service none).1 h

quiet-IsRelayed : IsRelayed quiet
unfolding quiet received sent_to
quiet-IsRelayed = record {
  done = [];
  pending = [];
  held = refl;
  split = refl;
  count = refl;
  connected = initially;
  small = tt;
  got = λ q small. refl;
}

-- However sessions come, go and speak, and the thread takes what Redis delivers: a session gets, in
-- the order in which Redis took the texts of the players, one packet with the player's id and words
-- for each text that was handled while the session was connected, and nothing else; and the texts that
-- were not handled wait, in order.
pub Reached-IsRelayed : {c : Chatting} → Reached c → IsRelayed c
Reached-IsRelayed starts = quiet-IsRelayed
Reached-IsRelayed (continues before step) = Step-IsRelayed step (Reached-IsRelayed before)
