-- ===== src/Subscription.antt =====
-- Theorems on the Redis service, src/Game/Services/RedisChatService.cpp.
use cpp_mmo.Base.{
  suc, ◌<◌, ◌≡◌, ◌≢◌, ◌↔◌, refl, inl, inr, Bool, true, false, Option, none, some, [], ◌∷◌, ◌++◌,
  arith, Bool-cases,
}
use mathlib.Core.Path.{subst}
use cpp_mmo.Base.Text.{Text}
use cpp_mmo.Redis.{
  Thread, absent, consuming, ended, RedisChatService, new_service, Answer, unreachable,
  without_subscriber, reachable, connect, unsubscribe, join, unsubscribe_joined, disconnect, Result,
  returns, throws, terminates, start_thread, subscribe, consume_round, consume_reply, chat_channel,
}

-- What the calls and the thread make of the service.
pub data Served : RedisChatService → Type 0 where
  starts : Served new_service
  connects : {r : RedisChatService} (answer : Answer) → Served r → Served (connect answer r).1
  disconnects :
      {r s : RedisChatService} (comes accepts : Bool)
      → disconnect r comes accepts ≡ some (returns s)
      → Served r
      → Served s
  fails_to_disconnect :
      {r s : RedisChatService} (comes accepts : Bool)
      → disconnect r comes accepts ≡ some (throws s)
      → Served r
      → Served s
  subscribes :
      {r s : RedisChatService} (channel : Text) (accepts : Bool)
      → subscribe r channel accepts ≡ returns s
      → Served r
      → Served s
  unsubscribes :
      {r s : RedisChatService} (channel : Text) (accepts : Bool)
      → unsubscribe r channel accepts ≡ returns s
      → Served r
      → Served s
  confirms :
      {r : RedisChatService}
      → r.thread ≡ consuming
      → 0 < r.replies
      → Served r
      → Served (consume_reply r)
  consumes :
      {r : RedisChatService} (text : Option Text)
      → r.thread ≡ consuming
      → Served r
      → Served (consume_round r text).1

-- The loop is there only while the service runs.
abbrev IsSound : RedisChatService → Type 0
IsSound r = r.thread ≡ consuming → r.running ≡ true

consuming-absent : consuming ≢ absent
consuming-absent e = cc

join-some :
    (r s : RedisChatService) (t : Thread) (comes : Bool)
    → r.thread ≡ t
    → join r t comes ≡ some s
    → s.thread ≡ absent
unfolding join
join-some r s absent comes there e = ground (arith, e)
join-some r s ended comes there e = ground (arith, e)
join-some r s consuming comes there e = ground (arith, e)

join-none :
    (r : RedisChatService) (t : Thread) (comes : Bool)
    → (join r t comes ≡ none) ↔ (t ≡ consuming) × (r.replies ≡ 0) × (comes ≡ false)
unfolding join
join-none r absent comes = (λ e. cc, λ (busy, owed, blocked). cc)
join-none r ended comes = (λ e. cc, λ (busy, owed, blocked). cc)
join-none r consuming comes =
    (λ e. (refl, ground (arith, e), ground (arith, e)), λ (busy, owed, blocked). ground arith)

-- How `Disconnect` leaves the thread, where it returns or throws.
abbrev pub HasEnded : Result → Type 0
HasEnded (returns s) = s.thread ≢ consuming
HasEnded (throws s) = s.thread ≢ consuming
HasEnded terminates = ⊥

unsubscribe-HasEnded :
    (r : RedisChatService) (channel : Text) (accepts : Bool)
    → r.thread ≢ consuming
    → HasEnded (unsubscribe r channel accepts)
unfolding unsubscribe
unsubscribe-HasEnded r channel accepts h = elim (Bool-cases r.has_subscriber) [
  | inr deaf ↦ simp deaf h
  | inl there ↦ elim (Bool-cases accepts) [
    | inl accepted ↦ simp (there, accepted) h
    | inr refused ↦ simp (there, refused) h
  ]
]

joined-HasEnded :
    (o : Option RedisChatService) (accepts : Bool) (result : Result)
    → ((s : RedisChatService) → o ≡ some s → s.thread ≢ consuming)
    → unsubscribe_joined o accepts ≡ some result
    → HasEnded result
unfolding unsubscribe_joined
joined-HasEnded none accepts result h e = cc
joined-HasEnded (some s) accepts result h e =
    let same : unsubscribe s chat_channel accepts ≡ result = cc in
    subst HasEnded same (unsubscribe-HasEnded s chat_channel accepts (h s refl))

joined-none :
    (o : Option RedisChatService) (accepts : Bool)
    → (unsubscribe_joined o accepts ≡ none) ↔ (o ≡ none)
unfolding unsubscribe_joined
joined-none none accepts = (λ e. refl, λ e. refl)
joined-none (some s) accepts = (λ e. cc, λ e. cc)

disconnect-HasEnded :
    (r : RedisChatService) (comes accepts : Bool) (result : Result)
    → IsSound r
    → disconnect r comes accepts ≡ some result
    → HasEnded result
unfolding disconnect
disconnect-HasEnded r comes accepts result sound e = elim (Bool-cases r.running) [
  | inr idle ↦
      let e' = simp idle at e in
      let same : returns r ≡ result = cc in
      subst HasEnded same (λ busy. let runs = sound busy in cc)
  | inl runs ↦
      joined-HasEnded (join (record r { running = false }) r.thread comes) accepts result
        (λ s joined. λ busy.
          let gone = join-some (record r { running = false }) s r.thread comes refl joined in
          consuming-absent cc)
        (simp runs at e)
]

start_thread-IsSound :
    (r s : RedisChatService) (t : Thread) → start_thread r t ≡ returns s → IsSound s
unfolding start_thread
start_thread-IsSound r s absent e busy = elim (Bool-cases r.running) [
  | inl runs ↦ ground (arith, e)
  | inr idle ↦ ground (arith, e)
]
start_thread-IsSound r s consuming e busy = cc
start_thread-IsSound r s ended e busy = cc

subscribe-IsSound :
    (r s : RedisChatService) (channel : Text) (accepts : Bool)
    → IsSound r
    → subscribe r channel accepts ≡ returns s
    → IsSound s
unfolding subscribe
subscribe-IsSound r s channel accepts sound e = elim (Bool-cases r.has_subscriber) [
  | inr deaf ↦
      let e' = simp deaf at e in let same : r ≡ s = ground (arith, e') in subst IsSound same sound
  | inl there ↦ elim (Bool-cases accepts) [
    | inl accepted ↦
        start_thread-IsSound
          (record r {
            has_subscriber = true;
            requests = r.requests ++ (true, channel) ∷ [];
            replies = suc r.replies;
          })
          s r.thread (simp (there, accepted) at e)
    | inr refused ↦ let e' = simp (there, refused) at e in cc
  ]
]

unsubscribe-IsSound :
    (r s : RedisChatService) (channel : Text) (accepts : Bool)
    → IsSound r
    → unsubscribe r channel accepts ≡ returns s
    → IsSound s
unfolding unsubscribe
unsubscribe-IsSound r s channel accepts sound e busy = ground (arith, e, sound)

Served-IsSound : {r : RedisChatService} → Served r → IsSound r
unfolding new_service connect consume_round consume_reply
Served-IsSound starts = λ e. cc
Served-IsSound (connects unreachable h) = Served-IsSound h
Served-IsSound (connects without_subscriber h) = Served-IsSound h
Served-IsSound (connects reachable h) = λ e. refl
Served-IsSound (disconnects {r} {s} comes accepts e h) =
    λ busy. absurd (disconnect-HasEnded r comes accepts (returns s) (Served-IsSound h) e busy)
Served-IsSound (fails_to_disconnect {r} {s} comes accepts e h) =
    λ busy. absurd (disconnect-HasEnded r comes accepts (throws s) (Served-IsSound h) e busy)
Served-IsSound (subscribes {r} {s} channel accepts e h) =
    subscribe-IsSound r s channel accepts (Served-IsSound h) e
Served-IsSound (unsubscribes {r} {s} channel accepts e h) =
    unsubscribe-IsSound r s channel accepts (Served-IsSound h) e
Served-IsSound (confirms {r} busy owed h) = ground (arith, Served-IsSound h)
Served-IsSound (consumes none busy h) = λ e. cc
Served-IsSound (consumes (some text) busy h) = ground (arith, Served-IsSound h)

-- However the service was used before: `Disconnect` never returns exactly if the thread is in its
-- loop, Redis owes it no confirmation, and neither a text comes nor the connection fails; the
-- unsubscription, which Redis would confirm, comes after the wait. Where `Disconnect` returns or
-- throws, the loop has ended.
pub disconnect_lem :
    {r : RedisChatService} (comes accepts : Bool)
    → Served r
    → ((disconnect r comes accepts ≡ none)
        ↔ (r.thread ≡ consuming) × (r.replies ≡ 0) × (comes ≡ false))
      × ((result : Result) → disconnect r comes accepts ≡ some result → HasEnded result)
unfolding disconnect
disconnect_lem {r} comes accepts served = (
  elim (Bool-cases r.running) [
    | inl runs ↦
        let (waits, blocks) = join-none (record r { running = false }) r.thread comes in
        let (left, right) =
          joined-none (join (record r { running = false }) r.thread comes) accepts in
        simp runs (λ never. waits (left never), λ h. right (blocks h))
    | inr idle ↦
        simp idle
          (λ never. cc, λ (busy, owed, blocked). let runs = Served-IsSound served busy in cc)
  ],
  λ result e. disconnect-HasEnded r comes accepts result (Served-IsSound served) e,
)
