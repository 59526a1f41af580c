-- ===== src/Redis.antt =====
-- src/Game/Services/RedisChatService.cpp, and `Initialize` and `Shutdown` of
-- src/Game/Managers/ChatManager.cpp. What Redis answers is an argument of each call.
use cpp_mmo.Base.{
  ℕ, suc, ◌-◌, ltb, Bool, true, false, Option, none, some, List, [], ◌∷◌, ◌++◌, if◌then◌else◌,
}
use cpp_mmo.Base.Text.{Text}

-- `m_subscribeThread`: not joinable, in its loop, or ended and not joined.
pub data Thread : Type 0 where
  absent consuming ended : Thread

pub record RedisChatService : Type 0 where
  pub has_redis : Bool
  pub has_subscriber : Bool
  -- The calls of `subscribe` and `unsubscribe` on the subscriber, in order.
  pub requests : List (Bool × Text)
  -- The confirmations of these that the thread has not taken from the connection yet.
  pub replies : ℕ
  pub thread : Thread
  pub running : Bool

unfoldable pub new_service : RedisChatService
new_service = record {
  has_redis = false;
  has_subscriber = false;
  requests = [];
  replies = 0;
  thread = absent;
  running = false;
}

-- What `Connect` meets: the constructor of `Redis` throws, `subscriber()` throws, or neither.
pub data Answer : Type 0 where
  unreachable without_subscriber reachable : Answer

unfoldable pub connect : Answer → RedisChatService → Bool × RedisChatService
connect unreachable r = (false, r)
connect without_subscriber r = (false, record r { has_redis = true })
connect reachable r = (
  true,
  record r { has_redis = true; has_subscriber = true; requests = []; replies = 0; running = true },
)

abbrev pub chat_channel : Text
chat_channel =
    b'c' ∷ b'h' ∷ b'a' ∷ b't' ∷ b'_' ∷ b'c' ∷ b'h' ∷ b'a' ∷ b'n' ∷ b'n' ∷ b'e' ∷ b'l' ∷ []

-- What a call ends with: it returns, it throws, or the program terminates.
pub data Result : Type 0 where
  returns : RedisChatService → Result
  throws : RedisChatService → Result
  terminates : Result

-- A request that the subscriber has sent, which Redis confirms.
abbrev requested : RedisChatService → Bool → Text → RedisChatService
requested r subscribes channel = record r {
  requests = r.requests ++ (subscribes, channel) ∷ [];
  replies = suc r.replies;
}

-- `m_subscriber->unsubscribe(channel)`, if there is a subscriber; `accepts` says whether it throws
-- nothing.
unfoldable pub unsubscribe : RedisChatService → Text → Bool → Result
unsubscribe r channel accepts =
    if r.has_subscriber
    then (if accepts then returns (requested r false channel) else throws r)
    else returns r

-- `join`, for a service that does not run any more, so that the loop ends with its `consume`. That
-- returns for a confirmation; `comes` says whether a text comes, or the connection fails. None while
-- it blocks.
unfoldable pub join : RedisChatService → Thread → Bool → Option RedisChatService
join r absent comes = some r
join r ended comes = some (record r { thread = absent })
join r consuming comes =
    if ltb 0 r.replies
    then some (record r { thread = absent; replies = r.replies - 1 })
    else if comes
    then some (record r { thread = absent })
    else none

unfoldable pub unsubscribe_joined : Option RedisChatService → Bool → Option Result
unfolding unsubscribe
unsubscribe_joined none accepts = none
unsubscribe_joined (some r) accepts = some (unsubscribe r chat_channel accepts)

-- `none` where it never returns.
unfoldable pub disconnect : RedisChatService → Bool → Bool → Option Result
unfolding unsubscribe_joined join
disconnect r comes accepts =
    if r.running
    then unsubscribe_joined (join (record r { running = false }) r.thread comes) accepts
    else some (returns r)

-- The answer of `Publish`, where `accepts` says whether the client's `publish` throws nothing.
unfoldable pub publish : RedisChatService → Bool → Bool
publish r accepts = if r.has_redis then accepts else false

-- `m_subscribeThread = std::thread(...)`, which terminates while the old one is joinable. The loop
-- ends at once if the service is not running.
unfoldable pub start_thread : RedisChatService → Thread → Result
start_thread r absent = returns (record r { thread = if r.running then consuming else ended })
start_thread r consuming = terminates
start_thread r ended = terminates

-- `accepts` says whether the subscriber's `subscribe` throws nothing.
unfoldable pub subscribe : RedisChatService → Text → Bool → Result
unfolding start_thread
subscribe r channel accepts =
    if r.has_subscriber
    then (if accepts then start_thread (requested r true channel) r.thread else throws r)
    else returns r

-- A round of the thread's loop: with a text that `consume` gives, or `none` where it throws. The
-- answer has the texts for which the callback is called.
unfoldable pub consume_round : RedisChatService → Option Text → List Text × RedisChatService
consume_round r none = ([], record r { thread = ended })
consume_round r (some text) = (text ∷ [], if r.running then r else record r { thread = ended })

-- A round in which `consume` takes a confirmation, which calls no callback.
unfoldable pub consume_reply : RedisChatService → RedisChatService
consume_reply r = record r {
  replies = r.replies - 1;
  thread = if r.running then r.thread else ended;
}

-- From an environment variable, or the default.
abbrev or_text : Text → Option Text → Text
or_text default none = default
or_text default (some t) = t

-- `redisUrl`, from REDIS_HOST and REDIS_PORT.
unfoldable redis_url : Option Text → Option Text → Text
redis_url host port =
    (b't' ∷ b'c' ∷ b'p' ∷ b':' ∷ b'/' ∷ b'/' ∷ [])
    ++ (or_text (b'1' ∷ b'2' ∷ b'7' ∷ b'.' ∷ b'0' ∷ b'.' ∷ b'0' ∷ b'.' ∷ b'1' ∷ []) host
        ++ (b':' ∷ [])
        ++ or_text (b'6' ∷ b'3' ∷ b'7' ∷ b'9' ∷ []) port)

unfoldable pub subscribe_connected : Bool → Bool × RedisChatService → Result
unfolding subscribe
subscribe_connected accepts (connected, r) =
    if connected then subscribe r chat_channel accepts else returns r

-- `ChatManager::Initialize` from `Connect` on.
unfoldable pub initialize : Answer → Bool → RedisChatService → Result
unfolding connect subscribe_connected
initialize answer accepts r = subscribe_connected accepts (connect answer r)

-- `ChatManager::Shutdown`
unfoldable pub shutdown_chat : RedisChatService → Bool → Bool → Option Result
unfolding disconnect
shutdown_chat r comes accepts = disconnect r comes accepts
