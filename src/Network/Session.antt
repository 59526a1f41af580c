-- ===== src/Network/Session.antt =====
-- src/Network/Session.h and Session.cpp. A socket is open or not; what the peer sends is a list of
-- bytes, and reading past its end fails. The host is little-endian.
use cpp_mmo.Base.{
  ℕ, zero, suc, ◌+◌, ◌-◌, ◌*◌, ◌/◌, ◌%◌, ◌^◌, Bool, true, false, Option, none, some, List, [], ◌∷◌,
  ◌++◌, ltb, ◌==◌, ◌||◌, if◌then◌else◌, length, take, drop,
}

abbrev pub Bytes : Type 0
Bytes = List ℕ

pub record Session : Type 0 where
  pub session_id : ℕ
  pub player_id : ℕ
  pub is_open : Bool
  pub read_header : Bytes
  pub read_body : Bytes
  pub write_queue : List Bytes
  -- Whether `m_onDisconnectedCallback` is set.
  pub has_callback : Bool

abbrev pub size_max : ℕ
size_max = 2 ^ 64 - 1

abbrev pub max_batch_size : ℕ
max_batch_size = 64 * 1024 * 1024

abbrev no_header : Bytes
no_header = 0 ∷ 0 ∷ 0 ∷ 0 ∷ []

-- The constructor; the id comes from a counter that all sessions share.
unfoldable pub new_session : ℕ → Session
new_session id = record {
  session_id = id;
  player_id = 0;
  is_open = true;
  read_header = no_header;
  read_body = [];
  write_queue = [];
  has_callback = false;
}

unfoldable pub set_on_disconnected_callback : Session → Session
set_on_disconnected_callback s = record s { has_callback = true }

unfoldable pub set_player_id : Session → ℕ → Session
set_player_id s id = record s { player_id = id }

-- The session after `Disconnect`, and whether the callback was called.
unfoldable pub disconnect : Session → Session × Bool
disconnect s = (
  record s { is_open = false; read_header = no_header; read_body = []; write_queue = [] },
  s.has_callback,
)

-- The bytes of a `uint32_t`, lowest first.
unfoldable pub encode_length : ℕ → Bytes
encode_length n = n % 256 ∷ n / 256 % 256 ∷ n / 65_536 % 256 ∷ n / 16_777_216 % 256 ∷ []

unfoldable pub decode_length : Bytes → ℕ
decode_length [] = 0
decode_length (b ∷ bs) = b + 256 * decode_length bs

-- A header and its body; the length is cast to 32 bits.
unfoldable pub frame : Bytes → Bytes
unfolding encode_length
frame body = encode_length (length body % 2 ^ 32) ++ body

unfoldable pub send : Session → Bytes → Session
unfolding frame
send s body = record s { write_queue = s.write_queue ++ frame body ∷ [] }

-- `size_t` sums and differences.
abbrev pub add_size : ℕ → ℕ → ℕ
add_size a b = (a + b) % 2 ^ 64

abbrev pub sub_size : ℕ → ℕ → ℕ
sub_size a b = (a + 2 ^ 64 - b) % 2 ^ 64

-- The loop that adds up the sizes from `total` on; `none` where it drops the batch.
unfoldable pub batch_size : ℕ → List Bytes → Option ℕ
batch_size total [] = some total
batch_size total (packet ∷ packets) =
    let total' = add_size total (add_size 4 (length packet)) in
    let rest = batch_size total' packets in
    if ltb (sub_size (sub_size size_max 4) (length packet)) total
    then none
    else if ltb max_batch_size total'
    then none
    else rest

-- The loop that combines the packets with their headers.
unfoldable pub combine : List Bytes → Bytes
unfolding frame
combine [] = []
combine (packet ∷ packets) = frame packet ++ combine packets

unfoldable pub send_batch : Session → List Bytes → Session
unfolding batch_size combine
send_batch s [] = s
send_batch s (packet ∷ packets) = elim (batch_size 0 (packet ∷ packets)) [
  | none ↦ s
  | some total ↦ record s { write_queue = s.write_queue ++ combine (packet ∷ packets) ∷ [] }
]

-- Why `ReadLoop` disconnects. The last is of the model: no fuel was left.
pub data ReadEnd : Type 0 where
  header_error : ReadEnd
  invalid_header : ReadEnd
  body_error : ReadEnd
  out_of_fuel : ReadEnd

abbrev pub max_body_length : ℕ
max_body_length = 100_000

-- The bodies that `ReadLoop` hands to the packet manager, in order, and how it ends.
unfoldable pub read_loop : ℕ → Bytes → List Bytes × ReadEnd
unfolding decode_length
read_loop zero stream = ([], out_of_fuel)
read_loop (suc fuel) stream =
    let body_length = decode_length (take 4 stream) in
    let stream' = drop 4 stream in
    let (bodies, end) = read_loop fuel (drop body_length stream') in
    if ltb (length stream) 4
    then ([], header_error)
    else if body_length == 0 || ltb max_body_length body_length
    then ([], invalid_header)
    else if ltb (length stream') body_length
    then ([], body_error)
    else (take body_length stream' ∷ bodies, end)

-- The bytes that `WriteLoop` puts on an open socket until the queue is empty.
unfoldable pub written : List Bytes → Bytes
written [] = []
written (packet ∷ queue) = packet ++ written queue

unfoldable pub write_loop : Session → Bytes × Session
unfolding written
write_loop s = if s.is_open then (written s.write_queue, record s { write_queue = [] }) else ([], s)
