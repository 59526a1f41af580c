-- ===== src/Network/Link.antt =====
-- src/Network/Session.cpp: the loops of a session as they run side by side with the threads that
-- send. A step is what happens between two points at which a coroutine waits. The concurrent queue
-- keeps no order among the threads that fill it, so a step may take any packet that waits. The
-- timer of `WriteLoop` never gets an expiry, so its wait ends at once and is no step.
use mathlib.Core.List.{append-nil}
use cpp_mmo.Base.{
  refl, ℕ, suc, ◌≡◌, Bool, true, false, Option, none, some, List, [], ◌∷◌, ◌++◌, if◌then◌else◌,
}
use cpp_mmo.Network.Session.{
  Session, Bytes, frame, send, batch_size, combine, send_batch, disconnect, new_session,
  set_on_disconnected_callback,
}

pub record Link : Type 0 where
  pub session : Session
  -- The packet that `async_write` is writing.
  pub writing : Option Bytes
  pub is_reading : Bool
  pub is_writing : Bool
  -- The bytes that were put on the socket.
  pub wire : Bytes
  -- What `Send` and `SendBatch` have put into the queue, in order.
  pub pushed : List Bytes
  -- The calls of the callback.
  pub told : ℕ

-- After `Start`, with the callback set.
unfoldable pub start_link : ℕ → Link
unfolding new_session set_on_disconnected_callback
start_link id = record {
  session = set_on_disconnected_callback (new_session id);
  writing = none;
  is_reading = true;
  is_writing = true;
  wire = [];
  pushed = [];
  told = 0;
}

-- What `SendBatch` puts into the queue.
abbrev pub batch_entry : List Bytes → List Bytes
batch_entry [] = []
batch_entry (p ∷ ps) = elim (batch_size 0 (p ∷ ps)) [
  | none ↦ []
  | some total ↦ combine (p ∷ ps) ∷ []
]

unfoldable pub send_on : Link → Bytes → Link
send_on l body = record l { session = send l.session body; pushed = l.pushed ++ frame body ∷ [] }

unfoldable pub send_batch_on : Link → List Bytes → Link
send_batch_on l packets = record l {
  session = send_batch l.session packets;
  pushed = l.pushed ++ batch_entry packets;
}

-- `Disconnect`, called by one of the loops.
unfoldable pub hang_up : Link → Link
hang_up l =
    let (s, calls) = disconnect l.session in
    record l { session = s; told = if calls then suc l.told else l.told }

-- `ReadLoop` ends: an error, a refused header, or an exception.
unfoldable pub end_reading : Link → Link
unfolding hang_up
end_reading l = record (hang_up l) { is_reading = false }

-- `ReadLoop` ends, and the callback throws: `Disconnect` stands in the `try` block, so the handler of
-- the exception calls it again.
unfoldable pub end_reading_twice : Link → Link
unfolding hang_up
end_reading_twice l = record (hang_up (hang_up l)) { is_reading = false }

-- `try_dequeue` gives the packet between `before` and `after`, and the write begins.
unfoldable pub begin_write : Link → List Bytes → Bytes → List Bytes → Link
begin_write l before packet after = record l {
  session = record l.session { write_queue = before ++ after };
  writing = some packet;
}

unfoldable pub end_write : Link → Bytes → Link
end_write l packet = record l { writing = none; wire = l.wire ++ packet }

-- The write fails after some bytes, and the exception ends `WriteLoop`.
unfoldable pub fail_write : Link → Bytes → Link
unfolding hang_up
fail_write l done = record (hang_up l) { writing = none; is_writing = false; wire = l.wire ++ done }

-- `while (m_socket.is_open())` fails.
unfoldable pub end_writing : Link → Link
end_writing l = record l { is_writing = false }

pub data Step (l : Link) : Link → Type 0 where
  sends : (body : Bytes) → Step l (send_on l body)
  sends_batch : (packets : List Bytes) → Step l (send_batch_on l packets)
  begins :
      (before : List Bytes) (packet : Bytes) (after : List Bytes)
      → l.is_writing ≡ true
      → l.writing ≡ none
      → l.session.is_open ≡ true
      → l.session.write_queue ≡ before ++ packet ∷ after
      → Step l (begin_write l before packet after)
  writes :
      (packet : Bytes)
      → l.writing ≡ some packet
      → l.session.is_open ≡ true
      → Step l (end_write l packet)
  fails :
      (packet done rest : Bytes)
      → l.writing ≡ some packet
      → packet ≡ done ++ rest
      → Step l (fail_write l done)
  stops_writing :
      l.is_writing ≡ true → l.writing ≡ none → l.session.is_open ≡ false → Step l (end_writing l)
  stops_reading : l.is_reading ≡ true → Step l (end_reading l)
  stops_reading_twice : l.is_reading ≡ true → Step l (end_reading_twice l)

pub data Reached (id : ℕ) : Link → Type 0 where
  starts : Reached id (start_link id)
  continues : {l m : Link} → Reached id l → Step l m → Reached id m

pub send_batch-batch_entry :
    (s : Session) (packets : List Bytes)
    → send_batch s packets ≡ record s { write_queue = s.write_queue ++ batch_entry packets }
unfolding send_batch
send_batch-batch_entry s [] = simp append-nil refl
send_batch-batch_entry s (p ∷ ps) = by_size (batch_size 0 (p ∷ ps))
  where
    by_size :
        (size : Option ℕ)
        → ◌≡◌ {A = Session}
            (elim size as (λ x. Session) [
              | none ↦ s
              | some total ↦ record s { write_queue = s.write_queue ++ combine (p ∷ ps) ∷ [] }
            ])
            (record s {
              write_queue = s.write_queue ++ elim size as (λ x. List Bytes) [
                | none ↦ []
                | some total ↦ combine (p ∷ ps) ∷ []
              ];
            })
    by_size none = simp append-nil refl
    by_size (some total) = refl
