-- ===== src/Network/Closing.antt =====
-- Theorems on how the loops of a session end.
use cpp_mmo.Base.{ℕ, ◌+◌, ◌≤◌, ◌≡◌, true, false, some, arith, to_nat}
use cpp_mmo.Network.Session.{Bytes, send, disconnect}
use cpp_mmo.Network.Link.{
  Link, Step, sends, sends_batch, begins, writes, fails, stops_writing, stops_reading,
  stops_reading_twice, Reached, starts, continues, start_link, send_on, send_batch_on, hang_up,
  end_reading, end_reading_twice, begin_write, end_write, fail_write, end_writing,
  send_batch-batch_entry,
}

-- The session has its callback; a loop has ended only if the socket is closed; the reading loop tells
-- the server at most twice, the writing loop at most once, and the server was told if the socket is
-- closed.
pub record IsTold (l : Link) : Type 0 where
  pub callback : l.session.has_callback ≡ true
  pub reading : l.is_reading ≡ false → l.session.is_open ≡ false
  pub writing : l.is_writing ≡ false → l.session.is_open ≡ false
  pub once : l.session.is_open ≡ false → 1 ≤ l.told
  pub thrice : l.told + (to_nat l.is_reading + to_nat l.is_reading) + to_nat l.is_writing ≤ 3
  pub busy : (packet : Bytes) → l.writing ≡ some packet → l.is_writing ≡ true

Step-IsTold : {l m : Link} → Step l m → IsTold l → IsTold m
unfolding send_on send_batch_on hang_up end_reading end_reading_twice begin_write end_write
    fail_write end_writing send disconnect
Step-IsTold (sends body) h = ground (arith, h)
Step-IsTold {l} (sends_batch packets) h =
    simp (send_batch-batch_entry l.session packets) (ground (arith, h))
Step-IsTold (begins before packet after w n o q) h = ground arith
Step-IsTold (writes packet w o) h = ground arith
Step-IsTold (fails packet done rest w e) h = ground (arith, h.busy packet)
Step-IsTold (stops_writing w n c) h = ground arith
Step-IsTold (stops_reading r) h = ground arith
Step-IsTold (stops_reading_twice r) h = ground arith

start_link-IsTold : (id : ℕ) → IsTold (start_link id)
unfolding start_link
start_link-IsTold id = ground arith

-- However the loops of a session and the threads that send take turns: a loop ends only with the
-- socket closed; once the socket is closed the server was told of the end, at most three times: twice
-- by the reading loop, which disconnects again when the callback throws, and once by the writing loop.
pub Reached-IsTold : {id : ℕ} {l : Link} → Reached id l → IsTold l
Reached-IsTold {id} starts = start_link-IsTold id
Reached-IsTold (continues before step) = Step-IsTold step (Reached-IsTold before)
