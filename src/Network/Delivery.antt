-- ===== src/Network/Delivery.antt =====
-- Theorems on what a session puts on the wire while its loops and the senders take turns.
use mathlib.Core.List.{append-nil, append_assoc, Perm, perm_middle, perm_append_comm}
use mathlib.Core.List.Perm.{trans, append_left, append_right}
use mathlib.Core.List.Perm as Perms
use cpp_mmo.Base.{ℕ, ◌≡◌, refl, sym, ap, ◌∙◌, true, false, Option, none, some, List, [], ◌∷◌, ◌++◌}
use cpp_mmo.Network.Session.{Bytes, frame, send, disconnect, written}
use cpp_mmo.Network.Link.{
  Link, Step, sends, sends_batch, begins, writes, fails, stops_writing, stops_reading,
  stops_reading_twice, Reached, starts, continues, start_link, send_on, send_batch_on, hang_up,
  end_reading, end_reading_twice, begin_write, end_write, fail_write, end_writing, batch_entry,
  send_batch-batch_entry,
}

abbrev in_flight : Option Bytes → List Bytes
in_flight none = []
in_flight (some packet) = packet ∷ []

-- Where every packet is that was put into the queue: on the wire, being written, waiting, or dropped
-- with the queue when the socket was closed.
pub data IsDelivered (l : Link) : Type 0 where
  -- The wire has whole packets, and nothing is dropped while the socket is open.
  whole :
      (sent dropped : List Bytes)
      → l.wire ≡ written sent
      → Perm (sent ++ (in_flight l.writing ++ (l.session.write_queue ++ dropped))) l.pushed
      → (l.session.is_open ≡ true → dropped ≡ [])
      → IsDelivered l
  -- A write failed: its packet is cut, it is the last on the wire, and no other follows.
  cut :
      (sent dropped : List Bytes) (packet done rest : Bytes)
      → packet ≡ done ++ rest
      → l.wire ≡ written sent ++ done
      → Perm (sent ++ (packet ∷ (l.session.write_queue ++ dropped))) l.pushed
      → l.session.is_open ≡ false
      → l.writing ≡ none
      → IsDelivered l

module _ {A : Type 0} where
  -- More at the end of the queue, and at the end of what was put there.
  Perm_grow :
      (xs f q ys es zs : List A)
      → Perm (xs ++ (f ++ (q ++ ys))) zs
      → Perm (xs ++ (f ++ ((q ++ es) ++ ys))) (zs ++ es)
  Perm_grow xs f q ys es zs h =
      let moved = append_left (xs ++ (f ++ q)) (perm_append_comm es ys) in
      let kept = append_right es h in
      simp append_assoc (trans (simp append_assoc at moved) (simp append_assoc at kept))

  -- One packet out of the queue.
  Perm_take :
      (xs before : List A) (x : A) (after ys zs : List A)
      → Perm (xs ++ ((before ++ x ∷ after) ++ ys)) zs
      → Perm (xs ++ (x ∷ ((before ++ after) ++ ys))) zs
  Perm_take xs before x after ys zs h =
      let moved = append_left xs (Perms.symm (perm_middle {a = x} before (after ++ ys))) in
      simp append_assoc (trans moved (simp append_assoc at h))

written-append_one : (xs : List Bytes) (x : Bytes) → written (xs ++ x ∷ []) ≡ written xs ++ x
unfolding written
written-append_one [] x = append-nil x
written-append_one (y ∷ ys) x =
    ap (λ bs. y ++ bs) (written-append_one ys x) ∙ sym (append_assoc y (written ys) x)

push-IsDelivered :
    {l : Link} (es : List Bytes)
    → IsDelivered l
    → IsDelivered (record l {
      session = record l.session { write_queue = l.session.write_queue ++ es };
      pushed = l.pushed ++ es;
    })
push-IsDelivered {l} es (whole sent dropped w p o) =
    whole sent dropped w
      (Perm_grow sent (in_flight l.writing) l.session.write_queue dropped es l.pushed p) o
push-IsDelivered {l} es (cut sent dropped packet done rest e w p c n) =
    cut sent dropped packet done rest e w
      (Perm_grow sent (packet ∷ []) l.session.write_queue dropped es l.pushed p) c n

Step-IsDelivered : {l m : Link} → Step l m → IsDelivered l → IsDelivered m
unfolding send_on send_batch_on end_reading end_reading_twice begin_write end_write fail_write
    end_writing send hang_up disconnect
Step-IsDelivered (sends body) h = push-IsDelivered (frame body ∷ []) h
Step-IsDelivered {l} (sends_batch packets) h =
    simp (send_batch-batch_entry l.session packets) (push-IsDelivered (batch_entry packets) h)
Step-IsDelivered {l} (begins before packet after w n o q) (whole sent dropped wire p kept) =
    whole sent dropped wire (Perm_take sent before packet after dropped l.pushed (simp (n, q) at p))
      kept
Step-IsDelivered (begins before packet after w n o q) (cut sent dropped x done rest e wire p c n') =
    cc
Step-IsDelivered {l} (writes packet w o) (whole sent dropped wire p kept) =
    whole (sent ++ packet ∷ []) dropped
      (ap (λ bs. bs ++ packet) wire ∙ sym (written-append_one sent packet))
      (simp append_assoc (simp w at p)) kept
Step-IsDelivered (writes packet w o) (cut sent dropped x done rest e wire p c n) = cc
Step-IsDelivered {l} (fails packet done rest w e) (whole sent dropped wire p kept) =
    cut sent (l.session.write_queue ++ dropped) packet done rest e (ap (λ bs. bs ++ done) wire)
      (simp w at p) refl refl
Step-IsDelivered (fails packet done rest w e) (cut sent dropped x done' rest' e' wire p c n) = cc
Step-IsDelivered (stops_writing w n c) (whole sent dropped wire p kept) =
    whole sent dropped wire p kept
Step-IsDelivered (stops_writing w n c) (cut sent dropped x done rest e wire p c' n') =
    cut sent dropped x done rest e wire p c' n'
Step-IsDelivered {l} (stops_reading r) (whole sent dropped wire p kept) =
    whole sent (l.session.write_queue ++ dropped) wire p (λ e. cc)
Step-IsDelivered {l} (stops_reading r) (cut sent dropped x done rest e wire p c n) =
    cut sent (l.session.write_queue ++ dropped) x done rest e wire p refl n
Step-IsDelivered {l} (stops_reading_twice r) (whole sent dropped wire p kept) =
    whole sent (l.session.write_queue ++ dropped) wire p (λ e. cc)
Step-IsDelivered {l} (stops_reading_twice r) (cut sent dropped x done rest e wire p c n) =
    cut sent (l.session.write_queue ++ dropped) x done rest e wire p refl n

-- However the loops of a session and the threads that send take turns, the bytes on the wire are
-- whole packets that were put into the queue, each as often as it was put there, in some order; while
-- the socket is open every other packet is being written or waits. When a write fails the beginning
-- of its packet is the last on the wire.
pub Reached-IsDelivered : {id : ℕ} {l : Link} → Reached id l → IsDelivered l
unfolding start_link written
Reached-IsDelivered starts = whole [] [] refl (Perms.refl []) (λ e. refl)
Reached-IsDelivered (continues before step) = Step-IsDelivered step (Reached-IsDelivered before)
