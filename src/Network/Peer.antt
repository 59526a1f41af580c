-- ===== src/Network/Peer.antt =====
-- Theorem on what the peer of a session reads, when both run the code of Session.cpp.
use mathlib.Core.List.{append-nil, append_assoc, map-append, Perm}
use mathlib.Core.List.{Permᴰ}
use mathlib.Core.Logic.{∥∥₁_map}
use mathlib.Core.Path.{subst}
use cpp_mmo.Base.{
  ℕ, suc, ◌≡◌, refl, sym, ap, ◌∙◌, true, Option, none, some, List, [], ◌∷◌, ◌++◌, map, arith,
  length, All, All-append,
}
use cpp_mmo.Network.Session.{Bytes, frame, batch_size, combine, header_error, read_loop, written}
use cpp_mmo.Network.Framing.{IsBody, read_loop-combine}
use cpp_mmo.Network.Link.{
  Link, Step, sends, sends_batch, begins, writes, fails, stops_writing, stops_reading,
  stops_reading_twice, Reached, starts, continues, start_link, send_on, send_batch_on, batch_entry,
  hang_up, end_reading, end_reading_twice, begin_write, end_write, fail_write, end_writing,
}
use cpp_mmo.Network.Delivery.{IsDelivered, whole, cut, Reached-IsDelivered}

-- The batches of a call of `SendBatch`: none if it has no packet, or too many bytes.
abbrev pub accepted : List Bytes → List (List Bytes)
accepted [] = []
accepted (p ∷ ps) = elim (batch_size 0 (p ∷ ps)) [ none ↦ [] | some total ↦ (p ∷ ps) ∷ [] ]

-- The bodies that the calls accept, call by call, each call in a list.
abbrev sent_by : {l m : Link} → Step l m → List (List Bytes)
sent_by (sends body) = (body ∷ []) ∷ []
sent_by (sends_batch packets) = accepted packets
sent_by (begins before packet after w n o q) = []
sent_by (writes packet w o) = []
sent_by (fails packet done rest w e) = []
sent_by (stops_writing w n c) = []
sent_by (stops_reading r) = []
sent_by (stops_reading_twice r) = []

abbrev pub calls : {id : ℕ} {l : Link} → Reached id l → List (List Bytes)
calls starts = []
calls (continues before step) = calls before ++ sent_by step

abbrev pub flat : List (List Bytes) → List Bytes
flat [] = []
flat (bodies ∷ rest) = bodies ++ flat rest

module _ {A B : Type 0} (f : A → B) where
  Perm-map :
      {xs ws : List B} (ys : List A)
      → Permᴰ xs ws
      → ws ≡ map f ys
      → (zs : List A) × Permᴰ zs ys × (xs ≡ map f zs)
  Perm-map [] Permᴰ.nil e = ([], Permᴰ.nil, refl)
  Perm-map (y ∷ ys) Permᴰ.nil e = absurd cc
  Perm-map [] (Permᴰ.cons h d) e = absurd cc
  Perm-map (y ∷ ys) (Permᴰ.cons {a = a} h d) e =
      let (zs, p, same) = Perm-map ys d cc in (y ∷ zs, Permᴰ.cons refl p, cc)
  Perm-map [] (Permᴰ.swap h k) e = absurd cc
  Perm-map (y ∷ []) (Permᴰ.swap h k) e = absurd cc
  Perm-map (y ∷ z ∷ ys) (Permᴰ.swap h k) e = (z ∷ y ∷ ys, Permᴰ.swap refl refl, cc)
  Perm-map ys (Permᴰ.trans c d) e =
      let (zs, p, same) = Perm-map ys d e in
      let (us, q, same') = Perm-map zs c same in (us, Permᴰ.trans q p, same')

module _ {A : Type 0} (P : A → Type 0) where
  All-Perm : {xs ys : List A} → Permᴰ xs ys → All P ys → All P xs
  All-Perm Permᴰ.nil h = h
  All-Perm (Permᴰ.cons e d) (h, hs) = (subst P (sym e) h, All-Perm d hs)
  All-Perm (Permᴰ.swap e f) (h, (k, hs)) = (subst P (sym e) k, (subst P (sym f) h, hs))
  All-Perm (Permᴰ.trans c d) h = All-Perm c (All-Perm d h)

batch_entry-accepted : (packets : List Bytes) → batch_entry packets ≡ map combine (accepted packets)
batch_entry-accepted [] = refl
batch_entry-accepted (p ∷ ps) = by_size (batch_size 0 (p ∷ ps))
  where
    by_size :
        (size : Option ℕ)
        → ◌≡◌ {A = List Bytes}
            (elim size as (λ x. List Bytes) [ none ↦ [] | some total ↦ combine (p ∷ ps) ∷ [] ])
            (map combine
              (elim size as (λ x. List (List Bytes)) [ none ↦ [] | some total ↦ (p ∷ ps) ∷ [] ]))
    by_size none = refl
    by_size (some total) = refl

pushed-sent_by : {l m : Link} (step : Step l m) → m.pushed ≡ l.pushed ++ map combine (sent_by step)
unfolding send_on send_batch_on hang_up end_reading end_reading_twice begin_write end_write
    fail_write end_writing combine
pushed-sent_by {l} (sends body) = ap (λ e. l.pushed ++ e ∷ []) (sym (append-nil (frame body)))
pushed-sent_by {l} (sends_batch packets) = ap (λ es. l.pushed ++ es) (batch_entry-accepted packets)
pushed-sent_by {l} (begins before packet after w n o q) = sym (append-nil l.pushed)
pushed-sent_by {l} (writes packet w o) = sym (append-nil l.pushed)
pushed-sent_by {l} (fails packet done rest w e) = sym (append-nil l.pushed)
pushed-sent_by {l} (stops_writing w n c) = sym (append-nil l.pushed)
pushed-sent_by {l} (stops_reading r) = sym (append-nil l.pushed)
pushed-sent_by {l} (stops_reading_twice r) = sym (append-nil l.pushed)

pushed-calls : {id : ℕ} {l : Link} (r : Reached id l) → l.pushed ≡ map combine (calls r)
unfolding start_link
pushed-calls starts = refl
pushed-calls (continues {l} before step) =
    pushed-sent_by step
    ∙ ap (λ es. es ++ map combine (sent_by step)) (pushed-calls before)
    ∙ sym (map-append combine (calls before) (sent_by step))

written-combine : (order : List (List Bytes)) → written (map combine order) ≡ combine (flat order)
unfolding written combine
written-combine [] = refl
written-combine (bodies ∷ rest) =
    ap (λ bs. combine bodies ++ bs) (written-combine rest) ∙ sym (combine-append bodies (flat rest))
  where
    combine-append : (ps qs : List Bytes) → combine (ps ++ qs) ≡ combine ps ++ combine qs
    combine-append [] qs = refl
    combine-append (p ∷ ps) qs =
        ap (λ bs. frame p ++ bs) (combine-append ps qs)
        ∙ sym (append_assoc (frame p) (combine ps) (combine qs))

flat-All : (order : List (List Bytes)) → All (All IsBody) order → All IsBody (flat order)
flat-All [] h = tt
flat-All (bodies ∷ rest) (h, hs) = All-append IsBody bodies (flat rest) h (flat-All rest hs)

-- What the peer reads when every packet was written, and in which order of the calls.
abbrev pub IsArrived : List (List Bytes) → Bytes → Type 0
IsArrived calls wire =
    (order : List (List Bytes)) × Permᴰ order calls
    × (read_loop (suc (length wire)) wire ≡ (flat order, header_error))

read_loop-order :
    (calls sent : List (List Bytes)) (wire : Bytes)
    → All (All IsBody) calls
    → Permᴰ sent calls
    → wire ≡ written (map combine sent)
    → read_loop (suc (length wire)) wire ≡ (flat sent, header_error)
read_loop-order calls sent wire bodies p e =
    let e' = e ∙ written-combine sent in
    simp e' (
      read_loop-combine (suc (length (combine (flat sent)))) (flat sent)
        (flat-All sent (All-Perm (All IsBody) p bodies)) (omega arith))

-- However the loops of a session and the threads that send take turns: when nothing waits or is
-- being written while the socket is open, the peer's `ReadLoop` hands on the bodies of all calls of
-- `Send` and of the calls of `SendBatch` that accept their packets, if each body has from 1 to 100000
-- bytes, and then finds the end between two packets. `SendBatch` accepts packets of at most 64 MB
-- together with their headers, and of a larger batch nothing arrives. The accepted calls may come in
-- another order, but each comes once, with its bodies together and in order.
pub read_loop-Reached :
    {id : ℕ} {l : Link} (r : Reached id l)
    → All (All IsBody) (calls r)
    → l.session.is_open ≡ true
    → l.writing ≡ none
    → l.session.write_queue ≡ []
    → ∥ IsArrived (calls r) l.wire ∥₁
read_loop-Reached {id} {l} r bodies is_open idle empty = by_delivery (Reached-IsDelivered r)
  where
    by_delivery : IsDelivered l → ∥ IsArrived (calls r) l.wire ∥₁
    by_delivery (cut sent dropped packet done rest e w p closed n) = absurd cc
    by_delivery (whole sent dropped w p kept) =
        let none_lost = kept is_open in
        let all : Perm sent l.pushed = simp (idle, empty, none_lost, append-nil) at p in
        ∥∥₁_map all (λ d.
          let (order, q, same) = Perm-map combine (calls r) d (pushed-calls r) in
          (order, q, read_loop-order (calls r) order l.wire bodies q (w ∙ ap written same)))
