-- ===== src/Network/Framing.antt =====
-- Theorems on what sessions put on the wire and what `ReadLoop` makes of it.
use mathlib.Core.List.{append-nil, append_assoc}
use cpp_mmo.Base.{
  ℕ, zero, suc, ◌+◌, ◌%◌, ◌^◌, ◌≤◌, ◌<◌, ◌≡◌, ◌≢◌, refl, sym, ap, ◌∙◌, inl, inr, true, false, none,
  some, List, [], ◌∷◌, ◌++◌, arith, Bool-cases, Option-cases, ltb, leb, ◌==◌, ◌||◌, if◌then◌else◌,
  length, take, drop, length-append, length-take, length-drop, ltb-false, take-append, drop-append,
  All,
}
use cpp_mmo.Network.Session.{
  Bytes, Session, size_max, max_batch_size, max_body_length, encode_length, decode_length, frame,
  send, add_size, sub_size, batch_size, combine, send_batch, header_error, out_of_fuel, read_loop,
  written, write_loop,
}

decode-encode : (n : ℕ) → n < 2 ^ 32 → decode_length (encode_length n) ≡ n
unfolding decode_length encode_length
decode-encode n h = omega arith

-- A body that `ReadLoop` accepts.
abbrev pub IsBody : Bytes → Type 0
IsBody b = (1 ≤ length b) × (length b ≤ max_body_length)

-- How many bytes the packets take with their headers.
abbrev pub framed_size : List Bytes → ℕ
framed_size [] = 0
framed_size (p ∷ ps) = 4 + length p + framed_size ps

length-combine : (ps : List Bytes) → length (combine ps) ≡ framed_size ps
unfolding combine frame encode_length
length-combine [] = refl
length-combine (p ∷ ps) =
    let e = length-append p (combine ps) in omega (arith, length-combine ps, e)

-- No object has more bytes than this.
abbrev IsSpan : Bytes → Type 0
IsSpan p = length p < 2 ^ 63

batch_size_lem :
    (total : ℕ) (ps : List Bytes)
    → total ≤ max_batch_size
    → All IsSpan ps
    → batch_size total ps ≡ (
        if leb (total + framed_size ps) max_batch_size then some (total + framed_size ps) else none)
unfolding batch_size
batch_size_lem total [] h spans = ground arith
batch_size_lem total (p ∷ ps) h (span, spans) =
    let step : add_size total (add_size 4 (length p)) ≡ total + 4 + length p = omega arith in
    let safe : ltb (sub_size (sub_size size_max 4) (length p)) total ≡ false = ground arith in
    elim (Bool-cases (ltb max_batch_size (total + 4 + length p))) [
      | inl over ↦
          let e : leb (total + framed_size (p ∷ ps)) max_batch_size ≡ false = ground arith in
          simp (safe, step, over, e) refl
      | inr within ↦
          let small : total + 4 + length p ≤ max_batch_size = ground arith in
          let e : total + 4 + length p + framed_size ps ≡ total + framed_size (p ∷ ps) =
            omega arith in
          simp (safe, step, within)
            (batch_size_lem (total + 4 + length p) ps small spans ∙ simp e refl)
    ]

-- The writes of `written` for queues joined.
written-append : (xs ys : List Bytes) → written (xs ++ ys) ≡ written xs ++ written ys
unfolding written
written-append [] ys = refl
written-append (x ∷ xs) ys =
    ap (λ bs. x ++ bs) (written-append xs ys) ∙ sym (append_assoc x (written xs) (written ys))

written_one : (x : Bytes) → written (x ∷ []) ≡ x
unfolding written
written_one x = append-nil x

-- `Send` for each packet in turn.
abbrev pub send_all : Session → List Bytes → Session
send_all s [] = s
send_all s (p ∷ ps) = send_all (send s p) ps

written-send_all :
    (s : Session) (ps : List Bytes)
    → written (send_all s ps).write_queue ≡ written s.write_queue ++ combine ps
unfolding send combine
written-send_all s [] = sym (append-nil (written s.write_queue))
written-send_all s (p ∷ ps) =
    written-send_all (send s p) ps
    ∙ simp (written-append s.write_queue (frame p ∷ []), written_one (frame p), append_assoc) refl

length_one_more : (q : List Bytes) (e : Bytes) → length (q ++ e ∷ []) ≤ length q + 1
length_one_more q e = omega (arith, length-append {0} q (e ∷ []))

-- `SendBatch` puts on the wire what a `Send` of each packet would, if the packets and their headers
-- take at most 64 MB together, and past that it drops the batch; either way it makes at most one entry
-- in the queue of writes.
pub send_batch_lem :
    (s : Session) (ps : List Bytes)
    → All IsSpan ps
    → (written (send_batch s ps).write_queue ≡ (
        if leb (framed_size ps) max_batch_size
        then written (send_all s ps).write_queue
        else written s.write_queue))
      × (length (send_batch s ps).write_queue ≤ length s.write_queue + 1)
unfolding send_batch
send_batch_lem s [] spans = (refl, omega arith)
send_batch_lem s (p ∷ ps) spans =
    let z : 0 + framed_size (p ∷ ps) ≡ framed_size (p ∷ ps) = omega arith in
    elim (Bool-cases (leb (framed_size (p ∷ ps)) max_batch_size)) [
      | inl fits ↦
          let e : batch_size 0 (p ∷ ps) ≡ some (framed_size (p ∷ ps)) =
            batch_size_lem 0 (p ∷ ps) (omega arith) spans ∙ simp (z, fits) refl in
          rw (e, send_batch)
            (
              simp fits (
                  written-append s.write_queue (combine (p ∷ ps) ∷ [])
                  ∙ simp (written_one (combine (p ∷ ps))) (sym (written-send_all s (p ∷ ps)))),
              length_one_more s.write_queue (combine (p ∷ ps)),
            )
      | inr over ↦
          let e : batch_size 0 (p ∷ ps) ≡ none =
            batch_size_lem 0 (p ∷ ps) (omega arith) spans ∙ simp (z, over) refl in
          rw (e, send_batch) (simp over refl, omega arith)
    ]

length-frame : (p : Bytes) → length (frame p) ≡ 4 + length p
unfolding frame encode_length
length-frame p = omega arith

read_loop_end : (fuel : ℕ) → read_loop (suc fuel) [] ≡ ([], header_error)
unfolding read_loop
read_loop_end fuel = refl

-- A round of `ReadLoop` on a packet that it accepts.
read_loop-frame :
    (fuel : ℕ) (p rest : Bytes)
    → IsBody p
    → read_loop (suc fuel) (frame p ++ rest)
      ≡ (let (bodies, end) = read_loop fuel rest in (p ∷ bodies, end))
unfolding read_loop frame encode_length
read_loop-frame fuel p rest (some_bytes, bounded) =
    let n : length p % 2 ^ 32 ≡ length p = omega arith in
    let d : decode_length (encode_length (length p)) ≡ length p =
      decode-encode (length p) (omega arith) in
    let long : ltb (length (frame p ++ rest)) 4 ≡ false = ground (arith, length-append p rest) in
    let full : (length p == 0) || ltb max_body_length (length p) ≡ false = ground arith in
    let there : ltb (length (p ++ rest)) (length p) ≡ false =
      ground (arith, length-append p rest) in
    simp (n, d, long, full, there, take-append p rest, drop-append p rest) refl

-- `ReadLoop` on the bytes of a batch hands on its packets, in order, and then finds the end of the
-- stream between two packets.
pub read_loop-combine :
    (fuel : ℕ) (ps : List Bytes)
    → All IsBody ps
    → length (combine ps) < fuel
    → read_loop fuel (combine ps) ≡ (ps, header_error)
unfolding combine
read_loop-combine zero ps bodies h = absurd (omega arith)
read_loop-combine (suc fuel) [] bodies h = read_loop_end fuel
read_loop-combine (suc fuel) (p ∷ ps) (body, bodies) h =
    let shorter : length (combine ps) < fuel =
      omega (arith, length-append (frame p) (combine ps), length-frame p) in
    read_loop-frame fuel p (combine ps) body ∙ simp (read_loop-combine fuel ps bodies shorter) refl

-- With fuel for every byte `ReadLoop` ends, by an error or by a header that it refuses, and every
-- body that it hands on has from 1 to 100000 bytes.
pub read_loop-bodies :
    (fuel : ℕ) (stream : Bytes)
    → length stream < fuel
    → All IsBody (read_loop fuel stream).0 × ((read_loop fuel stream).1 ≢ out_of_fuel)
unfolding read_loop
read_loop-bodies zero stream h = absurd (omega arith)
read_loop-bodies (suc fuel) stream h = elim (Bool-cases (ltb (length stream) 4)) [
  | inl short ↦ simp short (tt, λ e. cc)
  | inr long ↦
      let n = decode_length (take 4 stream) in
      elim (Bool-cases ((n == 0) || ltb max_body_length n)) [
        | inl refused ↦ simp (long, refused) (tt, λ e. cc)
        | inr accepted ↦ elim (Bool-cases (ltb (length (drop 4 stream)) n)) [
          | inl cut ↦ simp (long, accepted, cut) (tt, λ e. cc)
          | inr there ↦
              let room : n ≤ length (drop 4 stream) = ground arith in
              let size = length-take n (drop 4 stream) room in
              let rest = read_loop-bodies fuel (drop n (drop 4 stream)) (
                omega (
                  arith,
                  length-drop 4 stream,
                  length-drop n (drop 4 stream),
                  ltb-false (length stream) 4 long,
                )) in
              let body : IsBody (take n (drop 4 stream)) = ground (arith, size) in
              simp (long, accepted, there) ((body, rest.0), rest.1)
        ]
      ]
]

IsBody-IsSpan : (ps : List Bytes) → All IsBody ps → All IsSpan ps
IsBody-IsSpan [] h = h
IsBody-IsSpan (p ∷ ps) (h, hs) = (omega arith, IsBody-IsSpan ps hs)

is_open-send_batch : (s : Session) (ps : List Bytes) → (send_batch s ps).is_open ≡ s.is_open
unfolding send_batch
is_open-send_batch s [] = refl
is_open-send_batch s (p ∷ ps) = elim (Option-cases (batch_size 0 (p ∷ ps))) [
  | inl dropped ↦ rw (dropped, send_batch)
  | inr (total, sized) ↦ rw (sized, send_batch)
]

-- Packets sent as a batch over an idle connection arrive: the bytes that `WriteLoop` writes are for
-- `ReadLoop` the packets, in order.
read_loop-send_batch :
    (s : Session) (ps : List Bytes)
    → s.is_open ≡ true
    → s.write_queue ≡ []
    → All IsBody ps
    → framed_size ps ≤ max_batch_size
    → let bytes = (write_loop (send_batch s ps)).0 in
      read_loop (suc (length bytes)) bytes ≡ (ps, header_error)
unfolding write_loop
read_loop-send_batch s ps is_open idle bodies fits =
    let still : (send_batch s ps).is_open ≡ true = is_open-send_batch s ps ∙ is_open in
    let e : leb (framed_size ps) max_batch_size ≡ true = ground arith in
    let w : written (send_batch s ps).write_queue ≡ combine ps =
      (send_batch_lem s ps (IsBody-IsSpan ps bodies)).0
      ∙ simp e (written-send_all s ps ∙ simp idle refl) in
    simp (still, w) (read_loop-combine (suc (length (combine ps))) ps bodies (omega arith))
