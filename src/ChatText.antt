-- ===== src/ChatText.antt =====
-- Theorems on the text of a chat message, from ChatPacketHandler.cpp to ChatManager.cpp.
use cpp_mmo.Base.{
  ℕ, zero, suc, ◌+◌, ◌-◌, ◌*◌, ◌/◌, ◌%◌, ◌^◌, ◌<◌, ◌≡◌, refl, ◌∙◌, inl, inr, true, false, some, [],
  ◌∷◌, ◌++◌, arith, Bool-cases, ltb, leb, ◌==◌, length, drop, take-append, All, All-append,
}
use native.Mathlib.Numerals.{unary_clauses}
use cpp_mmo.Base.Int.{ℤ, pos, negsuc}
use cpp_mmo.Base.Text.{Text, digits, to_string}
use cpp_mmo.Chat.{
  to_int64, to_string_ℤ, message_with_player, find_delimiter, is_digit, is_space, scan,
  starts_with_digit, skip_space, stoll_number, stoll_signed, stoll, parse_chat,
}

abbrev IsDigits : Text → Type 0
IsDigits cs = All (λ c. is_digit c ≡ true) cs

digits-IsDigits : (fuel n : ℕ) → IsDigits (digits fuel n)
unfolding digits
digits-IsDigits zero n = tt
digits-IsDigits (suc fuel) n = elim (Bool-cases (ltb n 10)) [
  | inl one ↦ simp one (ground arith, tt)
  | inr more ↦
      let last : is_digit (b'0' + n % 10) ≡ true = ground arith in
      simp more (All-append _ (digits fuel (n / 10)) _ (digits-IsDigits fuel (n / 10)) (last, tt))
]

scan-append : (xs ys : Text) (n : ℕ) → IsDigits xs → scan n (xs ++ ys) ≡ scan (scan n xs) ys
unfolding scan
scan-append [] ys n h = refl
scan-append (x ∷ xs) ys n (h, hs) = simp h (scan-append xs ys (10 * n + (x - b'0')) hs)

scan_one : (n d : ℕ) → d < 10 → scan n ((b'0' + d) ∷ []) ≡ 10 * n + d
unfolding scan
scan_one n d h = let e : is_digit (b'0' + d) ≡ true = ground arith in simp e (omega arith)

-- Enough digits print the whole number.
scan-digits : (fuel n : ℕ) → n < 10 ^ fuel → scan 0 (digits fuel n) ≡ n
unfolding digits scan
scan-digits zero n h = omega (arith, simp unary_clauses at h)
scan-digits (suc fuel) n h = elim (Bool-cases (ltb n 10)) [
  | inl one ↦ simp one (scan_one 0 n (ground arith) ∙ omega arith)
  | inr more ↦
      let front : n / 10 < 10 ^ fuel = omega (arith, simp unary_clauses at h) in
      simp
        (
          more,
          scan-append (digits fuel (n / 10)) ((b'0' + n % 10) ∷ []) 0
              (digits-IsDigits fuel (n / 10)),
          scan-digits fuel (n / 10) front,
        )
        (scan_one (n / 10) (n % 10) (omega arith) ∙ omega arith)
]

find_delimiter-append :
    (xs ys : Text) → IsDigits xs → find_delimiter (xs ++ b'|' ∷ ys) ≡ some (length xs)
unfolding find_delimiter
find_delimiter-append [] ys h = refl
find_delimiter-append (x ∷ xs) ys (h, hs) =
    let other : (x == b'|') ≡ false = ground arith in
    simp (other, find_delimiter-append xs ys hs) refl

starts_with_digit-append :
    (xs : Text) (c : ℕ) → IsDigits (xs ++ c ∷ []) → starts_with_digit (xs ++ c ∷ []) ≡ true
unfolding starts_with_digit
starts_with_digit-append [] c h = h.0
starts_with_digit-append (x ∷ xs) c h = h.0

starts_with_digit-digits : (fuel n : ℕ) → starts_with_digit (digits (suc fuel) n) ≡ true
unfolding digits starts_with_digit
starts_with_digit-digits fuel n = elim (Bool-cases (ltb n 10)) [
  | inl one ↦ simp one (ground arith)
  | inr more ↦
      let last : is_digit (b'0' + n % 10) ≡ true = ground arith in
      simp more (
        starts_with_digit-append (digits fuel (n / 10)) (b'0' + n % 10)
          (All-append _ (digits fuel (n / 10)) _ (digits-IsDigits fuel (n / 10)) (last, tt)))
]

skip_space_digit : (cs : Text) → starts_with_digit cs ≡ true → skip_space cs ≡ cs
unfolding skip_space starts_with_digit
skip_space_digit [] h = refl
skip_space_digit (c ∷ cs) h = let e : is_space c ≡ false = ground arith in simp e refl

stoll_signed_digit :
    (cs : Text) → starts_with_digit cs ≡ true → stoll_signed cs ≡ stoll_number false cs
unfolding stoll_signed starts_with_digit
stoll_signed_digit [] h = absurd (ground arith)
stoll_signed_digit (c ∷ cs) h =
    let minus : (c == b'-') ≡ false = ground arith in
    let plus : (c == b'+') ≡ false = ground arith in simp (minus, plus) refl

pub scan-to_string : (n : ℕ) → n < 10 ^ 20 → scan 0 (to_string n) ≡ n
unfolding to_string
scan-to_string n h = scan-digits 20 n h

starts_with_digit-to_string : (n : ℕ) → starts_with_digit (to_string n) ≡ true
unfolding to_string
starts_with_digit-to_string n = starts_with_digit-digits 19 n

stoll_minus : (cs : Text) → stoll (b'-' ∷ cs) ≡ stoll_number true cs
unfolding stoll stoll_signed skip_space
stoll_minus cs = refl

stoll_number_minus :
    (cs : Text) (n : ℕ)
    → starts_with_digit cs ≡ true
    → scan 0 cs ≡ n + 1
    → n < 2 ^ 63
    → stoll_number true cs ≡ some (negsuc n)
unfolding stoll_number
stoll_number_minus cs n first number small =
    let positive : (n + 1 == 0) ≡ false = ground arith in
    let within : leb (n + 1) (2 ^ 63) ≡ true = ground arith in
    let back : n + 1 - 1 ≡ n = omega arith in simp (first, number, positive, within, back) refl

-- What `std::to_string` prints of an `int64_t`, `std::stoll` reads.
abbrev IsInt64 : ℤ → Type 0
IsInt64 (pos n) = n < 2 ^ 63
IsInt64 (negsuc n) = n < 2 ^ 63

stoll-to_string_ℤ : (i : ℤ) → IsInt64 i → stoll (to_string_ℤ i) ≡ some i
unfolding stoll to_string_ℤ stoll_number
stoll-to_string_ℤ (pos n) h =
    let first = starts_with_digit-to_string n in
    let small : ltb n (2 ^ 63) ≡ true = ground arith in
    simp
      (
        skip_space_digit (to_string n) first,
        stoll_signed_digit (to_string n) first,
        first,
        scan-to_string n (omega arith),
        small,
      )
      refl
stoll-to_string_ℤ (negsuc n) h =
    stoll_minus (to_string (n + 1))
    ∙ stoll_number_minus (to_string (n + 1)) n (starts_with_digit-to_string (n + 1))
        (scan-to_string (n + 1) (omega arith)) h

to_int64-IsInt64 : (id : ℕ) → id < 2 ^ 64 → IsInt64 (to_int64 id)
unfolding to_int64
to_int64-IsInt64 id h = elim (Bool-cases (ltb id (2 ^ 63))) [
  | inl small ↦ simp small (ground arith)
  | inr big ↦ simp big (ground arith)
]

drop-append_suc : (xs : Text) (c : ℕ) (ys : Text) → drop (length xs + 1) (xs ++ c ∷ ys) ≡ ys
drop-append_suc [] c ys = refl
drop-append_suc (x ∷ xs) c ys =
    let e : suc (length xs) + 1 ≡ suc (length xs + 1) = omega arith in
    rw e (drop-append_suc xs c ys)

-- The digits and the sign hold no `|`.
find_delimiter-to_string_ℤ :
    (i : ℤ) (ys : Text)
    → find_delimiter (to_string_ℤ i ++ b'|' ∷ ys) ≡ some (length (to_string_ℤ i))
unfolding to_string_ℤ to_string find_delimiter
find_delimiter-to_string_ℤ (pos n) ys =
    find_delimiter-append (digits 20 n) ys (digits-IsDigits 20 n)
find_delimiter-to_string_ℤ (negsuc n) ys =
    simp (find_delimiter-append (digits 20 (n + 1)) ys (digits-IsDigits 20 (n + 1))) refl

-- The chat manager reads from a published message the player's id, as an `int64_t`, and the text, as
-- they were sent, whatever the text holds.
pub parse_chat-message_with_player :
    (player_id : ℕ) (message : Text)
    → player_id < 2 ^ 64
    → parse_chat (message_with_player player_id message) ≡ some (to_int64 player_id, message)
unfolding message_with_player parse_chat
parse_chat-message_with_player player_id message h =
    let i = to_int64 player_id in
    let number = stoll-to_string_ℤ i (to_int64-IsInt64 player_id h) in
    rw (find_delimiter-to_string_ℤ i message, parse_chat)
      (simp
        (
          take-append (to_string_ℤ i) (b'|' ∷ message),
          number,
          drop-append_suc (to_string_ℤ i) b'|' message,
        )
        refl)
