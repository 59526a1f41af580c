-- ===== src/Chat.antt =====
-- src/Game/PacketHandlers/ChatPacketHandler.cpp and src/Game/Managers/ChatManager.cpp: the text that
-- goes through Redis. `std::to_string`, `find`, `substr` and `std::stoll` are the standard's.
use cpp_mmo.Base.{
  ℕ, suc, ◌+◌, ◌-◌, ◌*◌, ◌^◌, Bool, true, false, ◌&&◌, ◌||◌, Option, none, some, [], ◌∷◌, ◌++◌, ltb,
  leb, ◌==◌, if◌then◌else◌, take, drop,
}
use cpp_mmo.Base.Int.{ℤ, pos, negsuc}
use cpp_mmo.Base.Text.{Text, to_string}

-- A `uint64_t` read as an `int64_t`.
unfoldable pub to_int64 : ℕ → ℤ
to_int64 id = if ltb id (2 ^ 63) then pos id else negsuc (2 ^ 64 - 1 - id)

-- `std::to_string` of an `int64_t`.
unfoldable pub to_string_ℤ : ℤ → Text
unfolding to_string
to_string_ℤ (pos n) = to_string n
to_string_ℤ (negsuc n) = b'-' ∷ to_string (n + 1)

-- What the handler publishes.
unfoldable pub message_with_player : ℕ → Text → Text
unfolding to_int64 to_string_ℤ
message_with_player player_id message = to_string_ℤ (to_int64 player_id) ++ b'|' ∷ message

-- `message.find('|')`
unfoldable pub find_delimiter : Text → Option ℕ
find_delimiter [] = none
find_delimiter (c ∷ cs) =
    let rest = find_delimiter cs in
    if c == b'|' then some 0 else elim rest [ none ↦ none | some n ↦ some (suc n) ]

abbrev pub is_digit : ℕ → Bool
is_digit c = leb b'0' c && leb c b'9'

abbrev pub is_space : ℕ → Bool
is_space c = c == 32 || (leb 9 c && leb c 13)

-- The number that the leading digits write, from `n` on.
unfoldable pub scan : ℕ → Text → ℕ
scan n [] = n
scan n (c ∷ cs) = if is_digit c then scan (10 * n + (c - b'0')) cs else n

unfoldable pub starts_with_digit : Text → Bool
starts_with_digit [] = false
starts_with_digit (c ∷ cs) = is_digit c

unfoldable pub skip_space : Text → Text
skip_space [] = []
skip_space (c ∷ cs) = let rest = skip_space cs in if is_space c then rest else c ∷ cs

-- `std::stoll` after the spaces; `none` for its exceptions.
unfoldable pub stoll_number : Bool → Text → Option ℤ
unfolding scan starts_with_digit
stoll_number is_negative cs =
    let n = scan 0 cs in
    if starts_with_digit cs
    then (if is_negative
        then (if n == 0
            then some (pos 0)
            else if leb n (2 ^ 63)
            then some (negsuc (n - 1))
            else none)
        else if ltb n (2 ^ 63)
        then some (pos n)
        else none)
    else none

unfoldable pub stoll_signed : Text → Option ℤ
unfolding stoll_number
stoll_signed [] = none
stoll_signed (c ∷ cs) =
    if c == b'-'
    then stoll_number true cs
    else if c == b'+'
    then stoll_number false cs
    else stoll_number false (c ∷ cs)

unfoldable pub stoll : Text → Option ℤ
unfolding stoll_signed skip_space
stoll cs = stoll_signed (skip_space cs)

-- What `HandleRedisChatMessage` reads from a message; `none` where it logs an error.
unfoldable pub parse_chat : Text → Option (ℤ × Text)
unfolding find_delimiter stoll
parse_chat message = elim (find_delimiter message) [
  | none ↦ none
  | some position ↦ elim (stoll (take position message)) [
    | none ↦ none
    | some player_id ↦ some (player_id, drop (position + 1) message)
  ]
]
