-- ===== src/Base/Text.antt =====
-- `std::string` as its bytes, and `std::to_string` of an unsigned 64-bit number.
use Prim.Native.Nat.{ℕ, zero, suc, ◌+◌, ◌/◌, ◌%◌}
use mathlib.Core.List.{List, [], ◌∷◌, ◌++◌}
use cpp_mmo.Base.Tests.{ltb, if◌then◌else◌}

abbrev pub Text : Type 0
Text = List ℕ

-- The decimal digits of a number below 10 ^ fuel; a call with no fuel left prints nothing.
unfoldable pub digits : ℕ → ℕ → Text
digits zero n = []
digits (suc fuel) n =
    let front = digits fuel (n / 10) in
    if ltb n 10 then (b'0' + n) ∷ [] else front ++ (b'0' + n % 10) ∷ []

-- 2 ^ 64 has twenty digits.
unfoldable pub to_string : ℕ → Text
unfolding digits
to_string n = digits 20 n

-- `"Player_" + std::to_string(id)`
unfoldable pub player_name : ℕ → Text
unfolding to_string
player_name id = b'P' ∷ b'l' ∷ b'a' ∷ b'y' ∷ b'e' ∷ b'r' ∷ b'_' ∷ to_string id
