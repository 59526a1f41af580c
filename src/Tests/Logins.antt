-- ===== src/Tests/Logins.antt =====
-- The theorems on logins at a small model of JSON values.
use cpp_mmo.Base.{ℕ, ◌≡◌, refl, ◌↔◌, inr, Bool, true, Option, none, some, [], ◌∷◌}
use cpp_mmo.Base.Int.{pos}
use cpp_mmo.Base.Text.{Text}
use cpp_mmo.Network.Session.{Session, set_player_id}
use cpp_mmo.Jobs.{c_login}
use cpp_mmo.Auth.{
  JsonOps, Key, success_key, player_info_key, player_id_key, name_key, Parsed, parsed, parse_error,
  Outcomes, end_of_stream, http_ok, VerifyTicketResponse, blank, on_connect, on_write, on_read,
  read_response, read_body, read_json, read_verdict, read_success, read_player_info, set_from,
  on_resolve,
}
use cpp_mmo.LoginHandler.{Endpoints, handled, login_success, LoginPacket, handle_login}
use cpp_mmo.Verification.{IsVerified, on_resolve-IsVerified}
use cpp_mmo.Login.{IsAnswered, handle_login-IsAnswered, handle_login-IsVerified}
use cpp_mmo.Tests.Scaled.{scaled}

data Json : Type 0 where
  json_bool : Bool → Json
  json_number : ℕ → Json
  json_text : Text → Json
  -- An object with a player id and a name, and one with a verdict and a player.
  json_player : ℕ → Text → Json
  json_answer : Bool → Json → Json

abbrev field_of : Key → Json → Option Json
field_of player_id_key (json_player id name) = some (json_number id)
field_of name_key (json_player id name) = some (json_text name)
field_of success_key (json_answer b player) = some (json_bool b)
field_of player_info_key (json_answer b player) = some player
field_of key j = none

abbrev bool_of : Json → Option Bool
bool_of (json_bool b) = some b
bool_of j = none

abbrev number_of : Json → Option ℕ
number_of (json_number n) = some n
number_of j = none

abbrev text_of : Json → Option Text
text_of (json_text t) = some t
text_of j = none

abbrev object_of : Json → Option Json
object_of (json_player id name) = some (json_player id name)
object_of (json_answer b player) = some (json_answer b player)
object_of j = none

abbrev parse_text : Text → Parsed Json
parse_text [] = parse_error []
parse_text (id ∷ name) = parsed (json_answer true (json_player id name))

abbrev small_json : JsonOps Json ℕ
small_json = record {
  parse = parse_text;
  field = field_of;
  as_bool = bool_of;
  as_object = object_of;
  as_unsigned = number_of;
  as_string = text_of;
  as_number = number_of;
  as_integer = λ j. none;
}

abbrev good : Outcomes
good = record {
  resolve_error = none;
  connect_error = none;
  write_error = none;
  read_outcome = end_of_stream;
  response = record { status = http_ok; reason = []; body = 7 ∷ 65 ∷ [] };
}

abbrev welcome : VerifyTicketResponse ℕ
welcome = record blank { success = true; player_id = 7; username = 65 ∷ [] }

abbrev ticket : LoginPacket
ticket = record { session_ticket = some (1 ∷ []); player_id = 7; command_id = pos 3 }

abbrev fresh : Session
fresh = record {
  session_id = 1;
  player_id = 0;
  is_open = true;
  read_header = [];
  read_body = [];
  write_queue = [];
  has_callback = true;
}

abbrev named : Endpoints
named = record { at_packet = true; at_answer = true }

abbrev always_good : Text → ℕ → Option Outcomes
always_good session_ticket id = some good

good-welcome : on_resolve small_json good ≡ welcome ∷ []
unfolding on_resolve on_connect on_write on_read read_response read_body read_json read_verdict
    read_success read_player_info set_from
good-welcome = refl

good-IsVerified : IsVerified small_json good
good-IsVerified =
    (refl, refl, refl, inr refl, refl, (json_answer true (json_player 7 (65 ∷ [])), refl, refl))

on_resolve-IsVerified_example : (welcome.success ≡ true) ↔ IsVerified small_json good
on_resolve-IsVerified_example = on_resolve-IsVerified small_json good welcome good-welcome

handle_login-IsAnswered_example :
    IsAnswered small_json named fresh
      (some ticket)
      always_good
      (some fresh)
      (handle_login small_json true named fresh c_login (some ticket) always_good (some fresh))
handle_login-IsAnswered_example =
    handle_login-IsAnswered small_json true named fresh c_login (some ticket) always_good
      (some fresh)

handle_login-IsVerified_example :
    (r : VerifyTicketResponse ℕ) × (on_resolve small_json good ≡ r ∷ [])
    × (handle_login small_json true named fresh c_login (some ticket) always_good (some fresh)
        ≡ handled
            (some (set_player_id fresh r.player_id))
            (login_success r.player_id r.username 100 100 (pos 3) ∷ []))
handle_login-IsVerified_example =
    handle_login-IsVerified small_json named fresh fresh ticket (1 ∷ []) good always_good refl refl
      refl refl good-IsVerified
