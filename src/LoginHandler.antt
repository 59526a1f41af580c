-- ===== src/LoginHandler.antt =====
-- src/Game/PacketHandlers/LoginPacketHandler.cpp. The handler gets the session again when the answer
-- comes, from a weak pointer.
use cpp_mmo.Base.{ℕ, Bool, Option, none, some, List, [], ◌∷◌, ◌++◌, ◌==◌, if◌then◌else◌}
use cpp_mmo.Base.Int.{ℤ, pos, negsuc}
use cpp_mmo.Base.Text.{Text}
use cpp_mmo.Float.{FloatOps}
use cpp_mmo.Network.Session.{Session, set_player_id}
use cpp_mmo.Jobs.{c_login}
use cpp_mmo.Auth.{
  ErrorText, invalid_login, auth_unavailable, VerifyTicketResponse, JsonOps, Outcomes, on_resolve,
}

pub record LoginPacket : Type 0 where
  -- A string of the schema that need not be there.
  pub session_ticket : Option Text
  pub player_id : ℕ
  pub command_id : ℤ

pub data LoginReply : Type 0 where
  -- The player's id, name, health and maximal health; the position is left out.
  login_success : ℕ → Text → ℕ → ℕ → ℤ → LoginReply
  login_failure : ℤ → ErrorText → ℤ → LoginReply

-- Whether `GetRemoteEndpoint()` gives the peer of the session, which the logs print, or throws: when the
-- packet is handled, and when the answer comes.
pub record Endpoints : Type 0 where
  pub at_packet : Bool
  pub at_answer : Bool

-- What the handler comes to. An exception while the packet is handled is caught by the worker, and has
-- the session as it was and nothing sent.
pub data Handled : Type 0 where
  handled : Option Session → List LoginReply → Handled
  -- The code follows a null pointer.
  crashed : Handled
  -- An exception leaves a thread of the io_context, which ends the process.
  terminated : Handled

-- What a second callback does after a first.
abbrev pub and_then :
    Option (Option Session × List LoginReply)
    → (Option Session → Option (Option Session × List LoginReply))
    → Option (Option Session × List LoginReply)
and_then none next = none
and_then (some (s, sent)) next = elim (next s) [
  | none ↦ none
  | some (s₁, sent₁) ↦ some (s₁, sent ++ sent₁)
]

module _ {F : Type 0} where
  -- The callback of the request: the session after it, and what is sent to it; none where it throws.
  unfoldable pub answer_login :
      Bool → Option Session → ℤ → VerifyTicketResponse F → Option (Option Session × List LoginReply)
  unfolding set_player_id
  answer_login named none command_id r = some (none, [])
  answer_login named (some s) command_id r =
      if s.is_open
      then (if r.success
          then some (
            some (set_player_id s r.player_id),
            login_success r.player_id r.username 100 100 command_id ∷ [],
          )
          else if named
          then some (some s, login_failure r.error_code r.error_message command_id ∷ [])
          else none)
      else some (some s, [])

  -- The answers in turn.
  unfoldable pub answer_all :
      Bool
      → Option Session
      → ℤ
      → List (VerifyTicketResponse F)
      → Option (Option Session × List LoginReply)
  unfolding answer_login
  answer_all named s command_id [] = some (s, [])
  answer_all named s command_id (r ∷ rs) =
      and_then (answer_login named s command_id r) (λ s₁. answer_all named s₁ command_id rs)

abbrev pub of_answers : Option (Option Session × List LoginReply) → Handled
of_answers none = terminated
of_answers (some (s, sent)) = handled s sent

module _ {J F : Type 0} ⦃fl : FloatOps F⦄ (json : JsonOps J F) where
  -- From the reading of the ticket on.
  unfoldable pub verify_login :
      Bool
      → Endpoints
      → Session
      → LoginPacket
      → (Text → ℕ → Option Outcomes)
      → Option Session
      → Option Text
      → Handled
  unfolding answer_all on_resolve
  verify_login has_auth_service named s p verify later none = crashed
  verify_login has_auth_service named s p verify later (some ticket) =
      if named.at_packet
      then (if has_auth_service
          then elim (verify ticket p.player_id) [
            | none ↦ handled (some s) []
            | some o ↦
                of_answers (answer_all named.at_answer later p.command_id (on_resolve json o))
          ]
          else handled (some s) (login_failure (negsuc 98) auth_unavailable p.command_id ∷ []))
      else handled (some s) []

  -- The handler for a session that is not null; `verify` gives what becomes of a request for a ticket
  -- and a player, or none where writing the request throws (AuthRequest), `later` is what the weak pointer gives when the answer comes.
  unfoldable pub handle_login :
      Bool
      → Endpoints
      → Session
      → ℕ
      → Option LoginPacket
      → (Text → ℕ → Option Outcomes)
      → Option Session
      → Handled
  unfolding verify_login
  handle_login has_auth_service named s packet_id packet verify later =
      if packet_id == c_login
      then elim packet [
        | none ↦
            handled (some s)
              (if named.at_packet then login_failure (negsuc 0) invalid_login (pos 0) ∷ [] else [])
        | some p ↦ verify_login has_auth_service named s p verify later p.session_ticket
      ]
      else handled (some s) []
