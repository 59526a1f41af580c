-- ===== src/AuthRequest.antt =====
-- src/Game/Services/AuthService.cpp: the service and the request that `Run` writes. How the JSON library
-- prints an object, and what becomes of a request, are arguments.
use mathlib.Core.Option
use cpp_mmo.Base.{◌≡◌, ℕ, Option, none, some, List, [], ◌∷◌, length}
use cpp_mmo.Base.Text.{Text}
use cpp_mmo.Float.{FloatOps}
use cpp_mmo.Auth.{VerifyTicketResponse, JsonOps, Outcomes, on_resolve}
use cpp_mmo.Verification.{length-on_resolve}

pub record AuthService : Type 0 where
  pub auth_host : Text
  pub auth_port : Text

-- The keys and values of the object that is sent.
pub data Member : Type 0 where
  session_ticket : Text → Member
  player_id : ℕ → Member

pub data Verb : Type 0 where
  post : Verb

pub record HttpRequest : Type 0 where
  pub version : ℕ
  pub method : Verb
  pub target : Text
  pub host : Text
  pub user_agent : Text
  pub content_type : Text
  pub body : Text

-- "/api/auth/verify"
abbrev verify_target : Text
verify_target =
    b'/' ∷ b'a' ∷ b'p' ∷ b'i' ∷ b'/' ∷ b'a' ∷ b'u' ∷ b't' ∷ b'h' ∷ b'/' ∷ b'v' ∷ b'e' ∷ b'r' ∷ b'i'
    ∷ b'f' ∷ b'y' ∷ []

-- "application/json"
abbrev json_type : Text
json_type =
    b'a' ∷ b'p' ∷ b'p' ∷ b'l' ∷ b'i' ∷ b'c' ∷ b'a' ∷ b't' ∷ b'i' ∷ b'o' ∷ b'n' ∷ b'/' ∷ b'j' ∷ b's'
    ∷ b'o' ∷ b'n' ∷ []

-- The request of `Run`; `dump` and `beast_version` are the libraries'. An object keeps its members in the
-- order of their keys. None: `dump` throws, as it does for a string that is not UTF-8.
unfoldable pub request :
    (List Member → Option Text) → Text → AuthService → Text → ℕ → Option HttpRequest
request dump beast_version service ticket id =
    Option.map
      (λ text. record {
        version = 11;
        method = post;
        target = verify_target;
        host = service.auth_host;
        user_agent = beast_version;
        content_type = json_type;
        body = text;
      })
      (dump (player_id id ∷ session_ticket ticket ∷ []))

module _ {J F : Type 0} ⦃fl : FloatOps F⦄ (json : JsonOps J F) (dump : List Member → Option Text)
    (beast_version : Text) (network : Text → Text → HttpRequest → Outcomes) where
  -- The responses of `VerifySessionTicketAsync`; `network` gives what becomes of a request that is sent
  -- to a host and a port. None: it throws.
  unfoldable verify_session_ticket_async :
      AuthService → Text → ℕ → Option (List (VerifyTicketResponse F))
  unfolding request on_resolve
  verify_session_ticket_async service ticket id =
      Option.map (λ r. on_resolve json (network service.auth_host service.auth_port r))
        (request dump beast_version service ticket id)

  -- Whatever the network does, a call that does not throw calls its callback exactly once.
  length-verify_session_ticket_async :
      (service : AuthService) (ticket : Text) (id : ℕ) (rs : List (VerifyTicketResponse F))
      → verify_session_ticket_async service ticket id ≡ some rs
      → length rs ≡ 1
  unfolding verify_session_ticket_async
  length-verify_session_ticket_async service ticket id rs h =
      called (request dump beast_version service ticket id) h
    where
      called :
          (r : Option HttpRequest)
          → Option.map (λ r. on_resolve json (network service.auth_host service.auth_port r)) r
            ≡ some rs
          → length rs ≡ 1
      called none e = cc
      called (some r) e =
          let once = length-on_resolve json (network service.auth_host service.auth_port r) in cc
