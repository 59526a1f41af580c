-- ===== src/Login.antt =====
-- Theorems on src/Game/PacketHandlers/LoginPacketHandler.cpp with the answers of a request.
use mathlib.Core.List.{append-nil}
use cpp_mmo.Base.Int.{ℤ}
use cpp_mmo.Base.{
  ap, ℕ, ◌≡◌, refl, ◌⊎◌, inl, inr, Bool, true, false, Option, none, some, List, [], ◌∷◌, ◌==◌, ◌≤◌,
  arith, Bool-cases, Option-cases, length, All,
}
use cpp_mmo.Base.Text.{Text}
use cpp_mmo.Float.{FloatOps}
use cpp_mmo.Network.Session.{Session, set_player_id}
use cpp_mmo.Jobs.{c_login}
use cpp_mmo.Auth.{JsonOps, Outcomes, VerifyTicketResponse, on_resolve}
use cpp_mmo.LoginHandler.{
  and_then, Endpoints, Handled, handled, crashed, terminated, of_answers, LoginReply, login_success,
  login_failure, LoginPacket, answer_login, answer_all, verify_login, handle_login,
}
use cpp_mmo.Verification.{IsVerified, length-on_resolve, on_resolve-IsVerified}

singleton : {A : Type 0} (xs : List A) → length xs ≡ 1 → (x : A) × (xs ≡ x ∷ [])
singleton [] h = cc
singleton (x ∷ []) h = (x, refl)
singleton (x ∷ y ∷ xs) h = let never : ⊥ = omega arith in absurd never

abbrev IsRefusal : LoginReply → Type 0
IsRefusal (login_success id name hp max_hp command_id) = ⊥
IsRefusal (login_failure code text command_id) = Unit

module _ {J F : Type 0} ⦃fl : FloatOps F⦄ (json : JsonOps J F) where
  -- What a login comes to: nothing is granted and the session is as it was when the packet or the
  -- answer came, or a verified answer gives its player id to the open session and to its peer, or the
  -- packet has no ticket, or the answer is no success and the log of that throws.
  pub data IsAnswered (named : Endpoints) (s : Session) (packet : Option LoginPacket)
      (verify : Text → ℕ → Option Outcomes) (later : Option Session) : Handled → Type 0 where
    refused :
        (s₁ : Option Session) (sent : List LoginReply)
        → (s₁ ≡ some s) ⊎ (s₁ ≡ later)
        → All IsRefusal sent
        → length sent ≤ 1
        → IsAnswered named s packet verify later (handled s₁ sent)
    granted :
        (s₁ s₂ : Session) (p : LoginPacket) (ticket : Text) (o : Outcomes)
        (r : VerifyTicketResponse F)
        → packet ≡ some p
        → p.session_ticket ≡ some ticket
        → later ≡ some s₁
        → s₁.is_open ≡ true
        → verify ticket p.player_id ≡ some o
        → IsVerified json o
        → on_resolve json o ≡ r ∷ []
        → s₂ ≡ set_player_id s₁ r.player_id
        → IsAnswered named s packet verify later
            (handled (some s₂) (login_success r.player_id r.username 100 100 p.command_id ∷ []))
    without_ticket :
        (p : LoginPacket)
        → packet ≡ some p
        → p.session_ticket ≡ none
        → IsAnswered named s packet verify later crashed
    unnamed :
        (s₁ : Session) (p : LoginPacket) (ticket : Text) (o : Outcomes)
        → packet ≡ some p
        → p.session_ticket ≡ some ticket
        → later ≡ some s₁
        → s₁.is_open ≡ true
        → verify ticket p.player_id ≡ some o
        → ¬ IsVerified json o
        → named.at_answer ≡ false
        → IsAnswered named s packet verify later terminated

  answer_all_one :
      (named : Bool) (s : Option Session) (id : ℤ) (r : VerifyTicketResponse F)
      → answer_all named s id (r ∷ []) ≡ answer_login named s id r
  unfolding answer_all
  answer_all_one named s id r = alone (answer_login named s id r)
    where
      alone : (o : Option (Option Session × List LoginReply)) → and_then o (λ s. some (s, [])) ≡ o
      alone none = refl
      alone (some (s, sent)) = ap (λ x. some (s, x)) (append-nil sent)

  answered :
      (named : Endpoints) (s : Session) (p : LoginPacket) (ticket : Text)
      (verify : Text → ℕ → Option Outcomes) (later : Option Session) (o : Outcomes)
      (r : VerifyTicketResponse F)
      → p.session_ticket ≡ some ticket
      → verify ticket p.player_id ≡ some o
      → on_resolve json o ≡ r ∷ []
      → IsAnswered named s
          (some p)
          verify
          later
          (of_answers (answer_login named.at_answer later p.command_id r))
  unfolding answer_login
  answered named s p ticket verify none o r there sent h =
      refused none [] (inr refl) tt (omega arith)
  answered named s p ticket verify (some s₁) o r there sent h = elim (Bool-cases s₁.is_open) [
    | inr closed ↦ simp closed (refused (some s₁) [] (inr refl) tt (omega arith))
    | inl is_open ↦ elim (Bool-cases r.success) [
      | inl ok ↦
          simp (is_open, ok)
            (granted s₁ _ p ticket o r refl there refl is_open sent
              ((on_resolve-IsVerified json o r h).0 ok) h (simp is_open refl))
      | inr failed ↦ elim (Bool-cases named.at_answer) [
        | inl known ↦
            simp (is_open, failed, known)
              (refused (some s₁) (login_failure r.error_code r.error_message p.command_id ∷ [])
                (inr refl) (tt, tt) (omega arith))
        | inr unknown ↦
            simp (is_open, failed, unknown)
              (unnamed s₁ p ticket o refl there refl is_open sent
                (λ v. let ok = (on_resolve-IsVerified json o r h).1 v in cc) unknown)
      ]
    ]
  ]

  -- The one response of a request.
  response : (o : Outcomes) → (r : VerifyTicketResponse F) × (on_resolve json o ≡ r ∷ [])
  response o = singleton (on_resolve json o) (length-on_resolve json o)

  with_ticket :
      (has : Bool) (named : Endpoints) (s : Session) (p : LoginPacket)
      (verify : Text → ℕ → Option Outcomes) (later : Option Session) (ticket : Option Text)
      → p.session_ticket ≡ ticket
      → IsAnswered named s
          (some p)
          verify
          later
          (verify_login json has named s p verify later ticket)
  unfolding verify_login
  with_ticket has named s p verify later none there = without_ticket p refl there
  with_ticket has named s p verify later (some ticket) there = elim (Bool-cases named.at_packet) [
    | inr unknown ↦ simp unknown (refused (some s) [] (inl refl) tt (omega arith))
    | inl known ↦ elim (Bool-cases has) [
      | inr missing ↦ simp (known, missing) (refused (some s) _ (inl refl) (tt, tt) (omega arith))
      | inl there_is ↦ elim (Option-cases (verify ticket p.player_id)) [
        | inl unwritten ↦
            simp (known, there_is, unwritten) (refused (some s) [] (inl refl) tt (omega arith))
        | inr (o, sent) ↦
            let (r, h) = response o in
            simp (known, there_is, sent)
              (simp (h, answer_all_one) (answered named s p ticket verify later o r there sent h))
      ]
    ]
  ]

  -- For every packet and every outcome of its request, the handler either grants nothing, leaves
  -- the session as it is and sends at most one reply, a refusal; or the request is verified, the
  -- session is open, and it gets the player id of the response and one reply that confirms it; or the
  -- packet has no ticket, and the handler follows a null pointer; or the request is not verified, the
  -- session is open but its endpoint is gone, and the exception of the log ends the process.
  pub handle_login-IsAnswered :
      (has_auth_service : Bool) (named : Endpoints) (s : Session) (packet_id : ℕ)
      (packet : Option LoginPacket) (verify : Text → ℕ → Option Outcomes) (later : Option Session)
      → IsAnswered named s packet verify later
          (handle_login json has_auth_service named s packet_id packet verify later)
  unfolding handle_login
  handle_login-IsAnswered has named s id packet verify later = elim (Bool-cases (id == c_login)) [
    | inr other ↦ simp other (refused (some s) [] (inl refl) tt (omega arith))
    | inl login ↦ simp login (by_packet packet)
  ]
    where
      by_packet :
          (packet : Option LoginPacket)
          → IsAnswered named s packet verify later
              (handle_login json has named s c_login packet verify later)
      by_packet none = elim (Bool-cases named.at_packet) [
        | inl known ↦ simp known (refused (some s) _ (inl refl) (tt, tt) (omega arith))
        | inr unknown ↦ simp unknown (refused (some s) [] (inl refl) tt (omega arith))
      ]
      by_packet (some p) = with_ticket has named s p verify later p.session_ticket refl

  -- If the packet has a ticket, the endpoint of its session is known when it comes, the request can be
  -- written and is verified, and the session is still open, the handler gives it the player id of the
  -- response and sends one reply, which confirms the login.
  pub handle_login-IsVerified :
      (named : Endpoints) (s s₁ : Session) (p : LoginPacket) (ticket : Text) (o : Outcomes)
      (verify : Text → ℕ → Option Outcomes)
      → named.at_packet ≡ true
      → p.session_ticket ≡ some ticket
      → s₁.is_open ≡ true
      → verify ticket p.player_id ≡ some o
      → IsVerified json o
      → (r : VerifyTicketResponse F) × (on_resolve json o ≡ r ∷ [])
        × (handle_login json true named s c_login (some p) verify (some s₁)
            ≡ handled
                (some (set_player_id s₁ r.player_id))
                (login_success r.player_id r.username 100 100 p.command_id ∷ []))
  unfolding handle_login verify_login answer_login
  handle_login-IsVerified named s s₁ p ticket o verify known there is_open sent v =
      let (r, h) = response o in
      let ok = (on_resolve-IsVerified json o r h).1 v in
      (r, h, simp (there, known, sent) (simp (h, is_open, ok) refl))
