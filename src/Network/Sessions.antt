-- ===== src/Network/Sessions.antt =====
-- Theorems on the session manager and on the limit of `AcceptLoop`.
use cpp_mmo.Base.{
  ℕ, ◌+◌, ◌≤◌, ◌≡◌, refl, ap, ◌∙◌, inl, inr, Option, none, some, List, [], arith, Bool-cases,
  Option-cases, leb, ◌==◌, ==_refl, ==_iff, if◌then◌else◌, length,
}
use cpp_mmo.Base.Dict.{find, erase, find-erase, length-store-le, length-erase-le}
use cpp_mmo.Command.{GameCommand}
use cpp_mmo.Network.Session.{Session, new_session, set_on_disconnected_callback}
use cpp_mmo.Network.Manager.{
  Manager, add_session, on_session_disconnected, remove_session, max_concurrent_connections, Server,
  accept, on_session_disconnected_internal,
}

module _ {F : Type 0} where
  remove_session_found :
      (m : Manager F) (s : Session) (id now : ℕ)
      → find id m.active_sessions ≡ some s
      → remove_session m id now
        ≡ on_session_disconnected (record m { active_sessions = erase id m.active_sessions }) s now
  unfolding remove_session
  remove_session_found m s id now there = rw (there, remove_session)

  sessions-on_session_disconnected :
      (m : Manager F) (s : Session) (now : ℕ)
      → (on_session_disconnected m s now).active_sessions ≡ m.active_sessions
  unfolding on_session_disconnected
  sessions-on_session_disconnected m s now = elim (Bool-cases (s.player_id == 0)) [
    | inl guest ↦ simp guest refl
    | inr player ↦ simp player refl
  ]

  remove_session_gone :
      (m : Manager F) (id now : ℕ) → find id m.active_sessions ≡ none → remove_session m id now ≡ m
  unfolding remove_session
  remove_session_gone m id now gone = rw (gone, remove_session)

  pub sessions-remove_session :
      (m : Manager F) (id now q : ℕ)
      → find q (remove_session m id now).active_sessions
        ≡ (if q == id then none else find q m.active_sessions)
  unfolding remove_session
  sessions-remove_session m id now q = elim (Option-cases (find id m.active_sessions)) [
    | inl gone ↦
        rw (gone, remove_session)
          (elim (Bool-cases (q == id)) [
            | inl same ↦
                let e : q ≡ id = (==_iff q id).0 same in
                simp same (ap (λ k. find k m.active_sessions) e ∙ gone)
            | inr other ↦ simp other refl
          ])
    | inr (s, there) ↦
        simp (remove_session_found m s id now there, sessions-on_session_disconnected _ s now)
          (find-erase id q m.active_sessions)
  ]

  -- A session is removed once: the second removal, as when both loops of a session disconnect it,
  -- changes nothing and queues nothing.
  pub remove_session-twice :
      (m : Manager F) (id now later : ℕ)
      → remove_session (remove_session m id now) id later ≡ remove_session m id now
  remove_session-twice m id now later =
      remove_session_gone (remove_session m id now) id later
        (sessions-remove_session m id now id ∙ simp (==_refl id) refl)

  -- At most 600 sessions, or no manager.
  abbrev pub IsBounded : Option (Manager F) → Type 0
  IsBounded none = Unit
  IsBounded (some m) = length m.active_sessions ≤ max_concurrent_connections

  -- The states of the server: connections are accepted, or refused, and sessions disconnect.
  pub data Served : Server F → Type 0 where
    start :
        (queue : Option (List (GameCommand F)))
        → Served (record {
          manager = some (record { active_sessions = []; pushed = queue });
          next_session_id = 0;
        })
    accepts : {s : Server F} → Served s → Served (accept s).1
    disconnects :
        {s : Server F} (session : Session) (now : ℕ)
        → Served s
        → Served (on_session_disconnected_internal s session now)

  length-add_session :
      (m : Manager F) (s : Session)
      → length (add_session m s).active_sessions ≤ length m.active_sessions + 1
  unfolding add_session
  length-add_session m s = length-store-le s.session_id s m.active_sessions

  length-remove_session :
      (m : Manager F) (id now : ℕ)
      → length (remove_session m id now).active_sessions ≤ length m.active_sessions
  length-remove_session m id now = elim (Option-cases (find id m.active_sessions)) [
    | inl gone ↦ simp (remove_session_gone m id now gone) (omega arith)
    | inr (s, there) ↦
        simp (remove_session_found m s id now there, sessions-on_session_disconnected _ s now)
          (length-erase-le id m.active_sessions)
  ]

  accept-IsBounded :
      (o : Option (Manager F)) (id : ℕ)
      → IsBounded o
      → IsBounded (accept (record { manager = o; next_session_id = id })).1.manager
  unfolding accept
  accept-IsBounded none id h = tt
  accept-IsBounded (some m) id h =
      elim (Bool-cases (leb max_concurrent_connections (length m.active_sessions))) [
        | inl full ↦ simp full h
        | inr room ↦
            let added = length-add_session m (set_on_disconnected_callback (new_session id)) in
            let few : length m.active_sessions + 1 ≤ max_concurrent_connections = ground arith in
            simp room (omega arith)
      ]

  disconnect-IsBounded :
      (o : Option (Manager F)) (id : ℕ) (session : Session) (now : ℕ)
      → IsBounded o
      → IsBounded
          (on_session_disconnected_internal
            (record { manager = o; next_session_id = id })
            session
            now).manager
  unfolding on_session_disconnected_internal
  disconnect-IsBounded none id session now h = tt
  disconnect-IsBounded (some m) id session now h =
      omega (arith, length-remove_session m session.session_id now)

  -- Whatever connects and disconnects, the server has at most 600 sessions.
  pub Served-IsBounded : {server : Server F} → Served server → IsBounded server.manager
  Served-IsBounded (start queue) = omega arith
  Served-IsBounded (accepts before) = accept-IsBounded _ _ (Served-IsBounded before)
  Served-IsBounded (disconnects session now before) =
      disconnect-IsBounded _ _ session now (Served-IsBounded before)
