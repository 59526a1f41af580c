-- ===== src/Accepting.antt =====
-- `AcceptLoop` of src/Network/TcpServer.cpp with what throws in it. Its handlers stand outside the loop,
-- so the loop ends with the first exception, and the server goes on without it.
use cpp_mmo.Base.{
  ◌<◌, ◌^◌, ℕ, ◌≡◌, refl, sym, ◌∙◌, ap, inl, inr, Bool, true, false, Bool-cases, Option-cases,
  arith, Option, none, some, List, [], ◌∷◌, ◌||◌, if◌then◌else◌, ◌==◌,
}
use cpp_mmo.Network.Session.{Session}
use cpp_mmo.Network.Manager.{Server, Manager, is_full, on_session_disconnected_internal}
use cpp_mmo.Online.{Online, make_session, accept_session, drop_session}
use cpp_mmo.Agreement.{known, known_in, server-drop_session, known-drop_session}

-- What throws in a round, for a connection that asks to be accepted.
pub record Arrival : Type 0 where
  -- `async_accept`
  pub accept_fails : Bool
  -- `remote_endpoint()`: the peer has reset the connection again.
  pub is_unnamed : Bool
  -- `close()` of a connection over the limit.
  pub close_fails : Bool
  -- `set_option()`
  pub options_fail : Bool
  -- The constructor of `Session`, which logs the endpoint after it has taken its id.
  pub session_fails : Bool
  -- `m_onSessionConnected`, which logs the endpoint after it has stored the session.
  pub callback_fails : Bool

pub record Accepting (F : Type 0) : Type 0 where
  pub online : Online F
  -- Whether `AcceptLoop` still runs.
  pub is_accepting : Bool

pub data Event : Type 0 where
  arrives : Arrival → Event
  leaves : Session → ℕ → Event

abbrev HasId : Event → Type 0
HasId (arrives a) = Unit
HasId (leaves s now) = s.session_id < 2 ^ 64

module _ {F : Type 0} where
  abbrev pub going : Online F → Accepting F
  going o = record { online = o; is_accepting = true }

  abbrev pub ended : Online F → Accepting F
  ended o = record { online = o; is_accepting = false }

  -- A round, for a loop that runs.
  unfoldable accept_round : Online F → Arrival → Accepting F
  unfolding make_session accept_session
  accept_round o a =
      if a.accept_fails
      then ended o
      else if is_full o.server.manager
      then (if a.is_unnamed || a.close_fails then ended o else going o)
      else if a.options_fail || a.is_unnamed
      then ended o
      else if a.session_fails
      then ended (make_session o).1
      else if a.callback_fails
      then ended (accept_session o)
      else going (accept_session o)

  -- A connection that asks after the loop has ended is left waiting.
  unfoldable happen : Accepting F → Event → Accepting F
  unfolding accept_round drop_session
  happen x (arrives a) = if x.is_accepting then accept_round x.online a else x
  happen x (leaves s now) = record x { online = drop_session x.online s now }

  unfoldable pub accept_loop : Accepting F → List Event → Accepting F
  unfolding happen
  accept_loop x [] = x
  accept_loop x (e ∷ es) = accept_loop (happen x e) es

  -- No more is known than before, and no session was made.
  pub record IsLess (x y : Accepting F) : Type 0 where
    pub stopped : y.is_accepting ≡ false
    pub next : y.online.server.next_session_id ≡ x.online.server.next_session_id
    pub known_before :
        (id : ℕ) (s : Session) → known y.online id ≡ some s → known x.online id ≡ some s

  server_without_manager :
      (o : Online F) (s : Session) (now : ℕ)
      → o.server.manager ≡ none
      → (drop_session o s now).server ≡ o.server
  unfolding drop_session on_session_disconnected_internal
  server_without_manager o s now none_there =
      let with_manager : Option (Manager F) → Server F =
        λ m. record { manager = m; next_session_id = o.server.next_session_id } in
      ap (λ m. on_session_disconnected_internal (with_manager m) s now) none_there
      ∙ sym (ap with_manager none_there)

  next-drop_session :
      (o : Online F) (s : Session) (now : ℕ)
      → (drop_session o s now).server.next_session_id ≡ o.server.next_session_id
  next-drop_session o s now = elim (Option-cases o.server.manager) [
    | inl gone ↦ ap (λ (x : Server F). x.next_session_id) (server_without_manager o s now gone)
    | inr (m, there) ↦
        ap (λ (x : Server F). x.next_session_id) (server-drop_session o s now m there)
  ]

  known_before_drop :
      (o : Online F) (s : Session) (now id : ℕ) (t : Session)
      → known (drop_session o s now) id ≡ some t
      → known o id ≡ some t
  known_before_drop o s now id t h = elim (Option-cases o.server.manager) [
    | inl gone ↦
        sym (ap (λ (x : Server F). known_in x.manager id) (server_without_manager o s now gone)) ∙ h
    | inr (m, there) ↦
        let e = sym (known-drop_session o s now id m there) ∙ h in
        elim (Bool-cases (id == s.session_id)) [
          | inl same ↦ let e' = simp same at e in cc
          | inr other ↦ simp other at e
        ]
  ]

  IsLess-happen : (x y : Accepting F) (e : Event) → IsLess x y → IsLess x (happen y e)
  unfolding happen
  IsLess-happen x y (arrives a) h = simp h.stopped h
  IsLess-happen x y (leaves s now) h = record {
    stopped = h.stopped;
    next = next-drop_session y.online s now ∙ h.next;
    known_before = λ id t e. h.known_before id t (known_before_drop y.online s now id t e);
  }

  accept_loop-IsLess :
      (x y : Accepting F) (es : List Event) → IsLess x y → IsLess x (accept_loop y es)
  unfolding accept_loop
  accept_loop-IsLess x y [] h = h
  accept_loop-IsLess x y (e ∷ es) h = accept_loop-IsLess x (happen y e) es (IsLess-happen x y e h)

  unnamed-IsLess : (o : Online F) (a : Arrival) → a.is_unnamed ≡ true → accept_round o a ≡ ended o
  unfolding accept_round
  unnamed-IsLess o a unnamed = ground arith

  happen-is_unnamed :
      (x : Accepting F) (a : Arrival) → a.is_unnamed ≡ true → IsLess x (happen x (arrives a))
  unfolding happen
  happen-is_unnamed x a unnamed = elim (Bool-cases x.is_accepting) [
    | inl runs ↦
        simp (runs, unnamed-IsLess x.online a unnamed)
          (record { stopped = refl; next = refl; known_before = λ id s e. e })
    | inr stopped ↦
        simp stopped (record { stopped = stopped; next = refl; known_before = λ id s e. e })
  ]

  -- When the peer of a connection has reset it before the loop logs its endpoint, the loop is over
  -- whatever comes after: no session is made any more, and the session manager only forgets sessions.
  pub accept_loop-is_unnamed :
      (x : Accepting F) (a : Arrival) (es : List Event)
      → a.is_unnamed ≡ true
      → IsLess x (accept_loop x (arrives a ∷ es))
  unfolding accept_loop
  accept_loop-is_unnamed x a es unnamed =
      accept_loop-IsLess x (happen x (arrives a)) es (happen-is_unnamed x a unnamed)
