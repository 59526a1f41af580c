-- ===== src/Agreement.antt =====
-- Theorems on the two maps of sessions, Online.
use mathlib.Core.Path.{subst}
use cpp_mmo.Base.{
  ℕ, ◌+◌, ◌%◌, ◌^◌, ◌<◌, ◌≡◌, refl, sym, ap, ◌∙◌, inl, inr, Option, none, some, List, [], arith,
  Bool-cases, ◌==◌, if◌then◌else◌,
}
use cpp_mmo.Base.Dict.{find, find-store}
use cpp_mmo.Base.Text.{to_string}
use cpp_mmo.Command.{GameCommand}
use cpp_mmo.Network.Session.{Session, new_session, set_on_disconnected_callback}
use cpp_mmo.Network.Manager.{
  Manager, add_session, get_session, remove_session, is_full, Server,
  on_session_disconnected_internal,
}
use cpp_mmo.Network.Sessions.{sessions-remove_session}
use cpp_mmo.ChatManager.{find_session}
use cpp_mmo.Broadcast.{find_session_lem}
use cpp_mmo.Online.{
  Online, nobody, make_session, add_to, announce_session, accept_session, drop_session, Reached,
  starts, accepts, skips, drops,
}

module _ {F : Type 0} where
  -- What the session manager gives for an id.
  abbrev pub known_in : Option (Manager F) → ℕ → Option Session
  known_in none id = none
  known_in (some m) id = get_session m id

  abbrev pub known : Online F → ℕ → Option Session
  known o id = known_in o.server.manager id

  -- Both maps give the same session for every id.
  abbrev pub IsAgreed : Online F → Type 0
  IsAgreed o = (id : ℕ) → id < 2 ^ 64 → find_session (to_string id) o.chat ≡ known o id

  -- What the states of the server have besides.
  record IsServing (o : Online F) : Type 0 where
    manager : (m : Manager F) × (o.server.manager ≡ some m)
    next : o.server.next_session_id < 2 ^ 64
    agreed : IsAgreed o

  known-announce_session :
      (o : Online F) (s : Session) (id : ℕ) (m : Manager F)
      → o.server.manager ≡ some m
      → known (announce_session o s) id ≡ (if id == s.session_id then some s else known o id)
  unfolding announce_session add_session get_session
  known-announce_session o s id m there =
      ap (λ n. known_in (add_to n s) id) there
      ∙ find-store s.session_id id s m.active_sessions
      ∙ ap (λ n. if id == s.session_id then some s else known_in n id) (sym there)

  pub server-drop_session :
      (o : Online F) (s : Session) (now : ℕ) (m : Manager F)
      → o.server.manager ≡ some m
      → (drop_session o s now).server ≡ record {
        manager = some (remove_session m s.session_id now);
        next_session_id = o.server.next_session_id;
      }
  unfolding drop_session on_session_disconnected_internal
  server-drop_session o s now m there =
      ap
        (λ (x : Option (Manager F)).
          on_session_disconnected_internal
            (record { manager = x; next_session_id = o.server.next_session_id }) s now)
        there

  pub known-drop_session :
      (o : Online F) (s : Session) (now id : ℕ) (m : Manager F)
      → o.server.manager ≡ some m
      → known (drop_session o s now) id ≡ (if id == s.session_id then none else known o id)
  unfolding get_session
  known-drop_session o s now id m there =
      ap (λ (x : Server F). known_in x.manager id) (server-drop_session o s now m there)
      ∙ sessions-remove_session m s.session_id now id
      ∙ ap (λ n. if id == s.session_id then none else known_in n id) (sym there)

  announce_session-IsServing :
      (o : Online F) (s : Session)
      → s.session_id < 2 ^ 64
      → IsServing o
      → IsServing (announce_session o s)
  unfolding announce_session
  announce_session-IsServing o s small h =
      let (m, there) = h.manager in
      record {
        manager = (add_session m s, ap (λ n. add_to n s) there);
        next = h.next;
        agreed = λ id fits.
            (find_session_lem o.chat s id small fits).0
            ∙ ap (λ x. if id == s.session_id then some s else x) (h.agreed id fits)
            ∙ sym (known-announce_session o s id m there);
      }

  drop_session-IsServing :
      (o : Online F) (s : Session) (now : ℕ)
      → s.session_id < 2 ^ 64
      → IsServing o
      → IsServing (drop_session o s now)
  unfolding drop_session
  drop_session-IsServing o s now small h =
      let (m, there) = h.manager in
      record {
        manager = (
          remove_session m s.session_id now,
          ap (λ (x : Server F). x.manager) (server-drop_session o s now m there),
        );
        next = rw (server-drop_session o s now m there) h.next;
        agreed = λ id fits.
            (find_session_lem o.chat s id small fits).1
            ∙ ap (λ x. if id == s.session_id then none else x) (h.agreed id fits)
            ∙ sym (known-drop_session o s now id m there);
      }

  -- The state in which a session was made and is not yet added.
  make_session-IsServing :
      (o o₁ : Online F) (s : Session)
      → IsServing o
      → make_session o ≡ (some s, o₁)
      → IsServing o₁ × (s.session_id < 2 ^ 64)
  unfolding make_session
  make_session-IsServing o o₁ s h e = elim (Bool-cases (is_full o.server.manager)) [
    | inl full ↦
        let e' = simp full at e in
        let never : ◌≡◌ {A = Option Session} none (some s) = ap (λ x. x.0) e' in absurd cc
    | inr room ↦
        let e' = simp room at e in
        let one : ◌≡◌ {A = Option Session}
            (some (set_on_disconnected_callback (new_session o.server.next_session_id))) (some s) =
          ap (λ x. x.0) e' in
        let made : set_on_disconnected_callback (new_session o.server.next_session_id) ≡ s = cc in
        let state : IsServing (record o {
          server = record o.server { next_session_id = (o.server.next_session_id + 1) % 2 ^ 64 };
        }) =
          record { manager = h.manager; next = omega arith; agreed = h.agreed } in
        (
          subst IsServing (ap (λ x. x.1) e') state,
          subst (λ (x : Session). x.session_id < 2 ^ 64) made h.next,
        )
  ]

  accept_session-IsServing : (o : Online F) → IsServing o → IsServing (accept_session o)
  unfolding accept_session make_session
  accept_session-IsServing o h = elim (Bool-cases (is_full o.server.manager)) [
    | inl full ↦ simp full h
    | inr room ↦ simp room (
        announce_session-IsServing _ _ h.next
          (record { manager = h.manager; next = omega arith; agreed = h.agreed }))
  ]

  skip_session-IsServing : (o : Online F) → IsServing o → IsServing (make_session o).1
  unfolding make_session
  skip_session-IsServing o h = elim (Bool-cases (is_full o.server.manager)) [
    | inl full ↦ simp full h
    | inr room ↦ simp room (record { manager = h.manager; next = omega arith; agreed = h.agreed })
  ]

  nobody-IsServing : (queue : Option (List (GameCommand F))) → IsServing (nobody queue)
  unfolding find_session get_session find
  nobody-IsServing queue = record {
    manager = (record { active_sessions = []; pushed = queue }, refl);
    next = omega arith;
    agreed = λ id fits. refl;
  }

  Reached-IsServing : {o : Online F} → Reached o → IsServing o
  Reached-IsServing (starts queue) = nobody-IsServing queue
  Reached-IsServing (accepts {o} before) = accept_session-IsServing o (Reached-IsServing before)
  Reached-IsServing (skips {o} before) = skip_session-IsServing o (Reached-IsServing before)
  Reached-IsServing (drops {o} s now small before) =
      drop_session-IsServing o s now small (Reached-IsServing before)

  -- Between the rounds of `AcceptLoop`, whatever sessions connected and disconnected, the session
  -- manager and the chat manager know the same sessions, by the same ids.
  pub Reached-IsAgreed : {o : Online F} → Reached o → IsAgreed o
  Reached-IsAgreed before = (Reached-IsServing before).agreed
