-- ===== src/Dispatch.antt =====
-- Theorems on the packet manager and the job processor.
use cpp_mmo.Base.{
  ℕ, ◌≡◌, refl, sym, inl, inr, true, false, Option, none, some, List, [], ◌∷◌, ◌++◌, Bool-cases,
  Option-cases, ◌==◌, ==_iff, if◌then◌else◌,
}
use cpp_mmo.Base.Dict.{Dict, find, or_default, find-erase, find-append}
use cpp_mmo.Float.{FloatOps}
use cpp_mmo.Command.{Payload, player_input, enter_zone, player_spawn, player_disconnect}
use cpp_mmo.Jobs.{
  register_handler, unregister_handler, dispatch_packet, JobSession, Job, UnifiedPacket, Accessors,
  Effect, exits, logs, dispatches, pushes, Processor, is_non_game_packet, game_packet,
  process_job_packet, work, dispatched, Workers, start, stop, c_player_input, c_enter_zone,
}

-- A payload that only the given player's client can send.
abbrev IsOwn : {F : Type 0} → JobSession → Payload F → Type 0
IsOwn s (player_input i) = i.player_id ≡ s.player_id
IsOwn s (enter_zone d) = (d.player_id ≡ s.player_id) × (d.session_id ≡ s.session_id)
IsOwn s (player_spawn d) = ⊥
IsOwn s (player_disconnect d) = ⊥

-- A command for the session's own player, under the session's id; any other effect.
abbrev pub IsOwnEffect : {F H : Type 0} → JobSession → Effect F H → Type 0
IsOwnEffect s exits = Unit
IsOwnEffect s logs = Unit
IsOwnEffect s (dispatches h) = Unit
IsOwnEffect s (pushes c) = (c.sender_session_id ≡ s.session_id) × IsOwn s c.payload

module _ (F : Type 0) {D : Type 0} (H : Type 0) ⦃fl : FloatOps F⦄ (accessors : Accessors D) where
  game_packet-IsOwnEffect :
      (s : JobSession) (id : ℕ) (table : Option D)
      → IsOwnEffect {F = F} {H = H} s (game_packet accessors s id table)
  unfolding game_packet
  game_packet-IsOwnEffect s id none = tt
  game_packet-IsOwnEffect s id (some table) = elim (Bool-cases (id == c_player_input)) [
    | inl input ↦ simp input (refl, refl)
    | inr other ↦ elim (Bool-cases (id == c_enter_zone)) [
      | inl enter ↦ simp (other, enter) (refl, (refl, refl))
      | inr unknown ↦ simp (other, unknown) tt
    ]
  ]

  dispatched-IsOwnEffect : (s : JobSession) (h : Option H) → IsOwnEffect {F = F} s (dispatched h)
  dispatched-IsOwnEffect s none = tt
  dispatched-IsOwnEffect s (some h) = tt

  process_job_packet-IsOwnEffect :
      (p : Processor H) (s : JobSession) (packet : UnifiedPacket D)
      → IsOwnEffect {F = F} {H = H} s (process_job_packet accessors p s packet)
  unfolding process_job_packet
  process_job_packet-IsOwnEffect p s packet = elim (Bool-cases (is_non_game_packet packet.id)) [
    | inl other ↦ elim (Option-cases p.packet_manager) [
      | inl null ↦ simp (other, null) tt
      | inr (handlers, set) ↦
          simp (other, set) (dispatched-IsOwnEffect s (dispatch_packet handlers packet.id))
    ]
    | inr game ↦ elim (Bool-cases p.has_game_logic_queue) [
      | inl queue ↦ simp (game, queue) (game_packet-IsOwnEffect s packet.id packet.table)
      | inr null ↦ simp (game, null) tt
    ]
  ]

  -- Whatever bytes a client sends, the command that a worker makes of them, if any, bears that
  -- session's id and is an input or an entry of the session's own player.
  pub work-IsOwnEffect :
      (p : Processor H) (job : Job) → IsOwnEffect {F = F} {H = H} job.session (work accessors p job)
  unfolding work
  work-IsOwnEffect p job = elim (Bool-cases job.is_shutdown_signal) [
    | inl signal ↦ simp signal tt
    | inr packet ↦ simp packet (received job.packet_buffer)
  ]
    where
      received :
          (bytes : List ℕ)
          → IsOwnEffect {F = F} {H = H} job.session (elim bytes [
            | [] ↦ logs
            | b ∷ bs ↦ elim (accessors.verified (b ∷ bs)) [
              | none ↦ logs
              | some packet ↦ process_job_packet accessors p job.session packet
            ]
          ])
      received [] = tt
      received (b ∷ bs) = elim (Option-cases (accessors.verified (b ∷ bs))) [
        | inl invalid ↦ simp invalid tt
        | inr (packet, valid) ↦ simp valid (process_job_packet-IsOwnEffect p job.session packet)
      ]

module _ {H : Type 0} where
  find-one-same : (q id : ℕ) (h : H) → (q == id) ≡ true → find q ((id, h) ∷ []) ≡ some h
  unfolding find
  find-one-same q id h same = simp same refl

  find-one-other : (q id : ℕ) (h : H) → (q == id) ≡ false → find q ((id, h) ∷ []) ≡ none
  unfolding find
  find-one-other q id h other = simp other refl

  -- A registered handler is called for its packet id unless one was registered before it, and other
  -- ids keep theirs.
  dispatch_packet-register_handler :
      (handlers after : Dict H) (id q : ℕ) (h : H)
      → register_handler handlers id (some h) ≡ some after
      → dispatch_packet after q ≡ (
          if q == id
          then some (or_default h (dispatch_packet handlers id))
          else dispatch_packet handlers q)
  unfolding register_handler dispatch_packet
  dispatch_packet-register_handler handlers after id q h e =
      elim (Option-cases (find id handlers)) [
        | inl free ↦
            let made : some (handlers ++ (id, h) ∷ []) ≡ some after = simp free at e in
            let made' : handlers ++ (id, h) ∷ [] ≡ after = cc in
            rw (sym made', free, find-append q handlers ((id, h) ∷ []))
              (elim (Bool-cases (q == id)) [
                | inl same ↦
                    let gone : find q handlers ≡ none = rw ((==_iff q id).0 same) free in
                    simp (same, gone, find-one-same q id h same) refl
                | inr other ↦ elim (Option-cases (find q handlers)) [
                  | inl missing ↦ simp (other, missing) (find-one-other q id h other)
                  | inr (v, found) ↦ simp (other, found) refl
                ]
              ])
        | inr (old, there) ↦
            let kept : some handlers ≡ some after = simp there at e in
            let kept' : handlers ≡ after = cc in
            rw (sym kept') (elim (Bool-cases (q == id)) [
              | inl same ↦ simp (same, there) (rw ((==_iff q id).0 same) there)
              | inr other ↦ simp other refl
            ])
      ]

  -- Nothing is called for an id that was unregistered, and other ids keep their handlers.
  dispatch_packet-unregister_handler :
      (handlers : Dict H) (id q : ℕ)
      → dispatch_packet (unregister_handler handlers id) q
        ≡ (if q == id then none else dispatch_packet handlers q)
  unfolding unregister_handler dispatch_packet
  dispatch_packet-unregister_handler handlers id q = find-erase id q handlers

-- A processor that was started and stopped does not start again: it keeps no thread.
start-stop :
    (w : Workers) (n m : ℕ)
    → w.running ≡ false
    → start (stop (start w n)).0 m ≡ record { running = true; worker_threads = 0 }
unfolding start stop
start-stop w n m idle = simp idle refl
