-- ===== src/Game/Shown.antt =====
-- Theorems on what the rounds of the game loop send to a player.
use mathlib.Core.List.{Memᴰ}
use cpp_mmo.Base.{ℕ, List, [], ◌∷◌}
use cpp_mmo.Base.Dict.{Dict}
use cpp_mmo.Float.{FloatOps, FloatLaws}
use cpp_mmo.Command.{GameCommand}
use cpp_mmo.QuadTree
use cpp_mmo.World.{Player}
use cpp_mmo.Game.State.{Config, Game, world_snapshot, sent_batch}
use cpp_mmo.Game.Snapshot.{player_states}
use cpp_mmo.Game.Loop.{Round, game_round}
use cpp_mmo.Game.Freshness.{snapped, IsRecent}

module _ {F : Type 0} ⦃fl : FloatOps F⦄ (laws : FloatLaws fl) where
  -- What a session is sent in a round: a snapshot of the tick, with the states that the players whom
  -- its player sees have in this round.
  abbrev pub IsShown : Config F → Game F → List (GameCommand F) → Round F → Player F → ℕ → Type 0
  IsShown c g queue r p session_id =
      let s = snapped g queue r in
      (visible : List ℕ) × IsRecent laws c g s p.position visible
      × Memᴰ
          (sent_batch session_id
            (world_snapshot s.tick_number r.server_time (player_states s.world visible) ∷ []))
          (game_round g queue r).0.deliveries
