-- ===== src/Tests/Arrival.antt =====
-- The theorem on what a round sends, for a player who has just entered.
use cpp_mmo.Base.{ℕ, List, [], ◌∷◌}
use cpp_mmo.Base.Dict.{find, or_default}
use cpp_mmo.Command.{GameCommand}
use cpp_mmo.World.{Player, new_player}
use cpp_mmo.Game.Freshness.{snapped}
use cpp_mmo.Tests.Scaled.{scaled}
use cpp_mmo.Tests.Spatial.{at}
use cpp_mmo.Tests.Play.{first_game, enter, tick}

abbrev arrival : List (GameCommand ℕ)
arrival = enter 7 1 ∷ []

abbrev arrived : Player ℕ
arrived = or_default (new_player 7 [] (at 0 0)) (find 7 (snapped first_game arrival tick).world)
