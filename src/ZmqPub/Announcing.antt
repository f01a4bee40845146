-- ===== src/ZmqPub/Announcing.antt =====
-- Which messages ZmqPub::SendPendingMoves of src/zmqpub.cpp sends for the moves of a transaction.
use xayax.Prelude.{ℕ, Bool, true, false, String, List, [], ◌∷◌, Option, none, some, All, ◌≡◌, ◌<◌}
use xayax.Prelude.Texts.{concat}
use xayax.Prelude.Action.{Action, done, bind}
use xayax.ZmqPub.Messages.{send_message}
use xayax.BlockData.{MoveData}
use xayax.ZmqPub.{JsonLib, Socket, ZmqPub}

abbrev IsEmptied : {Json : Type 0} → List (String × List Json) → Type 0
IsEmptied m = All (λ e. e.1 ≡ []) m

-- Each entry of the table counts at least one.
abbrev pub IsTracked : List (String × ℕ) → Type 0
IsTracked games = All (λ e. 0 < e.1) games

-- `us` for a game of the table.
abbrev pub for_tracked : {Json : Type 0} → List Json → Option ℕ → Option (List Json)
for_tracked us none = none
for_tracked us (some depth) = some us

abbrev pub has_values : {Json : Type 0} → String × List Json → Bool
has_values (g, []) = false
has_values (g, v ∷ vs) = true

module _ {Json : Type 0} where
  module _ {Wire : Type 0} (json : JsonLib Json) (socket : Socket Wire) where
    -- The moves are of one transaction.
    abbrev pub IsOfTx : String → List (MoveData Json) → Type 0
    IsOfTx t mvs = All (λ mv. mv.txid ≡ t) mvs

    -- A message for each game of a map, with the values of the game, in the order of the map.
    abbrev pub announced : List (String × List Json) → Action (ZmqPub Wire) (Unit {0})
    announced [] z = done tt z
    announced ((g, vs) ∷ rest) z =
        bind
          (send_message json socket (concat "game-pending-move" (concat " json " g)) (json.array vs)
            z)
          (λ _. announced rest)
