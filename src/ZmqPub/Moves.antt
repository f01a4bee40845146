-- ===== src/ZmqPub/Moves.antt =====
-- ParseMoveJson, InitFromMetadata, AddBurnData and PerTxData of src/zmqpub.cpp: what a move says to
-- each game. `none` is an abort.
use xayax.Prelude.{String, List, [], ◌∷◌, ◌++◌, Option, none, some, if◌then◌else◌}
use xayax.Prelude.Texts.{same}
use xayax.Prelude.Maps.{lookup}
use xayax.Prelude.Checked.{◌>>=◌, ◌>>◌, check}
use xayax.BlockData.{MoveData}
use xayax.ZmqPub.{JsonLib}

-- What a transaction holds: the move for each game, and the admin command with its game.
pub record PerTxData (Json : Type 0) : Type 0 where
  pub moves : List (String × Json)
  pub admin : Option (String × Json)

module _ {Json : Type 0} (json : JsonLib Json) where
  -- The result false is `none`.
  unfoldable pub parse_move_json : String → Option Json
  parse_move_json str = do filtered ← json.filter_object str; json.parse filtered

  unfoldable pub init_from_metadata : Json → Option Json
  init_from_metadata metadata =
      if json.is_null metadata
      then some json.empty_object
      else if json.is_object metadata
      then some metadata
      else none

  abbrev burnt : Option Json → Json
  burnt none = json.int 0
  burnt (some v) = v

  unfoldable pub add_burn_data : MoveData Json → String → Json → Json
  add_burn_data mv game_id val = json.set "burnt" (burnt (lookup game_id mv.burns)) val

  -- The loop over the members of "g".
  unfoldable pub game_moves :
      MoveData Json
      → Json
      → List (String × Json)
      → List (String × Json)
      → Option (List (String × Json))
  unfolding add_burn_data
  game_moves mv template moves [] = some moves
  game_moves mv template moves ((game_id, move) ∷ rest) = elim (lookup game_id moves) [
    | some _ ↦ none
    | none ↦
        game_moves mv template
          (moves ++ (game_id, add_burn_data mv game_id (json.set "move" move template)) ∷ []) rest
  ]

  abbrev no_moves : PerTxData Json
  no_moves = record { moves = []; admin = none }

  abbrev or_null : Option Json → Json
  or_null none = json.null
  or_null (some v) = v

  unfoldable pub per_tx_data : MoveData Json → Option (PerTxData Json)
  unfolding parse_move_json init_from_metadata add_burn_data game_moves
  per_tx_data mv = elim (parse_move_json mv.mv) [
    | none ↦ some no_moves
    | some value ↦ do
      check (json.is_object value)
      metadata ← init_from_metadata mv.metadata
      let template = json.set "txid" (json.string mv.txid) metadata
      if same mv.ns "g"
          then (elim (json.member? "cmd" value) [
            | none ↦ some no_moves
            | some cmd ↦ some (record no_moves {
              admin = some (mv.name, add_burn_data mv mv.name (json.set "cmd" cmd template));
            })
          ])
          else if same mv.ns "p"
          then (let g = or_null (json.member? "g" value) in
              if json.is_object g
              then (do
                moves ←
                    game_moves mv (json.set "name" (json.string mv.name) template) []
                      (json.members g)
                some (record no_moves { moves = moves }))
              else some no_moves)
          else some no_moves
  ]
