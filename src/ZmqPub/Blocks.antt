-- ===== src/ZmqPub/Blocks.antt =====
-- ZmqPub::SendBlock, SendBlockAttach, SendBlockDetach and SendPendingMoves of src/zmqpub.cpp. A JSON
-- array that the code fills is the list of its elements until it is sent.
use xayax.Prelude.{ℕ, String, false, List, [], ◌∷◌, ◌++◌, Option, none, some, ltb, if◌then◌else◌}
use xayax.Prelude.Texts.{same, is_empty, concat}
use xayax.Prelude.Maps.{lookup, insert, emplace}
use xayax.Prelude.Checked
use xayax.Prelude.Action.{Action, ◌>>=◌, ◌>>◌, get, pure, check, checked}
use xayax.BlockData.{BlockData, MoveData}
use xayax.ZmqPub.{JsonLib, Socket, ZmqPub}
use xayax.ZmqPub.Moves.{init_from_metadata, per_tx_data}
use xayax.ZmqPub.Messages.{send_message}

-- One empty array for each tracked game, in the order of std::map: CHECK_GT (entry.second, 0). Only
-- games of the table have an array, so CHECK_EQ (games.count (...), 1) below holds by construction.
unfoldable pub start_arrays :
    {Json : Type 0} → List (String × ℕ) → Option (List (String × List Json))
unfolding emplace
start_arrays [] = some []
start_arrays ((g, depth) ∷ games) =
    Checked.◌>>◌ (Checked.check (ltb 0 depth))
      (Checked.◌>>=◌ (start_arrays games) (λ rest. some (emplace g [] rest)))

-- Appends to the array of a game, if the game is tracked.
unfoldable pub append_to :
    {Json : Type 0} → String → Json → List (String × List Json) → List (String × List Json)
append_to g v m = elim (lookup g m) [ none ↦ m | some vs ↦ insert g (vs ++ v ∷ []) m ]

unfoldable pub append_all :
    {Json : Type 0} → List (String × Json) → List (String × List Json) → List (String × List Json)
unfolding append_to
append_all [] m = m
append_all ((g, v) ∷ rest) m = append_all rest (append_to g v m)

abbrev pub append_admin :
    {Json : Type 0} → Option (String × Json) → List (String × List Json) → List (String × List Json)
append_admin none m = m
append_admin (some (g, cmd)) m = append_to g cmd m

module _ {Json Wire : Type 0} (json : JsonLib Json) (socket : Socket Wire) where
  -- blkTemplate
  unfoldable pub block_template : BlockData Json → String → Option Json
  block_template blk reqtoken = Checked.◌>>=◌ (init_from_metadata json blk.metadata) (λ metadata.
      let blk_json = json.set "rngseed" (json.string blk.rngseed) (
        json.set "height" (json.int blk.height) (
          json.set "parent" (json.string blk.parent)
            (json.set "hash" (json.string blk.hash) metadata))) in
      let template = json.set "block" blk_json json.empty_object in
      some (
        if is_empty reqtoken
        then template
        else json.set "reqtoken" (json.string reqtoken) template))

  -- The loop over the moves of a block.
  unfoldable pub sort_moves :
      List (MoveData Json)
      → List (String × List Json)
      → List (String × List Json)
      → Option (List (String × List Json) × List (String × List Json))
  unfolding append_to append_all per_tx_data
  sort_moves [] moves admin = some (moves, admin)
  sort_moves (mv ∷ mvs) moves admin =
      Checked.◌>>=◌ (per_tx_data json mv)
        (λ d. sort_moves mvs (append_all d.moves moves) (append_admin d.admin admin))

  -- The loop over the games that sends the messages.
  unfoldable pub send_games :
      String
      → Json
      → List (String × List Json)
      → List (String × List Json)
      → List (String × ℕ)
      → Action (ZmqPub Wire) (Unit {0})
  unfolding send_message
  send_games prefix template moves admin [] = pure tt
  send_games prefix template moves admin ((g, depth) ∷ games) = do
    check (ltb 0 depth)
    these ← checked (lookup g moves)
    commands ← checked (lookup g admin)
    send_message json socket (concat prefix (concat " json " g))
        (json.set "admin" (json.array commands) (json.set "moves" (json.array these) template))
    send_games prefix template moves admin games

  unfoldable pub send_block : String → BlockData Json → String → Action (ZmqPub Wire) (Unit {0})
  unfolding block_template sort_moves send_games start_arrays
  send_block cmd_prefix blk reqtoken = do
    z ← get
    template ← checked (block_template blk reqtoken)
    arrays ← checked (start_arrays z.games)
    sorted ← checked (sort_moves blk.moves arrays arrays)
    send_games cmd_prefix template sorted.0 sorted.1 z.games

  unfoldable pub send_block_attach : BlockData Json → String → Action (ZmqPub Wire) (Unit {0})
  unfolding send_block
  send_block_attach blk reqtoken = send_block "game-block-attach" blk reqtoken

  unfoldable pub send_block_detach : BlockData Json → String → Action (ZmqPub Wire) (Unit {0})
  unfolding send_block
  send_block_detach blk reqtoken = send_block "game-block-detach" blk reqtoken

  -- The loop over the moves of a transaction, with the last txid seen.
  unfoldable pub sort_pending :
      String → List (MoveData Json) → List (String × List Json) → Option (List (String × List Json))
  unfolding append_all per_tx_data
  sort_pending last_txid [] moves = some moves
  sort_pending last_txid (mv ∷ mvs) moves =
      Checked.◌>>◌ (if is_empty last_txid then some tt else Checked.check (same last_txid mv.txid))
        (Checked.◌>>=◌ (per_tx_data json mv)
          (λ d. sort_pending mv.txid mvs (append_all d.moves moves)))

  unfoldable pub send_each : List (String × List Json) → Action (ZmqPub Wire) (Unit {0})
  unfolding send_message
  send_each [] = pure tt
  send_each ((g, []) ∷ rest) = send_each rest
  send_each ((g, v ∷ vs) ∷ rest) = do
    send_message json socket (concat "game-pending-move" (concat " json " g)) (json.array (v ∷ vs))
    send_each rest

  unfoldable pub send_pending_moves : List (MoveData Json) → Action (ZmqPub Wire) (Unit {0})
  unfolding sort_pending send_each start_arrays
  send_pending_moves [] = check false
  send_pending_moves (mv ∷ mvs) = do
    z ← get
    arrays ← checked (start_arrays z.games)
    moves ← checked (sort_pending "" (mv ∷ mvs) arrays)
    send_each moves
