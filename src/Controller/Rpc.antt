-- ===== src/Controller/Rpc.antt =====
-- Controller::RpcServer of src/controller.cpp: the RPC methods.
use xayax.Prelude.{
  ℕ, zero, suc, ◌+◌, ◌/◌, ◌%◌, ◌^◌, String, Bool, false, not, List, [], ◌∷◌, Option, none, some,
  ltb, if◌then◌else◌, length, last?, ℤ, pos, negsuc, minus_one, ltb_ℤ, u64_mod, ◌-◌,
}
use xayax.Prelude.Texts.{same, is_empty, concat}
use xayax.Prelude.Action.{Action, done, ◌>>=◌, ◌>>◌, get, put, pure, abort, check, checked}
use xayax.BlockData.{BlockData, Codec}
use xayax.BaseChain.{BaseChain}
use xayax.Chainstate.Ops.{
  get_tip_height, get_lowest_unpruned_height, get_hash_for_height, get_height_for_hash,
}
use xayax.Sync.{on_base}
use xayax.ZmqPub.{JsonLib, Socket}
use xayax.ZmqPub.Games.{track_game, untrack_game}
use xayax.Controller.{Run, on_zmq}
use xayax.Controller.Answers.{
  Server, Reply, result, error, invalid_params, out_of_range, not_found, ChainInfo, UpdatesInfo,
  Verified, valid, recovered, guarded,
}
use xayax.Controller.Push.{push_zmq_blocks}
use xayax.Controller.Steps.{Pushed}

-- The base-10 digits of an unsigned, of which there are at most ten.
abbrev digit : ℕ → String
digit zero = "0"
digit (suc zero) = "1"
digit (suc (suc zero)) = "2"
digit (suc (suc (suc zero))) = "3"
digit (suc (suc (suc (suc zero)))) = "4"
digit (suc (suc (suc (suc (suc zero))))) = "5"
digit (suc (suc (suc (suc (suc (suc zero)))))) = "6"
digit (suc (suc (suc (suc (suc (suc (suc zero))))))) = "7"
digit (suc (suc (suc (suc (suc (suc (suc (suc zero)))))))) = "8"
digit (suc (suc (suc (suc (suc (suc (suc (suc (suc n))))))))) = "9"

unfoldable pub decimal : ℕ → ℕ → String
decimal zero n = ""
decimal (suc fuel) n =
    let front = decimal fuel (n / 10) in if ltb n 10 then digit n else concat front (digit (n % 10))

-- A signed integer that is stored in a uint64_t.
abbrev pub as_u64 : ℤ → ℕ
as_u64 (pos n) = n
as_u64 (negsuc n) = u64_mod - n - 1

abbrev signed_by : String → Option String → Bool
signed_by addr none = false
signed_by addr (some signer) = same signer addr

unfoldable pub verdict : String → Option String → Verified
verdict addr signer = if is_empty addr then recovered signer else valid (signed_by addr signer)

module _ {Json World Wire : Type 0} (codec : Codec Json) (base : BaseChain Json World)
    (json : JsonLib Json) (socket : Socket Wire) where
  -- The types of the notification endpoints; their address is parent.zmqAddr.
  unfoldable pub getzmqnotifications : Bool → String → List (String × String)
  getzmqnotifications pending address =
      ("pubgameblocks", address) ∷ (if pending then ("pubgamepending", address) ∷ [] else [])

  unfoldable pub trackedgames : String → String → Action (Run Json World Wire) (Unit {0})
  unfolding track_game untrack_game
  trackedgames cmd game =
      if same cmd "add"
      then on_zmq (track_game game)
      else if same cmd "remove"
      then on_zmq (untrack_game game)
      else pure tt

  abbrev keep_version : ℕ → Action (Server Json World Wire) (Reply ℤ)
  keep_version v s = done (result (pos v)) (record s { cached_version = pos v })

  abbrev version_from : ℤ → Action (Server Json World Wire) (Reply ℤ)
  version_from (pos v) = pure (result (pos v))
  version_from (negsuc zero) = guarded (on_base base.get_version) keep_version
  version_from (negsuc (suc n)) = abort

  unfoldable pub getnetworkinfo : Action (Server Json World Wire) (Reply ℤ)
  getnetworkinfo s = version_from s.cached_version s

  abbrev best_block : String → ℤ → Action (Server Json World Wire) (Reply ChainInfo)
  best_block chain_name (pos height) = do
    s ← get
    found ← checked (get_hash_for_height s.chain.blocks height)
    hash ← checked found
    pure (
        result
          (record { chain_name = chain_name; tip_height = pos height; best_block_hash = hash }))
  best_block chain_name (negsuc n) =
      pure
        (result (record { chain_name = chain_name; tip_height = minus_one; best_block_hash = "" }))

  abbrev chain_info : String → Action (Server Json World Wire) (Reply ChainInfo)
  chain_info chain_name = do
    s ← get
    put (record s { cached_chain = chain_name })
    check (not (is_empty chain_name))
    best_block chain_name (get_tip_height s.chain.blocks)

  unfoldable pub getblockchaininfo : Action (Server Json World Wire) (Reply ChainInfo)
  getblockchaininfo = do
    s ← get
    if is_empty s.cached_chain
        then guarded (on_base base.get_chain) chain_info
        else chain_info s.cached_chain

  abbrev hash_of : List (BlockData Json) → Action (Server Json World Wire) (Reply String)
  hash_of [] = pure (error out_of_range)
  hash_of (blk ∷ []) = pure (result blk.hash)
  hash_of (blk ∷ next ∷ rest) = abort

  -- The height is an int, which GetHashForHeight takes as a uint64_t.
  unfoldable pub getblockhash : ℤ → Action (Server Json World Wire) (Reply String)
  getblockhash height = do
    s ← get
    found ← checked (get_hash_for_height s.chain.blocks (as_u64 height))
    elim found [
      | some hash ↦ pure (result hash)
      | none ↦
          if not (ltb_ℤ height (get_lowest_unpruned_height s.chain.blocks))
          then pure (error out_of_range)
          else guarded (on_base (base.get_block_range (as_u64 height) 1)) hash_of
    ]

  abbrev base_height : ℤ → Action (Server Json World Wire) (Reply ℕ)
  base_height (pos h) = pure (result h)
  base_height (negsuc n) = pure (error not_found)

  unfoldable pub getblockheader : String → Action (Server Json World Wire) (Reply ℕ)
  getblockheader hash = do
    s ← get
    known ← checked (get_height_for_hash s.chain.blocks hash)
    elim known [
      | some height ↦ pure (result height)
      | none ↦ guarded (on_base (base.get_mainchain_height hash)) base_height
    ]

  -- toBlock: the end of the attaches, or of the detaches, or where the caller is.
  unfoldable pub end_block : String → List (BlockData Json) → List (BlockData Json) → String
  end_block from detaches attaches = elim (last? attaches) [
    | some a ↦ a.hash
    | none ↦ elim (last? detaches) [ some d ↦ d.parent | none ↦ from ]
  ]

  abbrev updates_info : String → String → Pushed Json → UpdatesInfo
  updates_info token from p = record {
    token = token;
    to_block = end_block from p.detach p.queried_attach;
    detach_steps = length p.detach;
    attach_steps = length p.queried_attach;
    failed = not p.ok;
  }

  unfoldable pub game_sendupdates3 :
      ℕ → String → String → Action (Server Json World Wire) (Reply UpdatesInfo)
  unfolding push_zmq_blocks end_block decimal
  game_sendupdates3 block_range from to = do
    s ← get
    let requests = (s.requests + 1) % 2 ^ 32
    put (record s { requests = requests })
    let token = concat "request_" (decimal 10 requests)
    guarded (push_zmq_blocks codec base json socket from to [] block_range token)
        (λ p. pure (result (updates_info token from p)))

  unfoldable pub verifymessage :
      (String → Option String)
      → String
      → String
      → String
      → Action (Server Json World Wire) (Reply Verified)
  unfolding verdict
  verifymessage decode_base64 addr msg sgn = elim (decode_base64 sgn) [
    | none ↦ pure (error invalid_params)
    | some raw ↦
        guarded (on_base (base.verify_message msg raw))
          (λ signer. pure (result (verdict addr signer)))
  ]

  unfoldable pub getrawmempool : Action (Server Json World Wire) (Reply (List String))
  getrawmempool = guarded (on_base base.get_mempool) (λ txids. pure (result txids))
