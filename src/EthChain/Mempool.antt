-- ===== src/EthChain/Mempool.antt =====
-- class PendingMempool of eth/pending.cpp.
use Prim.Native.Nat.{Ordering}
use Prim.Native.String.{compare}
use xayax.Prelude.{
  ℕ, suc, String, Bool, true, false, List, [], ◌∷◌, Option, none, some, if◌then◌else◌, ℤ, ltb_ℤ,
}
use xayax.Prelude.Texts.{same, concat}
use xayax.Prelude.Action.{Action, done, threw, aborted, ◌>>=◌, ◌>>◌, pure, abort, check, checked}
use xayax.Values.{Values, Answer, answer, rpc_error, called, reading, field}
use xayax.EthChain.Logs.{EthUtils, convert_uint256, hash_field}
use xayax.EthChain.Blocks.{EthRpc}

-- The pool, a std::set in the order of its elements, with the node behind it.
pub record Mempool (World : Type 0) : Type 0 where
  pub node : World
  pub pool : List String

-- pool.insert (txid)
unfoldable pub insert_txid : String → List String → List String
insert_txid txid [] = txid ∷ []
insert_txid txid (t ∷ ts) = elim (compare txid t) [
  | Ordering.lt ↦ txid ∷ t ∷ ts
  | Ordering.eq ↦ t ∷ ts
  | Ordering.gt ↦ t ∷ insert_txid txid ts
]

-- pool.erase (txid)
unfoldable pub erase_txid : String → List String → List String
erase_txid txid [] = []
erase_txid txid (t ∷ ts) = let rest = erase_txid txid ts in if same t txid then rest else t ∷ rest

unfoldable pub add : {World : Type 0} → String → Mempool World → Mempool World
unfolding insert_txid
add txid m = record m { pool = insert_txid txid m.pool }

module _ {World : Type 0} where
  abbrev pub on_node : {A : Type 0} → Action World A → Action (Mempool World) A
  on_node act m = elim (act m.node) [
    | done a w ↦ done a (record m { node = w })
    | threw w ↦ threw (record m { node = w })
    | aborted ↦ aborted
  ]

  abbrev pub erase : String → Action (Mempool World) (Unit {0})
  erase txid m = done tt (record m { pool = erase_txid txid m.pool })

  abbrev pub get_pool : Action (Mempool World) (List String)
  get_pool m = done m.pool m

module _ {Json Double Decoder World : Type 0} (values : Values Json Double)
    (eth : EthUtils Json Decoder) (rpc : EthRpc Json World) where
  abbrev State : Type 0
  State = Mempool World

  -- "from" of a transaction, in lower case
  abbrev pub sender : Json → Action State String
  sender tx = do
    from ← field values values.as_string "from" tx
    (lower, checksummed) ← checked (eth.address from)
    pure lower

  abbrev pub nonce : Json → Action State ℤ
  nonce tx = do text ← field values values.as_string "nonce" tx; checked (eth.parse_int text)

  abbrev pub is_before : String → String → Bool
  is_before s t = elim (compare s t) [ Ordering.lt ↦ true | _ ↦ false ]

  unfoldable pub is_earlier_for_mempool : Json → Json → Action State Bool
  is_earlier_for_mempool a b = do
    check (values.is_object a)
    check (values.is_object b)
    from_a ← sender a
    from_b ← sender b
    if same from_a from_b
        then (do nonce_a ← nonce a; nonce_b ← nonce b; pure (ltb_ℤ nonce_a nonce_b))
        else pure (is_before from_a from_b)

  -- std::sort, which may compare other pairs and order equal elements in another way.
  unfoldable pub insert_transaction : Json → List Json → Action State (List Json)
  unfolding is_earlier_for_mempool
  insert_transaction tx [] = pure (tx ∷ [])
  insert_transaction tx (t ∷ ts) =
      let behind = insert_transaction tx ts in
      do
        earlier ← is_earlier_for_mempool t tx
        if earlier then (do rest ← behind; pure (t ∷ rest)) else pure (tx ∷ t ∷ ts)

  unfoldable pub sort_transactions : List Json → Action State (List Json)
  unfolding insert_transaction
  sort_transactions [] = pure []
  sort_transactions (tx ∷ txs) = do sorted ← sort_transactions txs; insert_transaction tx sorted

  unfoldable pub transaction_requests : List String → List (String × Json)
  transaction_requests [] = []
  transaction_requests (t ∷ ts) =
      ("eth_getTransactionByHash", values.array (values.string (concat "0x" t) ∷ []))
      ∷ transaction_requests ts

  -- Whether a transaction is still pending. Others are removed from the pool.
  unfoldable pub settle : String → Answer Json → Action State (Option Json)
  unfolding erase_txid
  settle txid (rpc_error c) = abort
  settle txid (answer tx) = if values.is_null tx then (erase txid >> pure none) else do
    check (values.is_object tx)
    hash ← field values values.as_string "hash" tx
    check (same hash (concat "0x" txid))
    block_hash ← reading (values.at "blockHash" tx)
    if values.is_null block_hash then pure (some tx) else (erase txid >> pure none)

  abbrev pub with_first : Option Json → List Json → List Json
  with_first none txs = txs
  with_first (some tx) txs = tx ∷ txs

  unfoldable pub settle_all : (ℕ → Answer Json) → ℕ → List String → Action State (List Json)
  unfolding settle
  settle_all resp i [] = pure []
  settle_all resp i (t ∷ ts) = do
    tx ← settle t (resp i)
    txs ← settle_all resp (suc i) ts
    pure (with_first tx txs)

  unfoldable pub hashes_of : List Json → Action State (List String)
  unfolding convert_uint256
  hashes_of [] = pure []
  hashes_of (tx ∷ txs) = do
    hash ← hash_field values eth "hash" tx
    rest ← hashes_of txs
    pure (hash ∷ rest)

  -- While the batch call runs, the lock is not held: `others` is what other calls do.
  unfoldable pub get_content : Action State (Unit {0}) → Action State (List String)
  unfolding transaction_requests settle_all sort_transactions hashes_of
  get_content others = do
    pool ← get_pool
    elim pool [
      | [] ↦ pure []
      | t ∷ ts ↦ do
        resp ← on_node (called (rpc.call_procedures (transaction_requests (t ∷ ts))))
        others
        transactions ← settle_all resp 0 (t ∷ ts)
        sorted ← sort_transactions transactions
        hashes_of sorted
    ]
