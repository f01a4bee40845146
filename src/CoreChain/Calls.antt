-- ===== src/CoreChain/Calls.antt =====
-- The methods of class CoreChain in xayacore/corechain.cpp that only ask the node, but for GetBlockRange.
use xayax.Prelude.{
  ℕ, String, Bool, false, List, [], ◌∷◌, Option, none, some, ◌==◌, if◌then◌else◌, ℤ, pos, negsuc,
  minus_one,
}
use xayax.Prelude.Texts.{same}
use xayax.Prelude.Action.{Action, ◌>>=◌, ◌>>◌, pure, abort, check}
use xayax.Values.{Values, answer, rpc_error, called, reading, field}
use xayax.CoreChain.Blocks.{CoreRpc}

-- exc.GetCode () of -3
unfoldable pub is_bad_signature : ℤ → Bool
is_bad_signature (pos n) = false
is_bad_signature (negsuc n) = n == 2

module _ {Json Double World : Type 0} (values : Values Json Double) (rpc : CoreRpc Json World) where
  unfoldable pub find_address : String → List Json → Action World String
  find_address type [] = pure ""
  find_address type (n ∷ ns) =
      let rest = find_address type ns in
      do
        check (values.is_object n)
        t ← field values values.as_string "type" n
        if same t type then field values values.as_string "address" n else rest

  unfoldable pub get_notification_address : String → Action World String
  unfolding find_address
  get_notification_address type = do
    notifications ← called rpc.getzmqnotifications
    check (values.is_array notifications)
    find_address type (values.elements notifications)

  unfoldable pub get_tip_height : Action World ℕ
  get_tip_height = do
    blockchain ← called rpc.getblockchaininfo
    field values values.as_uint64 "blocks" blockchain

  -- The height as int64_t; heights above its maximum do not occur.
  unfoldable pub confirmed_height : ℤ → Json → Action World ℤ
  confirmed_height (pos conf) val = do
    height ← field values values.as_uint64 "height" val
    pure (pos height)
  confirmed_height (negsuc n) val = if n == 0 then pure minus_one else abort

  unfoldable pub get_mainchain_height : String → Action World ℤ
  unfolding confirmed_height
  get_mainchain_height hash = do
    found ← rpc.getblockheader hash
    elim found [
      | rpc_error code ↦ pure minus_one
      | answer val ↦ do
        check (values.is_object val)
        conf ← reading (values.at "confirmations" val)
        check (values.is_int64 conf)
        n ← reading (values.as_int64 conf)
        confirmed_height n val
    ]

  unfoldable pub texts_of : List Json → Action World (List String)
  texts_of [] = pure []
  texts_of (v ∷ vs) = do txid ← reading (values.as_string v); rest ← texts_of vs; pure (txid ∷ rest)

  unfoldable pub get_mempool : Action World (List String)
  unfolding texts_of
  get_mempool = do
    mempool ← called rpc.getrawmempool
    check (values.is_array mempool)
    texts_of (values.elements mempool)

  -- `none` is the result false.
  unfoldable pub verify_message : (String → String) → String → String → Action World (Option String)
  unfolding is_bad_signature
  verify_message encode_base64 msg signature = do
    res ← rpc.verifymessage msg (encode_base64 signature)
    elim res [
      | rpc_error code ↦ do check (is_bad_signature code); pure none
      | answer val ↦ do
        check (values.is_object val)
        valid ← field values values.as_bool "valid" val
        if valid
            then (do addr ← field values values.as_string "address" val; pure (some addr))
            else pure none
    ]

  unfoldable pub get_chain : Action World String
  get_chain = do info ← called rpc.getblockchaininfo; field values values.as_string "chain" info

  unfoldable pub get_version : Action World ℕ
  get_version = do info ← called rpc.getnetworkinfo; field values values.as_uint64 "version" info
