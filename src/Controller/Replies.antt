-- ===== src/Controller/Replies.antt =====
-- What the RPC methods answer.
use xayax.Prelude.{
  ℕ, ◌^◌, ◌<◌, ◌≡◌, ◌≢◌, ◌⊎◌, arith, String, true, false, Option, none, some, negsuc,
}
use xayax.Prelude.Action.{done, aborted}
use xayax.BlockData.{Codec}
use xayax.BaseChain.{BaseChain}
use xayax.Chainstate.Ops.{get_hash_for_height}
use xayax.ZmqPub.{JsonLib, Socket}
use xayax.Controller.Answers.{Server, result, Verified, valid, recovered}
use xayax.Controller.Rpc.{verdict, getblockhash, verifymessage}

-- What a verdict says of the signer that the client has recovered: an empty address asks for the
-- signer, and any other one whether it is the signer's.
abbrev pub Says : String → Option String → Verified → Type 0
Says addr signer v =
    ((addr ≡ "") × (v ≡ recovered signer))
    ⊎ ((addr ≢ "") × (signer ≡ some addr) × (v ≡ valid true))
    ⊎ ((addr ≢ "") × (signer ≢ some addr) × (v ≡ valid false))

verdict-Says : (addr : String) (signer : Option String) → Says addr signer (verdict addr signer)
unfolding verdict
verdict-Says addr none = ground arith
verdict-Says addr (some signer) = ground arith

module _ {Json World Wire : Type 0} (codec : Codec Json) (base : BaseChain Json World)
    (json : JsonLib Json) (socket : Socket Wire) where
  -- getblockhash with a negative height of 32 bits aborts the process: as a uint64_t the height is too
  -- large for Bind.
  pub getblockhash_negative :
      (n : ℕ) (s : Server Json World Wire)
      → n < 2 ^ 31
      → getblockhash codec base json socket (negsuc n) s ≡ aborted
  unfolding getblockhash get_hash_for_height
  getblockhash_negative n s h = ground arith

  -- If the signature is base64 and the client answers, the reply is a result: for an empty address the
  -- client's answer, and for any other the truth value of whether the client has recovered that
  -- address as the signer's.
  pub verifymessage-verdict :
      (decode_base64 : String → Option String) (addr msg sgn raw : String) (signer : Option String)
      (s : Server Json World Wire) (w : World)
      → decode_base64 sgn ≡ some raw
      → base.verify_message msg raw s.base ≡ done signer w
      → (v : Verified) × (s' : Server Json World Wire) × (verifymessage codec base json socket
            decode_base64 addr msg sgn s
          ≡ done (result v) s')
        × Says addr signer v
  unfolding verifymessage
  verifymessage-verdict decode_base64 addr msg sgn raw signer s w d e = (
    verdict addr signer,
    record s { run = record s.run { base = w } },
    ground arith,
    verdict-Says addr signer,
  )
