-- ===== src/Controller/Answers.antt =====
-- What Controller::RpcServer of src/controller.cpp holds and answers. A JSON result is a record with its
-- members, and a JsonRpcException is an error reply.
use xayax.Prelude.{ℕ, String, Bool, Option, ℤ}
use xayax.Prelude.Action.{Action, done, threw, aborted}
use xayax.Controller.{Run}

pub data RpcError : Type 0 where
  internal_error invalid_params out_of_range not_found : RpcError

pub data Reply (A : Type 0) : Type 0 where
  result : A → Reply A
  error : RpcError → Reply A

pub record Server (Json World Wire : Type 0) : Type 0 where
  pub run : Run Json World Wire
  pub open run use *
  pub requests : ℕ
  pub cached_chain : String
  pub cached_version : ℤ

pub record ChainInfo : Type 0 where
  pub chain_name : String
  pub tip_height : ℤ
  pub best_block_hash : String

pub record UpdatesInfo : Type 0 where
  pub token : String
  pub to_block : String
  pub detach_steps : ℕ
  pub attach_steps : ℕ
  pub failed : Bool

module _ {Json World Wire : Type 0} where
  -- Runs a call whose exceptions become the error of PropagateBaseChainError.
  abbrev pub guarded :
      {A B : Type 0}
      → Action (Run Json World Wire) A
      → (A → Action (Server Json World Wire) (Reply B))
      → Action (Server Json World Wire) (Reply B)
  guarded m k s = elim (m s.run) [
    | done a r ↦ k a (record s { run = r })
    | threw r ↦ done (error internal_error) (record s { run = r })
    | aborted ↦ aborted
  ]

-- verifymessage: a truth value, or for an empty address the signer's address if there is one.
pub data Verified : Type 0 where
  valid : Bool → Verified
  recovered : Option String → Verified
