-- ===== src/CoreChain/Joining.antt =====
-- The ranges of CoreChain in xayacore/corechain.cpp, as its user gets them.
use xayax.Prelude.{ℕ, arith, String, Option}
use xayax.BaseChain.{Callbacks, GivesLinked}
use xayax.Values.{Values}
use xayax.CoreChain.Blocks.{CoreRpc}
use xayax.CoreChain.Client.{core_chain}
use xayax.CoreChain.Linking.{GivesAsked, get_block_range-IsRange}

module _ {Json Double World Env : Type 0} (values : Values Json Double)
    (unhexlify : String → Option String) (hexlify encode_base64 : String → String)
    (rpc : CoreRpc Json World) (cb : Callbacks Json Env) where
  pub core_chain-GivesLinked :
      (fuel : ℕ)
      → GivesAsked values unhexlify rpc
      → GivesLinked (core_chain values unhexlify hexlify encode_base64 rpc cb fuel)
  unfolding core_chain
  core_chain-GivesLinked fuel asked start count c =
      ground (arith, get_block_range-IsRange values unhexlify rpc asked fuel start count c.node)
