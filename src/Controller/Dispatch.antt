-- ===== src/Controller/Dispatch.antt =====
-- Controller::RpcServer::HandleMethodCall of src/controller.cpp, for the optional argument of
-- game_sendupdates. The library's check of the parameters is `valid`; `text_of` is the generated
-- stub's reading of a named string.
use xayax.Prelude.{ℕ, String, Bool, not, ◌&&◌, Option, none, some, if◌then◌else◌}
use xayax.Prelude.Action.{Action, pure}
use xayax.BlockData.{Codec}
use xayax.BaseChain.{BaseChain}
use xayax.ZmqPub.{JsonLib, Socket}
use xayax.Controller.Answers.{Server, Reply, error, invalid_params, UpdatesInfo}
use xayax.Controller.Rpc.{game_sendupdates3}

abbrev is_member : {A : Type 0} → Option A → Bool
is_member none = Bool.false
is_member (some a) = Bool.true

module _ {Json : Type 0} (json : JsonLib Json) where
  -- fixedInput
  unfoldable pub with_to_block : Json → Json
  with_to_block input =
      if json.is_object input && not (is_member (json.member? "toblock" input))
      then json.set "toblock" (json.string "") input
      else input

  module _ {World Wire : Type 0} (valid : Json → Bool) (text_of : String → Json → String)
      (codec : Codec Json) (base : BaseChain Json World) (socket : Socket Wire)
      (block_range : ℕ) where
    unfoldable pub handle_game_sendupdates :
        Json → Action (Server Json World Wire) (Reply UpdatesInfo)
    unfolding with_to_block game_sendupdates3
    handle_game_sendupdates input =
        let fixed_input = with_to_block input in
        if valid fixed_input
        then game_sendupdates3 codec base json socket block_range (text_of "fromblock" fixed_input)
            (text_of "toblock" fixed_input)
        else pure (error invalid_params)
