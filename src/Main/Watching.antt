-- ===== src/Main/Watching.antt =====
-- AddWatchedContracts of eth/main.cpp.
use Prim.Native.String.{count}
use xayax.Prelude.{ℕ, zero, suc, String, not}
use xayax.Prelude.Texts.{is_empty}
use xayax.Prelude.Action.{Action, ◌>>◌, abort, check}
use xayax.RpcUtils.{find, npos, found}

module _ {World : Type 0} (add_watched_contract : String → Action World (Unit {0})) where
  -- The loop; without fuel it does not return.
  unfoldable pub watch_from : ℕ → String → Action World (Unit {0})
  watch_from zero lst = abort
  watch_from (suc fuel) lst = elim (find b',' lst) [
    | npos ↦ add_watched_contract lst
    | found addr rest ↦ (add_watched_contract addr >> watch_from fuel rest)
  ]

  unfoldable pub add_watched_contracts : String → Action World (Unit {0})
  unfolding watch_from
  add_watched_contracts lst = do check (not (is_empty lst)); watch_from (suc (count lst)) lst
