-- ===== src/Tests/Core.antt =====
-- Instances for the Xaya Core client.
use xayax.Prelude.{
  ℕ, zero, suc, ◌+◌, ◌-◌, ◌≤◌, ◌≡◌, ◌≢◌, refl, arith, String, List, [], ◌∷◌, none, some, min,
}
use xayax.Prelude.Texts.{str_discrete}
use xayax.Prelude.Action.{Post, done, threw}
use xayax.BlockData.{BlockData, IsRange}
use xayax.BaseChain.{Callbacks}
use xayax.BlockCache.{CacheState, get_block_range as cached_range}
use xayax.BlockCache.Memory.{memory_storage}
use xayax.BlockCache.Serving.{slice, IsFaithful}
use xayax.CoreChain.Listening.{CoreChain}
use xayax.CoreChain.Client.{core_chain, cached_core_chain}
use xayax.CoreChain.Moves.{burnt_game, get_move_from_tx}
use xayax.CoreChain.Blocks.{fetch_block, get_block_range}
use xayax.CoreChain.Ranges.{get_block_range_main_chain}
use xayax.CoreChain.Linking.{GivesAsked, get_block_range-IsRange}
use xayax.CoreChain.Burns.{total_burnt, BurnsAre, get_move_from_tx-BurnsAre}
use xayax.Tests.Fixtures.{Js, js, js_text, js_number, js_object, js_member, js_array}
use xayax.Tests.CoreNode.{values, elements, name_of, block, rpc, parsed, node}

get_block_range_main_chain_example :
    get_block_range values some rpc 5 0 5 tt ≡ done (some (slice block 0 (min 5 (1 + 1 - 0)))) tt
get_block_range_main_chain_example =
    get_block_range_main_chain values some rpc tt block 1 node 5 0 5 (omega arith) (omega arith)

fetched : (h : ℕ) → h ≤ 1 → fetch_block values some rpc (name_of h) tt ≡ done (block h) tt
unfolding fetch_block str_discrete
fetched zero i = parsed 0 i
fetched (suc zero) i = parsed 1 i
fetched (suc (suc h)) i = absurd (omega arith)

not_fetched :
    (hash : String)
    → hash ≢ "genesis"
    → hash ≢ "second"
    → fetch_block values some rpc hash tt ≡ threw tt
unfolding fetch_block
not_fetched hash n m = ground arith

pub asked : GivesAsked values some rpc
asked hash w = elim (str_discrete hash "genesis") [
  | yes e ↦ ground (arith, fetched 0)
  | no n ↦ elim (str_discrete hash "second") [
    | yes e ↦ ground (arith, fetched 1)
    | no m ↦ ground (arith, not_fetched hash n m)
  ]
]

get_block_range-IsRange_example :
    Post (λ r _. IsRange 0 r) (λ _. Unit {0}) (Unit {0}) (get_block_range values some rpc 5 0 5 tt)
get_block_range-IsRange_example = get_block_range-IsRange values some rpc asked 5 0 5 tt

-- A transaction that burns 2 and 3 for a game, and moves a name.
abbrev burning : ℕ → Js
burning v =
    js_member "scriptPubKey" (js_member "burn" (js_text "g/chess") js_object)
      (js_member "value" (js_number v) js_object)

abbrev naming : Js
naming =
    js_member "scriptPubKey"
      (js_member "nameOp"
        (js_member "name_encoding" (js_text "utf8") (
          js_member "value_encoding" (js_text "utf8")
            (js_member "name" (js_text "p/domob") (js_member "value" (js_text "{}") js_object))))
        js_object)
      js_object

abbrev outs : Js
outs = js.array (burning 2 ∷ naming ∷ burning 3 ∷ [])

abbrev tx : Js
tx = js_member "txid" (js_text "txid") (
    js_member "btxid" (js_text "btxid")
      (js_member "vin" js_array (js_member "vout" outs js_object)))

outs_at : values.at "vout" tx ≡ some outs
unfolding str_discrete
outs_at = refl

get_move_from_tx-BurnsAre_example :
    Post
      (λ mv _.
        BurnsAre values some "chess" (total_burnt values some "chess" (elements outs) none) mv)
      (λ _. Unit {0})
      (Unit {0})
      (get_move_from_tx values some tx tt)
get_move_from_tx-BurnsAre_example = get_move_from_tx-BurnsAre values some "chess" tx outs tt outs_at

burnt_five : total_burnt values some "chess" (elements outs) none ≡ some 5
unfolding burnt_game str_discrete
burnt_five = refl

abbrev pub callbacks : Callbacks Js (Unit {0})
callbacks = record { tip_changed = λ tip e. done tt e; pending_moves = λ moves e. done tt e }

abbrev client_cache : CacheState (CoreChain Js (Unit {0}) (Unit {0})) (List (ℕ × BlockData Js))
client_cache = record {
  base = record { node = tt; env = tt; callbacks = none; listeners = [] };
  storage = [];
  last_tip_height = 1;
}

cached_core_chain_example :
    Post
      (λ bs s'. (bs ≡ slice block 0 2) × IsFaithful block s'.storage)
      (λ _. ⊥)
      ⊥
      (cached_range
        (core_chain values some (λ t. t) (λ t. t) rpc callbacks 5)
        memory_storage
        0
        0
        2
        client_cache)
cached_core_chain_example =
    cached_core_chain values some (λ t. t) (λ t. t) rpc callbacks block (λ h. refl) 1 5 0
      (omega arith) (omega arith) (λ w. (1, omega arith, node)) 0 2 client_cache refl tt
      (omega arith)
