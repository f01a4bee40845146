-- ===== src/EthChain/Linking.antt =====
-- The ranges of blocks that EthChain::GetBlockRange of eth/ethchain.cpp returns.
use xayax.Prelude.{
  ℕ, zero, suc, ◌+◌, ◌-◌, ◌%◌, ◌≡◌, refl, arith, String, Bool, true, false, List, [], ◌∷◌, ◌++◌,
  Option, none, some, ltb, leb, ◌==◌, if◌then◌else◌, u64_mod, last?, min, ℤ, pos, negsuc,
}
use xayax.Prelude.Texts.{same}
use xayax.Prelude.Action.{Action, Outcome, Post-bind, Post-check, Post-if, Post-any, Post-map}
use xayax.BlockData.{BlockData, IsRange}
use xayax.Values.{Values, Answer, answer, rpc_error, called, Post-checked}
use xayax.EthChain.Logs.{EthUtils, extract_base_data}
use xayax.EthChain.Headers.{IsRange-SameHeaders, JoinsUp, IsRange-snoc}
use xayax.EthChain.Keeping.{
  Keeps, Returns, add_moves_one_by_one-Keeps, add_moves_from_height_range-SameHeaders,
}
use xayax.EthChain.Blocks.{EthRpc, add_moves_one_by_one, add_moves_from_height_range}
use xayax.EthChain.Ranges.{
  joins_up, take_entry, take_blocks, going_on, or_else, add_moves, finish_range, query_range,
  query_below, try_block_range, try_again, get_block_range,
}

-- Blocks with their moves join up as those without.
IsRange-Keeps :
    {Json : Type 0} (start : ℕ) (bs : List (BlockData Json)) (r : Option (List (BlockData Json)))
    → IsRange start (some bs)
    → Keeps bs r
    → IsRange start r
IsRange-Keeps start bs none h k = tt
IsRange-Keeps start bs (some cs) h k = IsRange-SameHeaders start bs cs k h

same_texts : (s t : String) → same s t ≡ true → s ≡ t
same_texts s t e = ground arith

module _ {Json Double Decoder World : Type 0} (values : Values Json Double)
    (eth : EthUtils Json Decoder) (rpc : EthRpc Json World) (event contract : String)
    (fast_logs_depth start : ℕ) where
  abbrev Ranged : Outcome World (Option (List (BlockData Json))) → Type 0
  Ranged = Returns values eth rpc event contract (IsRange start)

  joined :
      (blk : BlockData Json) (res : List (BlockData Json)) (b : Bool)
      → IsRange start (some res)
      → (b ≡ true → JoinsUp start blk (last? res))
      → IsRange start (if b then some (res ++ blk ∷ []) else none)
  joined blk res true h j = IsRange-snoc start res blk h (j refl)
  joined blk res false h j = tt

  joins_up-JoinsUp :
      (blk : BlockData Json) (back : Option (BlockData Json)) (w : World)
      → Returns values eth rpc event contract
          (λ b. b ≡ true → JoinsUp start blk back)
          (joins_up values eth rpc event contract fast_logs_depth start blk back w)
  unfolding joins_up
  joins_up-JoinsUp blk none w = Post-check _ _ _ (blk.height == start) _ w tt (λ e f. ground arith)
  joins_up-JoinsUp blk (some back) w =
      Post-check _ _ _ (blk.height == (back.height + 1) % u64_mod) _ w tt
        (λ e f. same_texts blk.parent back.hash f)

  take_entry-IsRange :
      (a : Answer Json) (res : List (BlockData Json)) (w : World)
      → IsRange start (some res)
      → Ranged (take_entry values eth rpc event contract fast_logs_depth start a res w)
  unfolding take_entry
  take_entry-IsRange (rpc_error c) res w h = tt
  take_entry-IsRange (answer val) res w h =
      Post-if _ _ _ (values.is_null val) _ _ w (λ e. tt)
        (λ e. Post-bind _ _ _ _ (extract_base_data values eth val w) _ (Post-any _) (λ blk w' _.
          Post-bind _ _ _ _
            (joins_up values eth rpc event contract fast_logs_depth start blk (last? res) w') _
            (joins_up-JoinsUp blk (last? res) w') (λ b w'' j. joined blk res b h j)))

  take_rest :
      (resp : ℕ → Answer Json) (i n : ℕ) (taken : Option (List (BlockData Json))) (w : World)
      → IsRange start taken
      → ((res : List (BlockData Json)) (w' : World)
          → IsRange start (some res)
          → Ranged
              (take_blocks values eth rpc event contract fast_logs_depth start resp i n res w'))
      → Ranged (
          going_on taken
            (take_blocks values eth rpc event contract fast_logs_depth start resp i n)
            w)
  take_rest resp i n none w h k = tt
  take_rest resp i n (some res) w h k = k res w h

  take_blocks-IsRange :
      (resp : ℕ → Answer Json) (i n : ℕ) (res : List (BlockData Json)) (w : World)
      → IsRange start (some res)
      → Ranged (take_blocks values eth rpc event contract fast_logs_depth start resp i n res w)
  unfolding take_blocks
  take_blocks-IsRange resp i zero res w h = h
  take_blocks-IsRange resp i (suc n) res w h =
      Post-bind _ _ _ _
        (take_entry values eth rpc event contract fast_logs_depth start (resp i) res w) _
        (take_entry-IsRange (resp i) res w h)
        (λ taken w' k. take_rest resp (suc i) n taken w' k (take_blocks-IsRange resp (suc i) n))

  add_moves-IsRange :
      (end_height tip : ℕ) (res : List (BlockData Json)) (w : World)
      → IsRange start (some res)
      → Ranged (add_moves values eth rpc event contract fast_logs_depth end_height tip res w)
  unfolding add_moves
  add_moves-IsRange end_height tip res w h =
      Post-if _ _ _ (ltb (end_height + fast_logs_depth) tip) _ _ w
        (λ e.
          Post-bind _ _ _ _ (add_moves_from_height_range values eth rpc event contract res w) _
            (add_moves_from_height_range-SameHeaders values eth rpc event contract res w)
            (λ res' w' k. IsRange-SameHeaders start res res' k h))
        (λ e.
          Post-map _ _ _ _ (add_moves_one_by_one values eth rpc event contract res w)
            (add_moves_one_by_one-Keeps values eth rpc event contract res w)
            (λ r k. IsRange-Keeps start res r h k))

  finish_range-IsRange :
      (end_height tip : ℕ) (taken : Option (List (BlockData Json))) (w : World)
      → IsRange start taken
      → Ranged (finish_range values eth rpc event contract fast_logs_depth end_height tip taken w)
  unfolding finish_range
  finish_range-IsRange end_height tip none w h = tt
  finish_range-IsRange end_height tip (some res) w h =
      Post-checked _ _ _ (last? res) _ w tt (λ back e.
        Post-check _ _ _ (back.height == end_height) _ w tt
          (λ f. add_moves-IsRange end_height tip res w h))

  query_range-IsRange :
      (end_height tip : ℕ) (w : World)
      → Ranged (query_range values eth rpc event contract fast_logs_depth start end_height tip w)
  unfolding query_range
  query_range-IsRange end_height tip w =
      Post-if _ _ _ (ltb end_height start) _ _ w (λ e. (tt, tt))
        (λ e. Post-bind _ _ _ _ (called (rpc.call_procedures _) w) _ (Post-any _) (λ resp w' _.
          Post-bind _ _ _ _
            (take_blocks values eth rpc event contract fast_logs_depth start resp 0
              (end_height + 1 - start) [] w')
            _ (take_blocks-IsRange resp 0 (end_height + 1 - start) [] w' (tt, tt))
            (λ taken w'' h. finish_range-IsRange end_height tip taken w'' h)))

  query_below-IsRange :
      (end_height : ℕ) (tip : ℤ) (w : World)
      → Ranged (query_below values eth rpc event contract fast_logs_depth start end_height tip w)
  unfolding query_below
  query_below-IsRange end_height (negsuc n) w = (tt, tt)
  query_below-IsRange end_height (pos tip) w = query_range-IsRange (min end_height tip) tip w

  try_block_range-IsRange :
      (end_height : ℕ) (w : World)
      → Ranged (try_block_range values eth rpc event contract fast_logs_depth start end_height w)
  unfolding try_block_range
  try_block_range-IsRange end_height w =
      Post-bind _ _ _ _ (called rpc.eth_block_number w) _ (Post-any _) (λ number w' _.
        Post-checked _ _ _ (eth.parse_int number) _ w' tt
          (λ tip e. query_below-IsRange end_height tip w'))

  or_else-IsRange :
      (res : Option (List (BlockData Json))) (again : Action World (Option (List (BlockData Json))))
      (w : World)
      → IsRange start res
      → Ranged (again w)
      → Ranged (or_else res again w)
  or_else-IsRange none again w h k = k
  or_else-IsRange (some bs) again w h k = h

  try_again-IsRange :
      (fuel end_height : ℕ) (w : World)
      → Ranged (try_again values eth rpc event contract fast_logs_depth fuel start end_height w)
  unfolding try_again
  try_again-IsRange zero end_height w = tt
  try_again-IsRange (suc fuel) end_height w =
      Post-bind _ _ _ _
        (try_block_range values eth rpc event contract fast_logs_depth start end_height w) _
        (try_block_range-IsRange end_height w)
        (λ res w' h.
          or_else-IsRange res
            (try_again values eth rpc event contract fast_logs_depth fuel start end_height) w' h
            (try_again-IsRange fuel end_height w'))

  -- Whatever the node answers: the blocks that GetBlockRange of the Ethereum client returns start at the
  -- height that was asked for, if there are any, and each is the parent of the next.
  pub eth_range-IsRange :
      (fuel count : ℕ) (w : World)
      → Ranged (get_block_range values eth rpc event contract fast_logs_depth fuel start count w)
  unfolding get_block_range
  eth_range-IsRange fuel count w =
      Post-if _ _ _ (count == 0) _ _ w (λ e. (tt, tt))
        (λ e.
          Post-check _ _ _ (leb start ((start + count - 1) % u64_mod)) _ w tt
            (λ f. try_again-IsRange fuel ((start + count - 1) % u64_mod) w))
