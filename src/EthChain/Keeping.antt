-- ===== src/EthChain/Keeping.antt =====
-- The moves of eth/ethchain.cpp are added to blocks without a change of what joins them up.
use xayax.Prelude.{ℕ, suc, refl, String, List, [], ◌∷◌, Option, none, some, last?, ◌∙◌, head?}
use xayax.Prelude.Texts.{same}
use xayax.Prelude.Action.{Action, Outcome, Post, Post-bind, Post-check, Post-if, Post-any, Post-map}
use xayax.BlockData.{BlockData}
use xayax.Values.{Values, Answer, answer, rpc_error, called, Post-checked}
use xayax.EthChain.Logs.{EthUtils, hash_field}
use xayax.EthChain.Headers.{SameHeader, SameHeaders, SameHeaders-refl, SameHeaders-trans}
use xayax.EthChain.Blocks.{
  EthRpc, Extractor, extractor, extractors, blocks_of, checked_move, process_log_entry,
  process_logs, add_entry, add_from, put_first, process_for_hash, distribute_logs, are_consecutive,
  add_moves_one_by_one, add_moves_from_height_range, logs_requests,
}

abbrev pub Keeps : {Json : Type 0} → List (BlockData Json) → Option (List (BlockData Json)) → Type 0
Keeps bs none = Unit {0}
Keeps bs (some bs') = SameHeaders bs bs'

put_first-Keeps :
    {Json : Type 0} (a b : BlockData Json) (bs : List (BlockData Json))
    (r : Option (List (BlockData Json)))
    → SameHeader a b
    → Keeps bs r
    → Keeps (a ∷ bs) (put_first b r)
put_first-Keeps a b bs none h k = tt
put_first-Keeps a b bs (some cs) h k = (h, k)

extractors-SameHeaders :
    {Json : Type 0} (bs : List (BlockData Json)) → SameHeaders bs (blocks_of (extractors bs))
extractors-SameHeaders [] = tt
extractors-SameHeaders (b ∷ bs) = ((refl, refl, refl), extractors-SameHeaders bs)

module _ {Json Double Decoder World : Type 0} (values : Values Json Double)
    (eth : EthUtils Json Decoder) (rpc : EthRpc Json World) (event contract : String) where
  abbrev pub Returns : {A : Type 0} → (A → Type 0) → Outcome World A → Type 0
  Returns P = Post (λ a _. P a) (λ _. Unit {0}) (Unit {0})

  process_log_entry-SameHeader :
      (log : Json) (e : Extractor Json) (w : World)
      → Returns
          (λ (e' : Extractor Json). SameHeader e.0 e'.0)
          (process_log_entry values eth rpc event contract log e w)
  unfolding process_log_entry
  process_log_entry-SameHeader log (blk, last) w =
      Post-bind _ _ _ _ (checked_move values eth rpc event contract log blk last w) _ (Post-any _)
        (λ a w' _. (refl, refl, refl))

  process_logs-SameHeader :
      (logs : List Json) (e : Extractor Json) (w : World)
      → Returns
          (λ (e' : Extractor Json). SameHeader e.0 e'.0)
          (process_logs values eth rpc event contract logs e w)
  unfolding process_logs
  process_logs-SameHeader [] e w = (refl, refl, refl)
  process_logs-SameHeader (log ∷ logs) e w =
      Post-bind _ _ _ _ (process_log_entry values eth rpc event contract log e w) _
        (process_log_entry-SameHeader log e w)
        (λ e' w' h.
          Post-map _ _ _ _ (process_logs values eth rpc event contract logs e' w')
            (process_logs-SameHeader logs e' w') (λ e'' k. (h.0 ∙ k.0, h.1 ∙ k.1, h.2 ∙ k.2)))

  add_entry-Keeps :
      (a : Answer Json) (blk : BlockData Json) (blks : List (BlockData Json))
      (rest : Action World (Option (List (BlockData Json)))) (w : World)
      → ((w' : World) → Returns (Keeps blks) (rest w'))
      → Returns (Keeps (blk ∷ blks)) (add_entry values eth rpc event contract a blk rest w)
  unfolding add_entry
  add_entry-Keeps (rpc_error c) blk blks rest w h = tt
  add_entry-Keeps (answer logs) blk blks rest w h =
      Post-check _ _ _ (values.is_array logs) _ w tt (λ g.
        Post-bind _ _ _ _
          (process_logs values eth rpc event contract (values.elements logs) (extractor blk) w) _
          (process_logs-SameHeader (values.elements logs) (extractor blk) w)
          (λ e w' k.
            Post-bind _ _ _ _ (rest w') _ (h w') (λ r w'' m. put_first-Keeps blk e.0 blks r k m)))

  add_from-Keeps :
      (resp : ℕ → Answer Json) (i : ℕ) (bs : List (BlockData Json)) (w : World)
      → Returns (Keeps bs) (add_from values eth rpc event contract resp i bs w)
  unfolding add_from
  add_from-Keeps resp i [] w = tt
  add_from-Keeps resp i (blk ∷ blks) w =
      add_entry-Keeps (resp i) blk blks (add_from values eth rpc event contract resp (suc i) blks) w
        (add_from-Keeps resp (suc i) blks)

  pub add_moves_one_by_one-Keeps :
      (bs : List (BlockData Json)) (w : World)
      → Returns (Keeps bs) (add_moves_one_by_one values eth rpc event contract bs w)
  unfolding add_moves_one_by_one
  add_moves_one_by_one-Keeps bs w =
      Post-bind _ _ _ _
        (called (rpc.call_procedures (logs_requests values eth rpc event contract bs)) w) _
        (Post-any _) (λ resp w' _. add_from-Keeps resp 0 bs w')

  process_for_hash-SameHeaders :
      (hash : String) (log : Json) (es : List (Extractor Json)) (w : World)
      → Returns
          (λ es'. SameHeaders (blocks_of es) (blocks_of es'))
          (process_for_hash values eth rpc event contract hash log es w)
  unfolding process_for_hash
  process_for_hash-SameHeaders hash log [] w = tt
  process_for_hash-SameHeaders hash log ((blk, last) ∷ es) w =
      Post-if _ _ _ (same blk.hash hash) _ _ w
        (λ e.
          Post-bind _ _ _ _ (process_log_entry values eth rpc event contract log (blk, last) w) _
            (process_log_entry-SameHeader log (blk, last) w)
            (λ e' w' h. (h, SameHeaders-refl (blocks_of es))))
        (λ n.
          Post-bind _ _ _ _ (process_for_hash values eth rpc event contract hash log es w) _
            (process_for_hash-SameHeaders hash log es w) (λ es' w' h. ((refl, refl, refl), h)))

  distribute_logs-SameHeaders :
      (logs : List Json) (es : List (Extractor Json)) (w : World)
      → Returns
          (λ es'. SameHeaders (blocks_of es) (blocks_of es'))
          (distribute_logs values eth rpc event contract logs es w)
  unfolding distribute_logs
  distribute_logs-SameHeaders [] es w = SameHeaders-refl (blocks_of es)
  distribute_logs-SameHeaders (log ∷ logs) es w =
      Post-bind _ _ _ _ (hash_field values eth "blockHash" log w) _ (Post-any _) (λ hash w' _.
        Post-bind _ _ _ _ (process_for_hash values eth rpc event contract hash log es w') _
          (process_for_hash-SameHeaders hash log es w')
          (λ es' w'' h.
            Post-map _ _ _ _ (distribute_logs values eth rpc event contract logs es' w'')
              (distribute_logs-SameHeaders logs es' w'')
              (λ es'' k. SameHeaders-trans (blocks_of es) (blocks_of es') (blocks_of es'') h k)))

  pub add_moves_from_height_range-SameHeaders :
      (bs : List (BlockData Json)) (w : World)
      → Returns (SameHeaders bs) (add_moves_from_height_range values eth rpc event contract bs w)
  unfolding add_moves_from_height_range
  add_moves_from_height_range-SameHeaders bs w =
      Post-check _ _ _ (are_consecutive values eth rpc event contract bs) _ w tt (λ e.
        Post-checked _ _ _ (head? bs) _ w tt (λ front f.
          Post-checked _ _ _ (last? bs) _ w tt (λ back g.
            Post-bind _ _ _ _ (called (rpc.eth_get_logs _) w) _ (Post-any _) (λ logs w' _.
              Post-check _ _ _ (values.is_array logs) _ w' tt (λ h.
                Post-bind _ _ _ _
                  (distribute_logs values eth rpc event contract (values.elements logs)
                    (extractors bs) w')
                  _ (distribute_logs-SameHeaders (values.elements logs) (extractors bs) w')
                  (λ es w'' k.
                    SameHeaders-trans bs (blocks_of (extractors bs)) (blocks_of es)
                      (extractors-SameHeaders bs) k))))))
