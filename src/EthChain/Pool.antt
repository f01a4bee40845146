-- ===== src/EthChain/Pool.antt =====
-- What PendingMempool::GetContent of eth/pending.cpp leaves in the pool.
use xayax.Prelude.{
  ℕ, suc, ◌≡◌, ◌≢◌, ◌⊎◌, ◌↔◌, inl, inr, arith, String, Bool, true, false, List, [], ◌∷◌, Option,
  none, some, ◌||◌, not, subst, sym,
}
use xayax.Prelude.Texts.{same, concat}
use xayax.Prelude.Action.{Post, Post-bind, Post-check, Post-if}
use xayax.Values.{Values, Answer, answer, rpc_error, field, Post-reading}
use xayax.EthChain.Logs.{EthUtils}
use xayax.EthChain.Blocks.{EthRpc}
use xayax.EthChain.Mempool.{Mempool, erase_txid, settle, settle_all}

abbrev pub Member : String → List String → Type 0
Member t [] = ⊥
Member t (s ∷ ss) = (s ≡ t) ⊎ Member t ss

Member-erase_txid :
    (t x : String) (ts : List String) → Member t (erase_txid x ts) ↔ (Member t ts × (x ≢ t))
unfolding erase_txid
Member-erase_txid t x [] = ground arith
Member-erase_txid t x (s ∷ ss) = ground (arith, Member-erase_txid t x ss)

module _ {Json Double Decoder World : Type 0} (values : Values Json Double)
    (eth : EthUtils Json Decoder) (rpc : EthRpc Json World) where
  -- The node does not know the transaction, or has it in a block.
  abbrev pub has_value : Option Json → Bool
  has_value none = false
  has_value (some b) = not (values.is_null b)

  abbrev pub is_settled : Answer Json → Bool
  is_settled (rpc_error c) = false
  is_settled (answer tx) = values.is_null tx || has_value (values.at "blockHash" tx)

  -- A transaction is among those that were asked for, and is settled.
  abbrev pub IsGone : (ℕ → Answer Json) → ℕ → List String → String → Type 0
  IsGone resp i [] t = ⊥
  IsGone resp i (x ∷ xs) t = ((x ≡ t) × (is_settled (resp i) ≡ true)) ⊎ IsGone resp (suc i) xs t

  -- The pool afterwards has what was in it and is not gone.
  abbrev pub Leaves : (String → Type 0) → List String → List String → Type 0
  Leaves gone before after = (t : String) → Member t after ↔ (Member t before × (gone t → ⊥))

  -- Reading a value changes nothing.
  field-same :
      (key : String) (val : Json) (m : Mempool World)
      → Post (λ _ m'. m' ≡ m) (λ _. Unit {0}) (Unit {0}) (field values values.as_string key val m)
  field-same key val m = ground arith

  erased :
      (x : String) (settled : Bool) (pool : List String)
      → settled ≡ true
      → Leaves (λ t. (x ≡ t) × (settled ≡ true)) pool (erase_txid x pool)
  erased x settled pool e t = ground (arith, Member-erase_txid t x pool)

  kept :
      (x : String) (settled : Bool) (pool : List String)
      → settled ≡ false
      → Leaves (λ t. (x ≡ t) × (settled ≡ true)) pool pool
  kept x settled pool e t = ground arith

  settle-Leaves :
      (x : String) (a : Answer Json) (m : Mempool World)
      → Post
          (λ _ m'. Leaves (λ t. (x ≡ t) × (is_settled a ≡ true)) m.pool m'.pool)
          (λ _. Unit {0})
          (Unit {0})
          (settle values eth rpc x a m)
  unfolding settle
  settle-Leaves x (rpc_error c) m = tt
  settle-Leaves x (answer tx) m =
      Post-if _ _ _ (values.is_null tx) _ _ m
        (λ e. erased x (is_settled (answer tx)) m.pool (ground arith))
        (λ e. Post-check _ _ _ (values.is_object tx) _ m tt (λ f.
          Post-bind _ _ _ _ (field values values.as_string "hash" tx m) _ (field-same "hash" tx m)
            (λ hash m' g. Post-check _ _ _ (same hash (concat "0x" x)) _ m' tt (λ h.
              Post-reading _ _ _ (values.at "blockHash" tx) _ m' tt (λ b k.
                Post-if _ _ _ (values.is_null b) _ _ m'
                  (λ l.
                    subst
                      (λ n. Leaves (λ t. (x ≡ t) × (is_settled (answer tx) ≡ true)) m.pool n.pool)
                      (sym g) (kept x (is_settled (answer tx)) m.pool (ground arith)))
                  (λ l.
                    subst
                      (λ n.
                        Leaves (λ t. (x ≡ t) × (is_settled (answer tx) ≡ true)) m.pool
                          (erase_txid x n.pool))
                      (sym g) (erased x (is_settled (answer tx)) m.pool (ground arith))))))))

  Leaves-then :
      (gone later : String → Type 0) (ps qs rs : List String)
      → Leaves gone ps qs
      → Leaves later qs rs
      → Leaves (λ t. gone t ⊎ later t) ps rs
  Leaves-then gone later ps qs rs h k t = (
    (λ i. (
      ((h t).0 ((k t).0 i).0).0,
      λ g. elim g [ inl a ↦ ((h t).0 ((k t).0 i).0).1 a | inr b ↦ ((k t).0 i).1 b ],
    )),
    (λ i. (k t).1 ((h t).1 (i.0, λ a. i.1 (inl a)), λ b. i.1 (inr b))),
  )

  -- After the loop of GetContent over the responses, a transaction is in the pool if it was there before
  -- and is not one that was asked for and that the node does not know or has in a block, and no other
  -- is: what has been added while the call ran stays.
  pub settle_all-Leaves :
      (resp : ℕ → Answer Json) (i : ℕ) (ts : List String) (m : Mempool World)
      → Post
          (λ _ m'. Leaves (IsGone resp i ts) m.pool m'.pool)
          (λ _. Unit {0})
          (Unit {0})
          (settle_all values eth rpc resp i ts m)
  unfolding settle_all
  settle_all-Leaves resp i [] m = λ t. ground arith
  settle_all-Leaves resp i (x ∷ xs) m =
      Post-bind _ _ _ _ (settle values eth rpc x (resp i) m) _ (settle-Leaves x (resp i) m)
        (λ tx m' h.
          Post-bind _ _ _ _ (settle_all values eth rpc resp (suc i) xs m') _
            (settle_all-Leaves resp (suc i) xs m')
            (λ txs m'' k.
              Leaves-then (λ t. (x ≡ t) × (is_settled (resp i) ≡ true)) (IsGone resp (suc i) xs)
                m.pool m'.pool m''.pool h k))
