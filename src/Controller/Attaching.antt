-- ===== src/Controller/Attaching.antt =====
-- What PushZmqBlocks of src/controller.cpp sends when the attached blocks are at hand.
use xayax.Prelude.{
  u64_mod, ◌%◌, ◌+◌, ◌≡◌, ◌⊎◌, inl, inr, arith, String, Bool, true, false, List, [], ◌∷◌, All, ltb,
  select, last?, ◌==◌, if◌then◌else◌, ◌∙◌, ap, sym, Bool-cases,
}
use xayax.Prelude.Action.{Outcome, done, bind, bind_alike}
use xayax.BlockData.{BlockData, Codec}
use xayax.BaseChain.{BaseChain}
use xayax.ZmqPub.{JsonLib, Socket}
use xayax.ZmqPub.Blocks.{send_block_attach}
use xayax.Controller.{Run, on_zmq}
use xayax.Controller.Push.{push_given}
use xayax.Controller.Steps.{ForkPoint, send_attaches, send_given, ends_at_parent}

-- The blocks above a fork point, in order.
abbrev pub above : {Json : Type 0} → ForkPoint → List (BlockData Json) → List (BlockData Json)
above fork = select (λ blk. ltb fork.height blk.height)

-- A block that comes right above the fork point, in uint64_t, has it for its parent.
abbrev pub Fits : {Json : Type 0} → ForkPoint → BlockData Json → Type 0
Fits fork blk = blk.height ≡ (fork.height + 1) % u64_mod → blk.parent ≡ fork.hash

-- Some block comes right above the fork point, in uint64_t.
abbrev pub Reaches : {Json : Type 0} → ForkPoint → List (BlockData Json) → Type 0
Reaches fork [] = ⊥
Reaches fork (blk ∷ blks) = (blk.height ≡ (fork.height + 1) % u64_mod) ⊎ Reaches fork blks

module _ {Json World Wire : Type 0} (codec : Codec Json) (base : BaseChain Json World)
    (json : JsonLib Json) (socket : Socket Wire) where
  abbrev attach :
      String → BlockData Json → Run Json World Wire → Outcome (Run Json World Wire) (Unit {0})
  attach token blk s = on_zmq (send_block_attach json socket blk token) s

  step_above :
      (token : String) (fork : ForkPoint) (found : Bool) (blk : BlockData Json)
      (blks : List (BlockData Json)) (s : Run Json World Wire)
      → ltb fork.height blk.height ≡ true
      → Fits fork blk
      → send_given codec base json socket token fork found (blk ∷ blks) s
        ≡ bind (attach token blk s) (λ _ s'.
          send_given codec base json socket token fork
            (if blk.height == (fork.height + 1) % u64_mod then true else found)
            blks
            s')
  unfolding send_given
  step_above token fork found blk blks s l f = ground arith

  end_found :
      (token : String) (fork : ForkPoint) (found : Bool) (s : Run Json World Wire)
      → (found ≡ true) ⊎ Reaches {Json = Json} fork []
      → send_given codec base json socket token fork found [] s ≡ done tt s
  unfolding send_given
  end_found token fork found s r = ground arith

  step_below :
      (token : String) (fork : ForkPoint) (found : Bool) (blk : BlockData Json)
      (blks : List (BlockData Json)) (s : Run Json World Wire)
      → ltb fork.height blk.height ≡ false
      → Fits fork blk
      → send_given codec base json socket token fork found (blk ∷ blks) s
        ≡ send_given codec base json socket token fork
            (if blk.height == (fork.height + 1) % u64_mod then true else found)
            blks
            s
  unfolding send_given
  step_below token fork found blk blks s l f = ground arith

  attaches_above :
      (token : String) (fork : ForkPoint) (blk : BlockData Json) (blks : List (BlockData Json))
      (s : Run Json World Wire)
      → ltb fork.height blk.height ≡ true
      → send_attaches codec base json socket token (above fork (blk ∷ blks)) s
        ≡ bind
            (attach token blk s)
            (λ _ s'. send_attaches codec base json socket token (above fork blks) s')
  unfolding send_attaches
  attaches_above token fork blk blks s l = ground arith

  attaches_below :
      (token : String) (fork : ForkPoint) (blk : BlockData Json) (blks : List (BlockData Json))
      (s : Run Json World Wire)
      → ltb fork.height blk.height ≡ false
      → send_attaches codec base json socket token (above fork blks) s
        ≡ send_attaches codec base json socket token (above fork (blk ∷ blks)) s
  attaches_below token fork blk blks s l = ground arith

  found_by :
      (fork : ForkPoint) (found : Bool) (blk : BlockData Json) (blks : List (BlockData Json))
      → (found ≡ true) ⊎ Reaches fork (blk ∷ blks)
      → ((if blk.height == (fork.height + 1) % u64_mod then true else found) ≡ true)
        ⊎ Reaches fork blks
  found_by fork found blk blks r = ground arith

  send_given-above :
      (token : String) (fork : ForkPoint) (blks : List (BlockData Json)) (found : Bool)
      (s : Run Json World Wire)
      → All (Fits fork) blks
      → (found ≡ true) ⊎ Reaches fork blks
      → send_given codec base json socket token fork found blks s
        ≡ send_attaches codec base json socket token (above fork blks) s
  unfolding send_attaches
  send_given-above token fork [] found s a r = end_found token fork found s r
  send_given-above token fork (blk ∷ blks) found s a r =
      elim (Bool-cases (ltb fork.height blk.height)) [
        | inl l ↦
            step_above token fork found blk blks s l a.0
            ∙ bind_alike (attach token blk s) _ _
                (λ _ s'. send_given-above token fork blks _ s' a.1 (found_by fork found blk blks r))
            ∙ sym (attaches_above token fork blk blks s l)
        | inr l ↦
            step_below token fork found blk blks s l a.0
            ∙ send_given-above token fork blks _ s a.1 (found_by fork found blk blks r)
            ∙ attaches_below token fork blk blks s l
      ]

  -- If the last block that has been detached does not lead to the last of the attached blocks, and one of
  -- these comes right above the fork point, where each such block has the fork point for its parent,
  -- then PushZmqBlocks sends exactly the attached blocks above the fork point, in order, and returns true
  -- unless a sending throws or aborts.
  pub push_given-above :
      (token : String) (fork : ForkPoint) (attaches detach : List (BlockData Json))
      (s : Run Json World Wire)
      → ends_at_parent codec base json socket (last? attaches) (last? detach) ≡ false
      → All (Fits fork) attaches
      → Reaches fork attaches
      → push_given codec base json socket token fork attaches detach s
        ≡ bind
            (send_attaches codec base json socket token (above fork attaches) s)
            (λ _ s'. done (record { ok = true; detach = detach; queried_attach = [] }) s')
  unfolding push_given
  push_given-above token fork attaches detach s e a r = rw e (
      ap
        (λ o. bind o (λ _ s'. done (record { ok = true; detach = detach; queried_attach = [] }) s'))
        (send_given-above token fork attaches false s a (inr r)))
