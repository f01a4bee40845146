-- ===== src/Controller/Joining.antt =====
-- How the blocks that PushZmqBlocks of src/controller.cpp asks the base chain for fit those it detaches.
use xayax.Prelude.{
  ℤ, pos, negsuc, inl, inr, Option-cases, ℕ, ◌≡◌, ◌+◌, ◌-◌, ◌%◌, ◌^◌, min, refl, leb, if◌then◌else◌,
  arith, String, List, [], ◌∷◌, none, some, last?,
}
use xayax.Prelude.Action.{Action, pure, ◌>>=◌, Outcome, Post, Post-bind, Post-any, Post-if, bind}
use xayax.BlockData.{BlockData, Codec, Linked}
use xayax.BaseChain.{BaseChain, GivesLinked}
use xayax.Chainstate.Ops.{get_tip_height, get_lowest_unpruned_height}
use xayax.Chainstate.Fork.{get_fork_branch}
use xayax.Sync.{on_base}
use xayax.ZmqPub.{JsonLib, Socket}
use xayax.Controller.{Run}
use xayax.Controller.Push.{
  push_zmq_blocks, push_known, push_unknown, push_from, push_given, push_towards,
}
use xayax.Controller.Steps.{
  Pushed, ForkPoint, check_queried, query_attaches, failed, as_height, pushed, send_attaches,
  send_detaches, detach_towards, fork_point,
}

-- The block that the chain is at after the detaches.
abbrev pub detached_to : {Json : Type 0} → String → List (BlockData Json) → String
detached_to from detach = elim (last? detach) [ none ↦ from | some d ↦ d.parent ]

-- The first block goes onto the one with the hash, and each further block onto the one before.
abbrev pub JoinsUp : {Json : Type 0} → String → List (BlockData Json) → Type 0
JoinsUp hash [] = Unit {0}
JoinsUp hash (b ∷ bs) = (b.parent ≡ hash) × Linked (b ∷ bs)

module _ {Json World Wire : Type 0} (codec : Codec Json) (base : BaseChain Json World)
    (json : JsonLib Json) (socket : Socket Wire) (from : String) where
  abbrev Sound : Outcome (Run Json World Wire) (Pushed Json) → Type 0
  Sound =
      Post (λ p _. JoinsUp (detached_to from p.detach) p.queried_attach) (λ _. Unit {0}) (Unit {0})

  after :
      {A : Type 0} (m : Action (Run Json World Wire) A)
      (f : A → Action (Run Json World Wire) (Pushed Json)) (s : Run Json World Wire)
      → ((a : A) (s : Run Json World Wire) → Sound (f a s))
      → Sound ((m >>= f) s)
  after m f s h = Post-bind (λ _ _. Unit) _ _ _ (m s) f (Post-any (m s)) (λ a s _. h a s)

  check_queried-Sound :
      (token : String) (pruning_depth : ℕ) (fork : ForkPoint)
      (detach blocks : List (BlockData Json)) (s : Run Json World Wire)
      → fork.hash ≡ detached_to from detach
      → Linked blocks
      → Sound (check_queried codec base json socket token pruning_depth fork detach blocks s)
  unfolding check_queried
  check_queried-Sound token pd fork detach [] s e l = tt
  check_queried-Sound token pd fork detach (blk ∷ rest) s e l = ground arith

  on_base-Linked :
      (start count : ℕ) (s : Run Json World Wire)
      → GivesLinked base
      → Post
          (λ bs _. Linked bs)
          (λ _. Unit {0})
          (Unit {0})
          (on_base (base.get_block_range start count) s)
  on_base-Linked start count s g = ground (arith, g start count s.base)

  asked-Sound :
      (start count : ℕ) (token : String) (pruning_depth : ℕ) (fork : ForkPoint)
      (detach : List (BlockData Json)) (s : Run Json World Wire)
      → GivesLinked base
      → fork.hash ≡ detached_to from detach
      → Sound (
          bind
            (on_base (base.get_block_range start count) s)
            (check_queried codec base json socket token pruning_depth fork detach))
  asked-Sound start count token pd fork detach s g e =
      Post-bind (λ bs _. Linked bs) _ _ _ (on_base (base.get_block_range start count) s)
        (check_queried codec base json socket token pd fork detach) (on_base-Linked start count s g)
        (λ bs t l. check_queried-Sound token pd fork detach bs t e l)

  query_attaches-Sound :
      (token : String) (pruning_depth num : ℕ) (fork : ForkPoint) (target : ℕ)
      (detach : List (BlockData Json)) (s : Run Json World Wire)
      → GivesLinked base
      → fork.hash ≡ detached_to from detach
      → Sound (query_attaches codec base json socket token pruning_depth num fork target detach s)
  unfolding query_attaches
  query_attaches-Sound token pd num fork target detach s g e = ground (
    arith,
    asked-Sound (fork.height + 1) (min num ((target - fork.height) % 2 ^ 32)) token pd fork detach s
        g e,
  )

  detach_towards-Sound :
      (token : String) (num : ℕ) (fork : ForkPoint) (to_height : ℕ) (detach : List (BlockData Json))
      (s : Run Json World Wire)
      → Sound (detach_towards codec base json socket token num fork to_height detach s)
  unfolding detach_towards
  detach_towards-Sound token num fork to_height detach s = ground arith

  push_towards-Sound :
      (token : String) (pruning_depth num : ℕ) (fork : ForkPoint) (to_height : ℕ)
      (detach : List (BlockData Json)) (s : Run Json World Wire)
      → GivesLinked base
      → fork.hash ≡ detached_to from detach
      → Sound (push_towards codec base json socket token pruning_depth num fork to_height detach s)
  unfolding push_towards
  push_towards-Sound token pd num fork to_height detach s g e = ground (
    arith,
    query_attaches-Sound token pd num fork to_height detach s g e,
    detach_towards-Sound token num fork to_height detach s,
  )

  push_given-Sound :
      (token : String) (fork : ForkPoint) (attaches detach : List (BlockData Json))
      (s : Run Json World Wire)
      → Sound (push_given codec base json socket token fork attaches detach s)
  unfolding push_given
  push_given-Sound token fork attaches detach s = ground arith

  module _ (to : String) (attaches : List (BlockData Json)) (num : ℕ) (token : String)
      (pruning_depth : ℕ) (links : GivesLinked base) where
    towards-Sound :
        (fork : ForkPoint) (detach : List (BlockData Json)) (s : Run Json World Wire)
        → fork.hash ≡ detached_to from detach
        → Sound (
            (on_base (base.get_mainchain_height to) >>= λ to_height. elim to_height [
              | negsuc _ ↦ pure (failed codec base json socket detach)
              | pos h ↦ push_towards codec base json socket token pruning_depth num fork h detach
            ])
              s)
    towards-Sound fork detach s e = after (on_base (base.get_mainchain_height to)) _ s by_height
      where
        by_height :
            (h : ℤ) (t : Run Json World Wire)
            → Sound (
                (elim h as (λ _. Action (Run Json World Wire) (Pushed Json)) [
                  | negsuc _ ↦ pure (failed codec base json socket detach)
                  | pos n ↦
                      push_towards codec base json socket token pruning_depth num fork n detach
                ])
                  t)
        by_height (pos n) t = push_towards-Sound token pruning_depth num fork n detach t links e
        by_height (negsuc n) t = tt

    queried-Sound :
        (fork : ForkPoint) (detach : List (BlockData Json)) (s : Run Json World Wire)
        → fork.hash ≡ detached_to from detach
        → Sound (
            (as_height (get_tip_height s.chain.blocks) >>= λ target.
            query_attaches codec base json socket token pruning_depth num fork target detach)
              s)
    queried-Sound fork detach s e =
        after (as_height (get_tip_height s.chain.blocks)) _ s
          (λ target t. query_attaches-Sound token pruning_depth num fork target detach t links e)

    push_from-Sound :
        (fork : ForkPoint) (detach : List (BlockData Json)) (s : Run Json World Wire)
        → fork.hash ≡ detached_to from detach
        → Sound (push_from codec base json socket to attaches num token pruning_depth fork detach s)
    unfolding push_from
    push_from-Sound fork detach s e = ground (
      arith,
      towards-Sound fork detach s e,
      queried-Sound fork detach s e,
      push_given-Sound token fork attaches detach s,
    )

    push_unknown-Sound :
        (s : Run Json World Wire)
        → Sound (push_unknown codec base json socket from to attaches num token pruning_depth s)
    unfolding push_unknown
    push_unknown-Sound s = after (on_base (base.get_mainchain_height from)) _ s by_height
      where
        by_height :
            (h : ℤ) (t : Run Json World Wire)
            → Sound (
                (elim h as (λ _. Action (Run Json World Wire) (Pushed Json)) [
                  | negsuc _ ↦ pure (failed codec base json socket [])
                  | pos n ↦
                      if leb pruning_depth n
                      then pure (failed codec base json socket [])
                      else push_from codec base json socket to attaches num token pruning_depth
                          (record { height = n; hash = from })
                          []
                ])
                  t)
        by_height (pos n) t =
            Post-if _ _ _ (leb pruning_depth n) _ _ t (λ _. tt)
              (λ _. push_from-Sound (record { height = n; hash = from }) [] t refl)
        by_height (negsuc n) t = tt

    fork_point-Sound :
        (detach : List (BlockData Json)) (s : Run Json World Wire)
        → Post
            (λ fork _. fork.hash ≡ detached_to from detach)
            (λ _. Unit {0})
            (Unit {0})
            (fork_point codec base json socket from detach s)
    unfolding fork_point
    fork_point-Sound [] s = ground arith
    fork_point-Sound (blk ∷ rest) s = ground arith

    detached-Sound :
        (detach : List (BlockData Json)) (s : Run Json World Wire)
        → Sound (
            bind (send_detaches codec base json socket token detach s) (λ _ t.
              bind (fork_point codec base json socket from detach t) (λ fork u.
                push_from codec base json socket to attaches num token pruning_depth fork detach
                  u)))
    detached-Sound detach s =
        Post-bind (λ _ _. Unit) _ _ _ (send_detaches codec base json socket token detach s) _
          (Post-any (send_detaches codec base json socket token detach s))
          (λ _ t _.
            Post-bind (λ fork _. fork.hash ≡ detached_to from detach) _ _ _
              (fork_point codec base json socket from detach t) _ (fork_point-Sound detach t)
              (λ fork u e. push_from-Sound fork detach u e))

    push_known-Sound :
        (s : Run Json World Wire)
        → Sound (push_known codec base json socket from to attaches num token pruning_depth s)
    unfolding push_known
    push_known-Sound s = elim (Option-cases (get_fork_branch codec s.chain.blocks from)) [
      | inl e ↦ rw e tt
      | inr (none, e) ↦ rw e (push_unknown-Sound s)
      | inr (some detach, e) ↦ rw e (detached-Sound detach s)
    ]

  -- What PushZmqBlocks returns, whatever it is asked for: if the ranges of the base chain are linked, the
  -- queried blocks are linked too, and the first of them, if there is one, goes onto the block that the
  -- detaches lead to, which is `from` if there are none.
  pub push_zmq_blocks-JoinsUp :
      (to : String) (attaches : List (BlockData Json)) (num : ℕ) (token : String)
      (s : Run Json World Wire)
      → GivesLinked base
      → Post
          (λ p _. JoinsUp (detached_to from p.detach) p.queried_attach)
          (λ _. Unit {0})
          (Unit {0})
          (push_zmq_blocks codec base json socket from to attaches num token s)
  unfolding push_zmq_blocks
  push_zmq_blocks-JoinsUp to attaches num token s g = ground (
    arith,
    after (send_attaches codec base json socket token attaches)
        (λ _. pure (pushed codec base json socket [] [])) s (λ _ t. tt),
    after (as_height (get_lowest_unpruned_height s.chain.blocks))
        (push_known codec base json socket from to attaches num token) s
        (λ pd t. push_known-Sound to attaches num token pd g t),
  )
