-- ===== src/Chainstate/Reverting.antt =====
-- Chainstate::UpdateBatch of src/chainstate.cpp: what an exception leaves behind.
use xayax.Prelude.{◌≡◌, arith, ◌∷◌}
use xayax.Prelude.Action.{Action, Ever, Post}
use xayax.Chainstate.Methods.{Chainstate, savepoint, rollback, release, back_to, with_batch}

-- Each savepoint that the action sets is gone afterwards, also after an exception, and no other.
abbrev pub IsNested : {A : Type 0} → Action Chainstate A → Type 0
IsNested body = (c : Chainstate) → Ever (λ c'. c'.savepoints ≡ c.savepoints) (body c)

-- A scope with an UpdateBatch around an action that leaves no savepoint of its own: an exception leaves the
-- chainstate exactly as it was before the scope, and in each case the savepoint is gone afterwards, so that
-- batches can be nested.
pub with_batch-reverts :
    {A : Type 0} (body : Action Chainstate A) (c : Chainstate)
    → IsNested body
    → Post (λ _ c'. c'.savepoints ≡ c.savepoints) (λ c'. c' ≡ c) (Unit {0}) (with_batch body c)
unfolding with_batch savepoint rollback release back_to
with_batch-reverts body c n =
    ground (arith, n (record c { savepoints = c.contents ∷ c.savepoints }))
