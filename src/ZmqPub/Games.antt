-- ===== src/ZmqPub/Games.antt =====
-- ZmqPub::TrackGame and ZmqPub::UntrackGame of src/zmqpub.cpp.
use xayax.Prelude.{
  ℕ, zero, suc, ◌+◌, ◌-◌, ◌%◌, ◌<◌, String, Option, none, some, ltb, ◌==◌, if◌then◌else◌, u64_mod,
  ◌≡◌, ◌≢◌, refl, arith, ite, inl, inr, Option-cases,
}
use xayax.Prelude.Texts.{str_discrete}
use xayax.Prelude.Maps.{lookup, insert, erase, lookup-insert, lookup-erase}
use xayax.Prelude.Action.{Action, done, ◌>>=◌, ◌>>◌, get, put, check}
use xayax.ZmqPub.{ZmqPub}

-- How often a game is tracked.
abbrev pub depth_of : Option ℕ → ℕ
depth_of none = 0
depth_of (some d) = d

-- The RPC trackedgames: other commands do nothing.
pub data Command : Type 0 where
  add remove : String → Command

-- The depth of a game after a command: each `add` counts one up and each `remove` one down, which
-- stops at 0, for the command's own game alone.
abbrev pub counted : Command → String → ℕ → ℕ
counted (add h) g d = ite (str_discrete h g) (d + 1) d
counted (remove h) g d = ite (str_discrete h g) (d - 1) d

module _ {Wire : Type 0} where
  unfoldable pub track_game : String → Action (ZmqPub Wire) (Unit {0})
  track_game g = do
    z ← get
    elim (lookup g z.games) [
      | none ↦ put (record z { games = insert g 1 z.games })
      | some depth ↦ put (record z { games = insert g ((depth + 1) % u64_mod) z.games })
    ]

  unfoldable pub untrack_game : String → Action (ZmqPub Wire) (Unit {0})
  untrack_game g = do
    z ← get
    elim (lookup g z.games) [
      | none ↦ put z
      | some depth ↦ do
        check (ltb 0 depth)
        let new_depth = depth - 1
        if new_depth == 0
            then put (record z { games = erase g z.games })
            else put (record z { games = insert g new_depth z.games })
    ]

  abbrev pub depth : String → ZmqPub Wire → ℕ
  depth g z = depth_of (lookup g z.games)

  -- A game in the table is tracked at least once.
  abbrev pub IsCounted : ZmqPub Wire → Type 0
  IsCounted z = (g : String) → lookup g z.games ≢ some 0

  unfoldable pub apply : Command → Action (ZmqPub Wire) (Unit {0})
  unfolding track_game untrack_game
  apply (add g) = track_game g
  apply (remove g) = untrack_game g

  -- While all games of the table have a positive depth, and none that overflows, a command returns: it
  -- changes nothing but the table, keeps the depths positive, and counts the depth of its own game
  -- alone, an `add` up by one and a `remove` down by one if it is not 0.
  pub apply-counted :
      (c : Command) (z : ZmqPub Wire)
      → IsCounted z
      → ((g : String) → depth g z + 1 < u64_mod)
      → (z' : ZmqPub Wire) × (apply c z ≡ done tt z')
        × (z'.next_seq ≡ z.next_seq)
        × (z'.wire ≡ z.wire)
        × IsCounted z'
        × ((g : String) → depth g z' ≡ counted c g (depth g z))
  unfolding apply
  apply-counted (add h) z v b = elim (Option-cases (lookup h z.games)) [
    | inl e ↦ (
      record z { games = insert h 1 z.games },
      ground arith,
      refl,
      refl,
      (λ g. ground (arith, lookup-insert h g 1 z.games, v g)),
      (λ g. ground (arith, lookup-insert h g 1 z.games)),
    )
    | inr (d, e) ↦ (
      record z { games = insert h ((d + 1) % u64_mod) z.games },
      ground arith,
      refl,
      refl,
      (λ g. ground (arith, lookup-insert h g ((d + 1) % u64_mod) z.games, v g, b h)),
      (λ g. ground (arith, lookup-insert h g ((d + 1) % u64_mod) z.games, b h)),
    )
  ]
  apply-counted (remove h) z v b = elim (Option-cases (lookup h z.games)) [
    | inl e ↦ (z, ground arith, refl, refl, v, (λ g. ground arith))
    | inr (zero, e) ↦ absurd (v h e)
    | inr (suc zero, e) ↦ (
      record z { games = erase h z.games },
      ground arith,
      refl,
      refl,
      (λ g. ground (arith, lookup-erase h g z.games, v g)),
      (λ g. ground (arith, lookup-erase h g z.games)),
    )
    | inr (suc (suc d), e) ↦ (
      record z { games = insert h (suc d) z.games },
      ground arith,
      refl,
      refl,
      (λ g. ground (arith, lookup-insert h g (suc d) z.games, v g)),
      (λ g. ground (arith, lookup-insert h g (suc d) z.games)),
    )
  ]
