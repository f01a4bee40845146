-- ===== src/CoreChain/Burns.antt =====
-- The burns of the move that GetMoveFromTx of xayacore/corechain.cpp returns, against their sums.
use mathlib.Core.Option
use xayax.Prelude.{
  ◌≡◌, refl, arith, String, List, [], ◌∷◌, Option, none, some, subst, Option-cases, inl, inr,
  if◌then◌else◌, ite,
}
use xayax.Prelude.Texts.{str_discrete}
use xayax.Prelude.Maps.{lookup, lookup-insert, lookup-emplace}
use xayax.Prelude.Action.{Outcome, Post, Post-bind, Post-check, Post-if, Post-any}
use xayax.BlockData.{MoveData}
use xayax.Values.{Values, Post-reading, Post-checked}
use xayax.CoreChain.Moves.{
  Outputs, no_outputs, add_value, burnt_game, add_burnt, add_address, add_burn, take_output,
  take_outputs, burns_of, take_name, take_details, move_of, get_move_from_tx,
}

module _ {Json Double : Type 0} (values : Values Json Double)
    (unhexlify : String → Option String) where
  abbrev or_zero : Option Double → Double
  or_zero none = values.zero_double
  or_zero (some v) = v

  lookup-add_value :
      (k j : String) (v : Double) (m : List (String × Double))
      → lookup j (add_value values k v m)
        ≡ ite (str_discrete k j) (some (values.plus (or_zero (lookup k m)) v)) (lookup j m)
  unfolding add_value
  lookup-add_value k j v m = elim (Option-cases (lookup k m)) [
    | inl e ↦ ground (arith, lookup-emplace k j (values.plus values.zero_double v) m)
    | inr (w, e) ↦ ground (arith, lookup-insert k j (values.plus w v) m)
  ]

  abbrev and_then : {A B : Type 0} → Option A → (A → Option B) → Option B
  and_then none f = none
  and_then (some a) f = f a

  -- The game that an output burns for.
  abbrev game_of_script : Json → Option String
  game_of_script script =
      if values.is_member "burn" script
      then and_then (values.at "burn" script)
          (λ val. and_then (values.as_string val) (λ hex. and_then (unhexlify hex) burnt_game))
      else none

  abbrev game_of : Json → Option String
  game_of out =
      and_then (values.at "scriptPubKey" out)
        (λ script. if values.is_member "nameOp" script then none else game_of_script script)

  abbrev amount_of : Json → Double
  amount_of out = or_zero (and_then (values.at "value" out) values.as_double)

  -- The sum of what the outputs burn for a game, from the left, if any does.
  abbrev added : String → Option String → Double → Option Double → Option Double
  added game none v sum = sum
  added game (some g) v sum = ite (str_discrete g game) (some (values.plus (or_zero sum) v)) sum

  abbrev pub total_burnt : String → List Json → Option Double → Option Double
  total_burnt game [] sum = sum
  total_burnt game (out ∷ outs) sum =
      total_burnt game outs (added game (game_of out) (amount_of out) sum)

  abbrev pub BurnsAre : String → Option Double → Option (MoveData Json) → Type 0
  BurnsAre game sum none = Unit {0}
  BurnsAre game sum (some mv) = lookup game mv.burns ≡ Option.map values.double sum

  lookup-burns_of :
      (game : String) (m : List (String × Double))
      → lookup game (burns_of values m) ≡ Option.map values.double (lookup game m)
  unfolding lookup burns_of
  lookup-burns_of game [] = refl
  lookup-burns_of game ((k, v) ∷ m) = ground (arith, lookup-burns_of game m)

  module _ {S : Type 0} (game : String) where
    abbrev Gives : Option Double → Outcome S (List (String × Double)) → Type 0
    Gives sum = Post (λ m _. lookup game m ≡ sum) (λ _. Unit {0}) (Unit {0})

    abbrev GivesBurns : Option Double → Outcome S (Outputs Json Double) → Type 0
    GivesBurns sum = Post (λ o _. lookup game o.burns ≡ sum) (λ _. Unit {0}) (Unit {0})

    add_burnt-Gives :
        (out : Json) (burns : List (String × Double)) (burnt : Option String) (s : S)
        → Gives
            (added game burnt (amount_of out) (lookup game burns))
            (add_burnt values out burns burnt s)
    unfolding add_burnt
    add_burnt-Gives out burns none s = refl
    add_burnt-Gives out burns (some g) s =
        ground (arith, lookup-add_value g game (amount_of out) burns)

    add_burn-Gives :
        (out script : Json) (burns : List (String × Double)) (s : S)
        → Gives
            (added game (game_of_script script) (amount_of out) (lookup game burns))
            (add_burn values unhexlify out script burns s)
    unfolding add_burn
    add_burn-Gives out script burns s =
        Post-if _ _ _ (values.is_member "burn" script) _ _ s
          (λ e. Post-reading _ _ _ (values.at "burn" script) _ s tt (λ val f.
            Post-check _ _ _ (values.is_string val) _ s tt (λ g.
              Post-reading _ _ _ (values.as_string val) _ s tt (λ hex h.
                Post-checked _ _ _ (unhexlify hex) _ s tt
                  (λ burn i. ground (arith, add_burnt-Gives out burns (burnt_game burn) s))))))
          (λ e. ground arith)

    take_output-GivesBurns :
        (out : Json) (o : Outputs Json Double) (s : S)
        → GivesBurns
            (added game (game_of out) (amount_of out) (lookup game o.burns))
            (take_output values unhexlify out o s)
    unfolding take_output
    take_output-GivesBurns out o s = Post-check _ _ _ (values.is_object out) _ s tt (λ e.
        Post-reading _ _ _ (values.at "scriptPubKey" out) _ s tt (λ script f.
          Post-check _ _ _ (values.is_object script) _ s tt (λ g.
            Post-if _ _ _ (values.is_member "nameOp" script) _ _ s (λ h. ground arith)
              (λ h.
                Post-bind _ _ _ _ (add_address values unhexlify out script o.out_amounts s) _
                  (Post-any _)
                  (λ amounts s' _.
                    Post-bind _ _ _ _ (add_burn values unhexlify out script o.burns s') _
                      (add_burn-Gives out script o.burns s') (λ burns s'' i. ground arith))))))

    take_outputs-GivesBurns :
        (outs : List Json) (o : Outputs Json Double) (s : S)
        → GivesBurns
            (total_burnt game outs (lookup game o.burns))
            (take_outputs values unhexlify outs o s)
    unfolding take_outputs
    take_outputs-GivesBurns [] o s = refl
    take_outputs-GivesBurns (out ∷ outs) o s =
        Post-bind _ _ _ _ (take_output values unhexlify out o s) _ (take_output-GivesBurns out o s)
          (λ o' s' e.
            subst
              (λ x. GivesBurns (total_burnt game outs x) (take_outputs values unhexlify outs o' s'))
              e (take_outputs-GivesBurns outs o' s'))

    move_of-BurnsAre :
        (tx : Json) (o : Outputs Json Double) (s : S)
        → Post
            (λ mv _. BurnsAre game (lookup game o.burns) mv)
            (λ _. Unit {0})
            (Unit {0})
            (move_of values unhexlify tx o s)
    unfolding move_of
    move_of-BurnsAre tx o s =
        Post-bind _ _ _ _ (take_name values unhexlify o.name_op s) _ (Post-any _) (λ named s' _.
          Post-bind _ _ _ _ (take_details values unhexlify tx s') _ (Post-any _)
            (λ details s'' _. lookup-burns_of game o.burns))

    -- For each game, if the outputs of a transaction are an array and GetMoveFromTx returns true: the move's
    -- burns have for the game the sum of the values of the outputs that burn for it, from the left,
    -- and no entry if there are none.
    pub get_move_from_tx-BurnsAre :
        (tx vout : Json) (s : S)
        → values.at "vout" tx ≡ some vout
        → Post
            (λ mv _. BurnsAre game (total_burnt game (values.elements vout) none) mv)
            (λ _. Unit {0})
            (Unit {0})
            (get_move_from_tx values unhexlify tx s)
    unfolding get_move_from_tx no_outputs lookup
    get_move_from_tx-BurnsAre tx vout s e = Post-reading _ _ _ (values.at "vout" tx) _ s tt (λ v f.
        Post-bind _ _ _ _ (take_outputs values unhexlify (values.elements v) (no_outputs values) s)
          _ (take_outputs-GivesBurns (values.elements v) (no_outputs values) s)
          (λ o s' g.
            Post-if _ _ _ (values.is_null o.name_op) _ _ s' (λ h. tt)
              (λ h.
                subst
                  (λ x.
                    Post (λ mv _. BurnsAre game x mv) (λ _. Unit {0}) (Unit {0})
                      (move_of values unhexlify tx o s'))
                  (ground (arith, g)) (move_of-BurnsAre tx o s'))))
