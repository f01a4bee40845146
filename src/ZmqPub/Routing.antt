-- ===== src/ZmqPub/Routing.antt =====
-- Which moves of a block ZmqPub::SendBlock of src/zmqpub.cpp puts into the arrays of which game.
use mathlib.Core.List.{append-nil, append_assoc}
use xayax.Prelude.{
  String, List, [], ◌∷◌, ◌++◌, Option, none, some, All, ◌≡◌, refl, arith, ite, ap, sym, ◌∙◌,
  Option-cases, inl, inr,
}
use xayax.Prelude.Texts.{str_discrete}
use xayax.Prelude.Maps.{lookup, lookup-insert}
use xayax.BlockData.{MoveData}
use xayax.ZmqPub.{JsonLib, Socket}
use xayax.ZmqPub.Moves.{PerTxData, per_tx_data}
use xayax.ZmqPub.Blocks.{append_to, append_all, append_admin, sort_moves}

module _ {Json : Type 0} where
  -- An array that is there, with more elements at its end.
  abbrev pub extended : List Json → Option (List Json) → Option (List Json)
  extended vs none = none
  extended vs (some us) = some (us ++ vs)

  -- The values of a game, in order.
  abbrev pub of_game : String → List (String × Json) → List Json
  of_game g [] = []
  of_game g ((h, v) ∷ rest) = ite (str_discrete h g) (v ∷ of_game g rest) (of_game g rest)

  abbrev pub admin_of : String → Option (String × Json) → List Json
  admin_of g none = []
  admin_of g (some e) = of_game g (e ∷ [])

  pub extended_twice :
      (us vs : List Json) (o : Option (List Json))
      → extended vs (extended us o) ≡ extended (us ++ vs) o
  extended_twice us vs none = refl
  extended_twice us vs (some ws) = ap some (append_assoc ws us vs)

  pub extended_none : (o : Option (List Json)) → extended [] o ≡ o
  extended_none none = refl
  extended_none (some ws) = ap some (append-nil ws)

  lookup-append_to :
      (g h : String) (v : Json) (m : List (String × List Json))
      → lookup g (append_to h v m) ≡ extended (of_game g ((h, v) ∷ [])) (lookup g m)
  unfolding append_to
  lookup-append_to g h v m = elim (Option-cases (lookup h m)) [
    | inl e ↦ ground (arith, extended_none (lookup g m))
    | inr (vs, e) ↦ ground (arith, extended_none (lookup g m), lookup-insert h g (vs ++ v ∷ []) m)
  ]

  of_game-cons :
      (g h : String) (v : Json) (es : List (String × Json))
      → of_game g ((h, v) ∷ []) ++ of_game g es ≡ of_game g ((h, v) ∷ es)
  of_game-cons g h v es = ground arith

  pub lookup-append_all :
      (g : String) (es : List (String × Json)) (m : List (String × List Json))
      → lookup g (append_all es m) ≡ extended (of_game g es) (lookup g m)
  unfolding append_all
  lookup-append_all g [] m = sym (extended_none (lookup g m))
  lookup-append_all g ((h, v) ∷ es) m =
      lookup-append_all g es (append_to h v m)
      ∙ ap (extended (of_game g es)) (lookup-append_to g h v m)
      ∙ extended_twice (of_game g ((h, v) ∷ [])) (of_game g es) (lookup g m)
      ∙ ap (λ l. extended l (lookup g m)) (of_game-cons g h v es)

  lookup-append_admin :
      (g : String) (e : Option (String × Json)) (m : List (String × List Json))
      → lookup g (append_admin e m) ≡ extended (admin_of g e) (lookup g m)
  lookup-append_admin g none m = sym (extended_none (lookup g m))
  lookup-append_admin g (some (h, v)) m = lookup-append_to g h v m

  module _ {Wire : Type 0} (json : JsonLib Json) (socket : Socket Wire) where
    -- A move that does not make the process abort.
    abbrev pub IsReadable : MoveData Json → Type 0
    IsReadable mv = (d : PerTxData Json) × (per_tx_data json mv ≡ some d)

    -- What moves say to a game, in order.
    abbrev pub moves_of : String → List (MoveData Json) → List Json
    moves_of g [] = []
    moves_of g (mv ∷ mvs) =
        elim (per_tx_data json mv) [ none ↦ [] | some d ↦ of_game g d.moves ] ++ moves_of g mvs

    abbrev pub commands_of : String → List (MoveData Json) → List Json
    commands_of g [] = []
    commands_of g (mv ∷ mvs) =
        elim (per_tx_data json mv) [ none ↦ [] | some d ↦ admin_of g d.admin ] ++ commands_of g mvs

    sort_one :
        (mv : MoveData Json) (mvs : List (MoveData Json)) (d : PerTxData Json)
        (moves admin : List (String × List Json))
        → per_tx_data json mv ≡ some d
        → sort_moves json socket (mv ∷ mvs) moves admin
          ≡ sort_moves json socket mvs (append_all d.moves moves) (append_admin d.admin admin)
    unfolding sort_moves
    sort_one mv mvs d moves admin e = rw e

    -- If every move of a block can be read, the loop over the moves returns. The array of each game that
    -- has one then goes on with what the moves say to that game, in the order of the moves, the array of
    -- its commands with the commands of its admin, and no game gets an array that had none.
    pub sort_moves-extended :
        (mvs : List (MoveData Json)) (moves admin : List (String × List Json))
        → All IsReadable mvs
        → (moves' : List (String × List Json)) × (admin' : List (String × List Json)) × (sort_moves
              json socket mvs moves admin
            ≡ some (moves', admin'))
          × ((g : String) → lookup g moves' ≡ extended (moves_of g mvs) (lookup g moves))
          × ((g : String) → lookup g admin' ≡ extended (commands_of g mvs) (lookup g admin))
    unfolding sort_moves
    sort_moves-extended [] moves admin r = (
      moves,
      admin,
      refl,
      (λ g. sym (extended_none (lookup g moves))),
      (λ g. sym (extended_none (lookup g admin))),
    )
    sort_moves-extended (mv ∷ mvs) moves admin ((d, e), r) =
        let (m', a', f, hm, ha) =
          sort_moves-extended mvs (append_all d.moves moves) (append_admin d.admin admin) r in
        (
          m',
          a',
          sort_one mv mvs d moves admin e ∙ f,
          (λ g. rw e (
              hm g
              ∙ ap (extended (moves_of g mvs)) (lookup-append_all g d.moves moves)
              ∙ extended_twice (of_game g d.moves) (moves_of g mvs) (lookup g moves))),
          (λ g. rw e (
              ha g
              ∙ ap (extended (commands_of g mvs)) (lookup-append_admin g d.admin admin)
              ∙ extended_twice (admin_of g d.admin) (commands_of g mvs) (lookup g admin))),
        )
