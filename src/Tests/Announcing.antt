-- ===== src/Tests/Announcing.antt =====
-- An instance for the moves of a transaction that are sent.
use xayax.Prelude.{List, [], ◌∷◌, ◌≡◌, refl}
use xayax.Prelude.Texts.{str_discrete}
use xayax.Prelude.Maps.{lookup}
use xayax.ZmqPub.{ZmqPub, Part}
use xayax.ZmqPub.Moves.{per_tx_data}
use xayax.ZmqPub.Routing.{moves_of}
use xayax.Tests.Fixtures.{a_game_move, js, js_member, js_number, js_text, js_object, open_socket}

abbrev tracking : ZmqPub (List Part)
tracking = record { next_seq = []; games = ("mv", 1) ∷ ("other", 2) ∷ []; wire = [] }

move_of_mv :
    moves_of js open_socket "mv" (a_game_move ∷ [])
    ≡ js_member "burnt" (js_number 0) (
        js_member "move"
          (js_number 5)
          (js_member "name" (js_text "domob") (js_member "txid" (js_text "txid") js_object)))
      ∷ []
unfolding per_tx_data str_discrete lookup
move_of_mv = refl
