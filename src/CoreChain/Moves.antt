-- ===== src/CoreChain/Moves.antt =====
-- GetMoveFromTx of xayacore/corechain.cpp: the move that a transaction of Xaya Core makes.
use Prim.Native.Char.{code}
use xayax.Prelude.{String, ◌&&◌, List, [], ◌∷◌, Option, none, some, ◌==◌, if◌then◌else◌}
use xayax.Prelude.Texts.{same}
use xayax.Prelude.Maps.{lookup, insert, emplace}
use xayax.Prelude.Action.{Action, ◌>>=◌, ◌>>◌, pure, check, checked}
use xayax.BlockData.{MoveData}
use xayax.Values.{Values, reading, field}

-- fullName.find ('/') with the texts before and after it.
unfoldable pub split_name : String → Option (String × String)
split_name String.[] = none
split_name (String.◌∷◌ c s) =
    let rest = split_name s in
    if code c == b'/'
    then some ("", s)
    else elim rest [ none ↦ none | some (ns, name) ↦ some (String.◌∷◌ c ns, name) ]

-- The rest of a text that starts with "g/".
unfoldable pub burnt_game : String → Option String
burnt_game String.[] = none
burnt_game (String.◌∷◌ c String.[]) = none
burnt_game (String.◌∷◌ c (String.◌∷◌ d s)) =
    if code c == b'g' && code d == b'/' then some s else none

-- The local variables of the loop over the outputs.
pub record Outputs (Json Double : Type 0) : Type 0 where
  pub out_amounts : List (String × Double)
  pub burns : List (String × Double)
  pub name_op : Json

module _ {Json Double : Type 0} (values : Values Json Double) where
  -- outAmounts[addr] += value, after an emplace of 0.0 where the key is missing
  unfoldable pub add_value : String → Double → List (String × Double) → List (String × Double)
  add_value k v m = elim (lookup k m) [
    | none ↦ emplace k (values.plus values.zero_double v) m
    | some w ↦ insert k (values.plus w v) m
  ]

  unfoldable pub no_outputs : Outputs Json Double
  no_outputs = record { out_amounts = []; burns = []; name_op = values.null }

  unfoldable pub set_amounts : List (String × Double) → Json → Json
  set_amounts [] j = j
  set_amounts ((k, v) ∷ m) j = set_amounts m (values.set k (values.double v) j)

  unfoldable pub burns_of : List (String × Double) → List (String × Json)
  burns_of [] = []
  burns_of ((k, v) ∷ m) = (k, values.double v) ∷ burns_of m

  module _ {S : Type 0} where
    unfoldable pub add_burnt :
        Json → List (String × Double) → Option String → Action S (List (String × Double))
    unfolding add_value
    add_burnt out burns none = pure burns
    add_burnt out burns (some game) = do
      v ← field values values.as_double "value" out
      pure (add_value game v burns)

  module _ {S : Type 0} (unhexlify : String → Option String) where
    unfoldable pub add_address :
        Json → Json → List (String × Double) → Action S (List (String × Double))
    unfolding add_value
    add_address out script amounts =
        if values.is_member "address" script
        then (do
          val ← reading (values.at "address" script)
          check (values.is_string val)
          addr ← reading (values.as_string val)
          v ← field values values.as_double "value" out
          pure (add_value addr v amounts))
        else pure amounts

    unfoldable pub add_burn :
        Json → Json → List (String × Double) → Action S (List (String × Double))
    unfolding add_burnt
    add_burn out script burns =
        if values.is_member "burn" script
        then (do
          val ← reading (values.at "burn" script)
          check (values.is_string val)
          hex ← reading (values.as_string val)
          burn ← checked (unhexlify hex)
          add_burnt out burns (burnt_game burn))
        else pure burns

    unfoldable pub take_output : Json → Outputs Json Double → Action S (Outputs Json Double)
    unfolding add_address add_burn
    take_output out o = do
      check (values.is_object out)
      script ← reading (values.at "scriptPubKey" out)
      check (values.is_object script)
      if values.is_member "nameOp" script
          then (do
            check (values.is_null o.name_op)
            op ← reading (values.at "nameOp" script)
            pure (record o { name_op = op }))
          else do
            amounts ← add_address out script o.out_amounts
            burns ← add_burn out script o.burns
            pure (record o { out_amounts = amounts; burns = burns })

    unfoldable pub take_outputs : List Json → Outputs Json Double → Action S (Outputs Json Double)
    unfolding take_output
    take_outputs [] o = pure o
    take_outputs (out ∷ outs) o = do o' ← take_output out o; take_outputs outs o'

    unfoldable pub take_inputs : List Json → Action S (List Json)
    take_inputs [] = pure []
    take_inputs (i ∷ is) = do
      txid ← field values values.as_string "txid" i
      vout ← field values values.as_int "vout" i
      rest ← take_inputs is
      pure (
          values.set "vout" (values.integer vout)
            (values.set "txid" (values.string txid) values.empty_object)
          ∷ rest)

    -- outJson[entry.first] = entry.second
    -- mv.ns, mv.name and mv.mv
    unfoldable pub take_name : Json → Action S (String × String × String)
    unfolding split_name
    take_name name_op = do
      check (values.is_object name_op)
      name_encoding ← field values values.as_string "name_encoding" name_op
      check (same name_encoding "utf8")
      value_encoding ← field values values.as_string "value_encoding" name_op
      check (same value_encoding "utf8")
      check (values.is_member "name" name_op && values.is_member "value" name_op)
      full_name ← field values values.as_string "name" name_op
      (ns, name) ← checked (split_name full_name)
      value ← field values values.as_string "value" name_op
      pure (ns, name, value)

    -- mv.txid, and of mv.metadata the value of btxid and the inputs
    unfoldable pub take_details : Json → Action S (String × String × List Json)
    unfolding take_inputs
    take_details tx = do
      txid ← field values values.as_string "txid" tx
      btxid ← field values values.as_string "btxid" tx
      vin ← reading (values.at "vin" tx)
      inputs ← take_inputs (values.elements vin)
      pure (txid, btxid, inputs)

    unfoldable pub move_of : Json → Outputs Json Double → Action S (Option (MoveData Json))
    unfolding take_name take_details set_amounts burns_of
    move_of tx o = do
      (ns, name, value) ← take_name o.name_op
      (txid, btxid, inputs) ← take_details tx
      pure (
          some (record {
            txid = txid;
            ns = ns;
            name = name;
            mv = value;
            burns = burns_of o.burns;
            metadata = values.set "inputs" (values.array inputs) (
                values.set "out" (set_amounts o.out_amounts values.empty_object)
                  (values.set "btxid" (values.string btxid) values.empty_object));
          }))

    -- `none` is the result false.
    unfoldable pub get_move_from_tx : Json → Action S (Option (MoveData Json))
    unfolding take_outputs no_outputs move_of
    get_move_from_tx tx = do
      vout ← reading (values.at "vout" tx)
      o ← take_outputs (values.elements vout) no_outputs
      if values.is_null o.name_op then pure none else move_of tx o
