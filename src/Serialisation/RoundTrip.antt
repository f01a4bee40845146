-- ===== src/Serialisation/RoundTrip.antt =====
-- A serialised block is read back: src/blockdata.cpp.
use mathlib.Core.List.{append-nil, append_assoc}
use Prim.Native.Nat.{Ordering}
use Prim.Native.String.{compare}
use xayax.Prelude.{
  suc, ◌≡◌, refl, arith, String, List, [], ◌∷◌, ◌++◌, All, some, length, map, ap, sym, ◌∙◌,
}
use xayax.Prelude.Maps.{emplace}
use xayax.BlockData.{BlockData, MoveData, ReadsBack}
use xayax.Serialisation.{
  Formats, BlockMessage, MoveMessage, store_json, load_json, store_burns, store_move, store_moves,
  serialise, load_burns, load_move, load_moves, deserialise, written, block_codec,
}

-- The key comes behind those of a map.
abbrev IsBehind : {V : Type 0} → String → List (String × V) → Type 0
IsBehind k m = All (λ e. compare k e.0 ≡ Ordering.gt) m

-- A map in the order of its keys.
abbrev pub IsSorted : {V : Type 0} → List (String × V) → Type 0
IsSorted [] = Unit {0}
IsSorted ((k, v) ∷ m) = All (λ e. compare e.0 k ≡ Ordering.gt) m × IsSorted m

emplace-IsBehind :
    {V : Type 0} (k : String) (v : V) (m : List (String × V))
    → IsBehind k m
    → emplace k v m ≡ m ++ (k, v) ∷ []
unfolding emplace
emplace-IsBehind k v [] h = refl
emplace-IsBehind k v ((j, w) ∷ m) (h, hs) = ground (arith, h, emplace-IsBehind k v m hs)

IsBehind-snoc :
    {V : Type 0} (j k : String) (v : V) (m : List (String × V))
    → IsBehind j m
    → compare j k ≡ Ordering.gt
    → IsBehind j (m ++ (k, v) ∷ [])
IsBehind-snoc j k v [] h g = (g, tt)
IsBehind-snoc j k v (e ∷ m) (h, hs) g = (h, IsBehind-snoc j k v m hs g)

-- All keys of a map come behind those of another.
abbrev AreBehind : {V W : Type 0} → List (String × V) → List (String × W) → Type 0
AreBehind m res = All (λ e. IsBehind e.0 res) m

AreBehind-snoc :
    {V W : Type 0} (m : List (String × V)) (k : String) (w : W) (res : List (String × W))
    → AreBehind m res
    → All (λ e. compare e.0 k ≡ Ordering.gt) m
    → AreBehind m (res ++ (k, w) ∷ [])
AreBehind-snoc [] k w res h g = tt
AreBehind-snoc ((j, v) ∷ m) k w res (h, hs) (g, gs) =
    (IsBehind-snoc j k w res h g, AreBehind-snoc m k w res hs gs)

AreBehind-nil : {V : Type 0} (W : Type 0) (m : List (String × V)) → AreBehind {W = W} m []
AreBehind-nil W [] = tt
AreBehind-nil W (e ∷ m) = (tt, AreBehind-nil W m)

module _ {Json : Type 0} (formats : Formats Json) where
  -- jsoncpp reads a value from what it writes for it.
  abbrev pub IsReadable : Json → Type 0
  IsReadable v = formats.parse_from_stream (formats.write_string v) ≡ some v

  abbrev stored : List (String × Json) → List (String × String)
  stored [] = []
  stored ((k, v) ∷ m) = (k, formats.write_string v) ∷ stored m

  store_burns-stored :
      (m : List (String × Json)) (res : List (String × String))
      → IsSorted m
      → AreBehind m res
      → store_burns formats m res ≡ res ++ stored m
  unfolding store_burns store_json
  store_burns-stored [] res s h = sym (append-nil res)
  store_burns-stored ((k, v) ∷ m) res (t, s) (h, hs) =
      ap (store_burns formats m) (emplace-IsBehind k (formats.write_string v) res h)
      ∙ store_burns-stored m (res ++ (k, formats.write_string v) ∷ []) s
          (AreBehind-snoc m k (formats.write_string v) res hs t)
      ∙ append_assoc res ((k, formats.write_string v) ∷ []) (stored m)

  load_next :
      (k bytes : String) (v : Json) (m : List (String × String)) (res : List (String × Json))
      → formats.parse_from_stream bytes ≡ some v
      → load_burns formats ((k, bytes) ∷ m) res ≡ load_burns formats m (emplace k v res)
  unfolding load_burns load_json
  load_next k bytes v m res e = ground arith

  load_burns-stored :
      (m res : List (String × Json))
      → All (λ e. IsReadable e.1) m
      → IsSorted m
      → AreBehind m res
      → load_burns formats (stored m) res ≡ some (res ++ m)
  unfolding load_burns load_json
  load_burns-stored [] res r s h = ap some (sym (append-nil res))
  load_burns-stored ((k, v) ∷ m) res (q, r) (t, s) (h, hs) =
      load_next k (formats.write_string v) v (stored m) res q
      ∙ ap (load_burns formats (stored m)) (emplace-IsBehind k v res h)
      ∙ load_burns-stored m (res ++ (k, v) ∷ []) r s (AreBehind-snoc m k v res hs t)
      ∙ ap some (append_assoc res ((k, v) ∷ []) m)

  length-stored : (m : List (String × Json)) → length (stored m) ≡ length m
  length-stored [] = refl
  length-stored (e ∷ m) = ap suc (length-stored m)

  -- A move whose burns are in the order of their keys and whose values are read back.
  abbrev pub IsStorable : MoveData Json → Type 0
  IsStorable mv = IsSorted mv.burns × All (λ e. IsReadable e.1) mv.burns × IsReadable mv.metadata

  abbrev message_of : MoveData Json → MoveMessage
  message_of mv = record {
    txid = mv.txid;
    ns = mv.ns;
    name = mv.name;
    mv = mv.mv;
    burns = stored mv.burns;
    metadata = formats.write_string mv.metadata;
  }

  store_move-message_of :
      (mv : MoveData Json) → IsStorable mv → store_move formats mv ≡ some (message_of mv)
  unfolding store_move store_json
  store_move-message_of mv (s, r, m) = ground (
    arith,
    store_burns-stored mv.burns [] s (AreBehind-nil String mv.burns),
    length-stored mv.burns,
  )

  load_move-message_of :
      (mv : MoveData Json) → IsStorable mv → load_move formats (message_of mv) ≡ some mv
  unfolding load_move load_json
  load_move-message_of mv (s, r, m) = ground (
    arith,
    load_burns-stored mv.burns [] r s (AreBehind-nil Json mv.burns),
    length-stored mv.burns,
    m,
  )

  store_moves-message_of :
      (mvs : List (MoveData Json))
      → All IsStorable mvs
      → store_moves formats mvs ≡ some (map message_of mvs)
  unfolding store_moves
  store_moves-message_of [] h = refl
  store_moves-message_of (mv ∷ mvs) (h, hs) =
      ground (arith, store_move-message_of mv h, store_moves-message_of mvs hs)

  load_moves-message_of :
      (mvs : List (MoveData Json))
      → All IsStorable mvs
      → load_moves formats (map message_of mvs) ≡ some mvs
  unfolding load_moves
  load_moves-message_of [] h = refl
  load_moves-message_of (mv ∷ mvs) (h, hs) =
      ground (arith, load_move-message_of mv h, load_moves-message_of mvs hs)

  abbrev pub block_message : BlockData Json → BlockMessage
  block_message b = record {
    hash = b.hash;
    parent = b.parent;
    height = b.height;
    rngseed = b.rngseed;
    metadata = formats.write_string b.metadata;
    moves = map message_of b.moves;
  }

  serialise-block_message :
      (b : BlockData Json)
      → All IsStorable b.moves
      → serialise formats b ≡ some (formats.serialize_to_string (block_message b))
  unfolding serialise store_json
  serialise-block_message b h = ground (arith, store_moves-message_of b.moves h)

  deserialise-block_message :
      (b : BlockData Json) (bytes : String)
      → formats.parse_from_string bytes ≡ some (block_message b)
      → IsReadable b.metadata
      → All IsStorable b.moves
      → deserialise formats bytes ≡ some b
  unfolding deserialise load_json
  deserialise-block_message b bytes e m h = ground (arith, load_moves-message_of b.moves h)

  -- The code that protoc generates reads a message from the bytes that it writes for it.
  abbrev pub ParsesBack : BlockMessage → Type 0
  ParsesBack m = formats.parse_from_string (formats.serialize_to_string m) ≡ some m

  -- Serialise returns bytes for a block and Deserialise returns the block for them, so that the codec of
  -- the chainstate reads the block back, if the libraries read back the block's message and its JSON
  -- values from what they write for them and the burns are in the order of their keys.
  pub block_codec-ReadsBack :
      (b : BlockData Json)
      → ParsesBack (block_message b)
      → IsReadable b.metadata
      → All IsStorable b.moves
      → ((bytes : String) × (serialise formats b ≡ some bytes)
          × (deserialise formats bytes ≡ some b))
        × ReadsBack (block_codec formats) b
  unfolding block_codec
  block_codec-ReadsBack b p m h =
      let bytes = formats.serialize_to_string (block_message b) in
      let out = serialise-block_message b h in
      let back = deserialise-block_message b bytes p m h in
      ((bytes, out, back), ap (λ o. deserialise formats (written formats o)) out ∙ back)
