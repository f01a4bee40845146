-- ===== src/BlockData.antt =====
-- src/blockdata.hpp: the blocks and moves that the parts pass to one another. `Json` stands for
-- jsoncpp's Json::Value, which is not part of the repository; a std::map is an association list in
-- the order of its keys.
use xayax.Prelude.{ℕ, String, List, [], ◌∷◌, Option, none, some, ◌≡◌}

pub record MoveData (Json : Type 0) : Type 0 where
  pub txid : String
  pub ns : String
  pub name : String
  pub mv : String
  pub burns : List (String × Json)
  pub metadata : Json

pub record BlockData (Json : Type 0) : Type 0 where
  pub hash : String
  pub parent : String
  pub height : ℕ
  pub rngseed : String
  pub metadata : Json
  pub moves : List (MoveData Json)

-- BlockData::Serialise and BlockData::Deserialise, on the bytes of a protocol buffer; `none` is the
-- failed CHECK on bytes that do not parse.
pub record Codec (Json : Type 0) : Type 0 where
  pub serialise : BlockData Json → String
  pub deserialise : String → Option (BlockData Json)

-- What the storage relies on: the bytes written for a block are read back as that block.
abbrev pub ReadsBack : {Json : Type 0} → Codec Json → BlockData Json → Type 0
ReadsBack codec b = codec.deserialise (codec.serialise b) ≡ some b

-- Each block is the parent of the next.
abbrev pub Linked : {Json : Type 0} → List (BlockData Json) → Type 0
Linked [] = Unit {0}
Linked (a ∷ []) = Unit {0}
Linked (a ∷ b ∷ bs) = (b.parent ≡ a.hash) × Linked (b ∷ bs)

-- The blocks start at a height, if there are any.
abbrev pub StartsAt : {Json : Type 0} → ℕ → List (BlockData Json) → Type 0
StartsAt start [] = Unit {0}
StartsAt start (b ∷ bs) = b.height ≡ start

-- What a client may return for a range that starts at the height, if it returns one.
abbrev pub IsRange : {Json : Type 0} → ℕ → Option (List (BlockData Json)) → Type 0
IsRange start none = Unit {0}
IsRange start (some bs) = StartsAt start bs × Linked bs
