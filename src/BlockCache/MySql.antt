-- ===== src/BlockCache/MySql.antt =====
-- MySqlBlockStorage of src/cache/mysql.cpp. The library mypp and the server behind it are the record
-- Mypp, over the state of a connection; what throws there is a mypp::Error.
use xayax.Prelude.{
  ℕ, ◌+◌, ◌-◌, ◌%◌, ℤ, pos, negsuc, String, Bool, true, false, List, [], ◌∷◌, Option, none, some,
  ltb, if◌then◌else◌, u64_mod, i64_bound,
}
use xayax.Prelude.Action.{
  Action, done, threw, aborted, ◌>>=◌, ◌>>◌, get, put, pure, abort, check, checked,
}
use xayax.BlockData.{BlockData, Codec}
use xayax.BlockCache.{Storage}

-- What mypp::UrlParser reads from a URL.
pub record Url : Type 0 where
  pub host : String
  pub port : ℕ
  pub user : String
  pub password : String
  pub database : String
  pub has_table : Bool
  pub url_table : String
  pub has_option : String → Bool
  pub get_option : String → String

-- The statements have the table's name as an argument in place of their text.
pub record Mypp (Db : Type 0) : Type 0 where
  pub disconnected : Db
  pub parse : String → Option Url
  pub use_client_certificate : String → String → String → Db → Db
  pub connect : String → ℕ → String → String → String → Action Db (Unit {0})
  pub prepare : String → Action Db (Unit {0})
  pub replace_into : String → ℤ → String → Action Db (Unit {0})
  pub select_data : String → ℤ → ℤ → Action Db (List String)

-- MySqlBlockStorage::Implementation
pub record Implementation (Db : Type 0) : Type 0 where
  pub connection : Db
  pub table : String

-- The conversion of uint64_t to int64_t in stmt.Bind<int64_t>
abbrev pub as_int64 : ℕ → ℤ
as_int64 v = if ltb v i64_bound then pos v else negsuc (u64_mod - 1 - v)

-- try { ... } catch (const mypp::Error& exc) { ... }
abbrev pub catching : {S A : Type 0} → Action S A → Action S A → Action S A
catching m handler s = elim (m s) [
  | done a s' ↦ done a s'
  | threw s' ↦ handler s'
  | aborted ↦ aborted
]

module _ {Db : Type 0} where
  abbrev pub on_connection : {A : Type 0} → Action Db A → Action (Implementation Db) A
  on_connection m s = elim (m s.connection) [
    | done a w ↦ done a (record s { connection = w })
    | threw w ↦ threw (record s { connection = w })
    | aborted ↦ aborted
  ]

module _ {Json Db : Type 0} (codec : Codec Json) (mypp : Mypp Db) where
  unfoldable pub use_cert : String → String → String → Action (Implementation Db) (Unit {0})
  use_cert ca cert key = do
    s ← get
    put (record s { connection = mypp.use_client_certificate ca cert key s.connection })

  unfoldable pub connect_to :
      String → ℕ → String → String → String → String → Action (Implementation Db) Bool
  connect_to host port user password database table =
      catching
        (do
          on_connection (mypp.connect host port user password database)
          s ← get
          put (record s { table = table })
          pure true)
        (pure false)

  -- One round of the loop of Store
  unfoldable pub store_block : BlockData Json → Action (Implementation Db) (Unit {0})
  store_block b = do
    s ← get
    catching (on_connection (mypp.prepare s.table)) abort
    catching (on_connection (mypp.replace_into s.table (as_int64 b.height) (codec.serialise b)))
        (pure tt)

  unfoldable pub store_blocks : List (BlockData Json) → Action (Implementation Db) (Unit {0})
  unfolding store_block
  store_blocks [] = pure tt
  store_blocks (b ∷ bs) = do store_block b; store_blocks bs

  unfoldable pub deserialise_all : List String → Option (List (BlockData Json))
  deserialise_all [] = some []
  deserialise_all (d ∷ ds) = elim (codec.deserialise d) [
    | none ↦ none
    | some b ↦ elim (deserialise_all ds) [ none ↦ none | some bs ↦ some (b ∷ bs) ]
  ]

  unfoldable pub get_range : ℕ → ℕ → Action (Implementation Db) (List (BlockData Json))
  unfolding deserialise_all
  get_range start count = do
    s ← get
    catching (on_connection (mypp.prepare s.table)) abort
    catching
        (do
          ds ←
              on_connection
                (mypp.select_data s.table (as_int64 start) (as_int64 ((start + count) % u64_mod)))
          checked (deserialise_all ds))
        (pure [])

  -- MySqlBlockStorage::Connect, on the pointer `impl`
  unfoldable pub connect : String → Action (Option (Implementation Db)) Bool
  unfolding use_cert connect_to
  connect url none = elim (mypp.parse url) [
    | none ↦ done false none
    | some u ↦
        if u.has_table
        then (elim ((do
          (if u.has_option "ssl-cert"
              then use_cert (u.get_option "ssl-ca") (u.get_option "ssl-cert")
                  (u.get_option "ssl-key")
              else pure tt)
          ok ← connect_to u.host u.port u.user u.password u.database u.url_table
          check ok)
            (record { connection = mypp.disconnected; table = "" })) [
              | done _ s ↦ done true (some s)
              | threw s ↦ threw (some s)
              | aborted ↦ aborted
            ])
        else done false none
  ]
  connect url (some s) = aborted

  -- A storage that has been connected, as the storage of a block cache
  unfoldable pub mysql_storage : Storage Json (Implementation Db)
  unfolding store_blocks get_range
  mysql_storage = record { store = store_blocks; get_range = get_range }
