-- ===== src/Database.antt =====
-- src/database.cpp and src/private/database.hpp: the connection to SQLite, with its cache of prepared
-- statements. The SQLite library is the record Sqlite, over its connections and statements.
pub mod Statements
pub mod Objects
pub mod Owners
pub mod Sharing
pub mod Lifetime
use xayax.Prelude.{
  ℕ, ℤ, pos, negsuc, String, Bool, true, false, ◌&&◌, ◌||◌, List, [], ◌∷◌, Option, none, some,
  if◌then◌else◌,
}
use xayax.Prelude.Action.{Action, ◌>>=◌, ◌>>◌, get, put, pure, abort, checked}
use xayax.Prelude.Maps.{lookup, insert, emplace}

-- The result codes of sqlite3_step.
pub data StepResult : Type 0 where
  row : StepResult
  finished : StepResult
  failed : StepResult

-- The functions of SQLite that the code calls. A call that changes something gives `none` unless it
-- returns SQLITE_OK. A null pointer for a column is `none`.
pub record Sqlite (Conn Stmt : Type 0) : Type 0 where
  pub versions_match : Bool
  pub config_multithread : Bool
  pub open_v2 : String → Option Conn
  pub exec : String → Conn → Option (List String × Conn)
  pub prepare_v2 : String → Conn → Option Stmt
  pub changes : Conn → ℤ
  pub close : Conn → Bool
  pub finalize : Stmt → Conn → Conn
  pub clear_bindings : Stmt → Option Stmt
  pub reset : Stmt → Stmt
  pub step : Stmt → Conn → StepResult × Stmt × Conn
  pub bind_null : ℕ → Stmt → Option Stmt
  pub bind_int64 : ℕ → ℤ → Stmt → Option Stmt
  pub bind_text : ℕ → String → Stmt → Option Stmt
  pub bind_blob : ℕ → String → Stmt → Option Stmt
  pub column_is_null : ℕ → Stmt → Bool
  pub column_int64 : ℕ → Stmt → ℤ
  pub column_text : ℕ → Stmt → Option String
  pub column_blob : ℕ → Stmt → Option String
  pub column_bytes : ℕ → Stmt → ℕ

-- Database::CachedStatement
pub record CachedStatement (Stmt : Type 0) : Type 0 where
  pub stmt : Stmt
  pub used : Bool

-- Database
pub record Database (Conn Stmt : Type 0) : Type 0 where
  pub db : Conn
  pub statements : List (String × CachedStatement Stmt)

-- Database::Statement::entry: the entry of the cache that a statement refers to, by its key; `none`
-- is a null pointer.
abbrev pub Statement : Type 0
Statement = Option String

module _ {Conn Stmt : Type 0} (sqlite : Sqlite Conn Stmt) where
  -- CachedStatement::Acquire
  unfoldable pub acquire : CachedStatement Stmt → Option (CachedStatement Stmt)
  acquire e = if e.used then none else some (record e { used = true })

  -- CachedStatement::Release
  unfoldable pub release : CachedStatement Stmt → Option (CachedStatement Stmt)
  release e =
      if e.used
      then (elim (sqlite.clear_bindings e.stmt) [
        | none ↦ none
        | some stmt ↦ some (record { stmt = sqlite.reset stmt; used = false })
      ])
      else none

  -- CachedStatement::~CachedStatement for each entry of the cache
  unfoldable pub clear_statements : List (String × CachedStatement Stmt) → Conn → Option Conn
  clear_statements [] db = some db
  clear_statements ((sql, e) ∷ es) db =
      let rest = clear_statements es (sqlite.finalize e.stmt db) in if e.used then none else rest

  -- Database::Database. The flag says whether an instance has been opened before.
  unfoldable pub open_database : Bool → String → Option (Database Conn Stmt)
  open_database initialised file =
      if initialised || (sqlite.versions_match && sqlite.config_multithread)
      then (elim (sqlite.open_v2 file) [
        | none ↦ none
        | some db ↦ some (record { db = db; statements = [] })
      ])
      else none

  -- Database::~Database: whether it does not abort.
  unfoldable pub close_database : Database Conn Stmt → Bool
  unfolding clear_statements
  close_database d = elim (clear_statements d.statements d.db) [
    | none ↦ false
    | some db ↦ sqlite.close db
  ]

  -- Database::Execute
  unfoldable pub execute_sql : String → Action (Database Conn Stmt) (Unit {0})
  execute_sql sql = do
    d ← get
    (rows, db) ← checked (sqlite.exec sql d.db)
    elim rows [ [] ↦ put (record d { db = db }) | r ∷ rs ↦ abort ]

  -- Database::RowsModified
  unfoldable pub rows_modified : Action (Database Conn Stmt) ℕ
  rows_modified = do d ← get; elim (sqlite.changes d.db) [ pos n ↦ pure n | negsuc n ↦ abort ]

  -- The entry that a pointer into the cache refers to.
  abbrev pub entry_at : String → Action (Database Conn Stmt) (CachedStatement Stmt)
  entry_at sql = do d ← get; checked (lookup sql d.statements)

  abbrev pub put_entry : String → CachedStatement Stmt → Action (Database Conn Stmt) (Unit {0})
  put_entry sql e = do d ← get; put (record d { statements = insert sql e d.statements })

  -- Database::PrepareRo, which Database::Prepare calls
  unfoldable pub prepare : String → Action (Database Conn Stmt) Statement
  unfolding acquire
  prepare sql = do
    d ← get
    elim (lookup sql d.statements) [
      | some e ↦ do e' ← checked (acquire e); put_entry sql e'; pure (some sql)
      | none ↦ do
        stmt ← checked (sqlite.prepare_v2 sql d.db)
        e ← checked (acquire (record { stmt = stmt; used = false }))
        put (record d { statements = emplace sql e d.statements })
        pure (some sql)
    ]
