-- ===== src/Database/Statements.antt =====
-- Database::Statement of src/database.cpp: a reference to an entry of the cache, which is in use as
-- long as the object refers to it. The index of a bound parameter or column is `ind`.
use xayax.Prelude.{
  ℕ, ℤ, pos, negsuc, String, Bool, true, false, not, Option, none, some, if◌then◌else◌, ◌==◌,
}
use xayax.Prelude.Action.{Action, ◌>>=◌, ◌>>◌, get, put, pure, abort, check, checked}
use xayax.Chainstate.Table.{bindable}
use xayax.Database.{
  Sqlite, row, finished, failed, Database, Statement, release, entry_at, put_entry,
}

module _ {Conn Stmt : Type 0} (sqlite : Sqlite Conn Stmt) where
  -- Statement::Clear: what is left is an empty statement.
  unfoldable pub clear : Statement → Action (Database Conn Stmt) Statement
  unfolding release
  clear none = pure none
  clear (some sql) = do
    e ← entry_at sqlite sql
    e' ← checked (release sqlite e)
    put_entry sqlite sql e'
    pure none

  -- Statement::operator* and the change that a call of SQLite makes
  unfoldable pub modify : Statement → (Stmt → Option Stmt) → Action (Database Conn Stmt) (Unit {0})
  modify none f = abort
  modify (some sql) f = do
    e ← entry_at sqlite sql
    stmt ← checked (f e.stmt)
    put_entry sqlite sql (record e { stmt = stmt })

  -- Statement::operator* for a call that only reads
  unfoldable pub reading :
      {A : Type 0} → Statement → (Stmt → Option A) → Action (Database Conn Stmt) A
  reading none f = abort
  reading (some sql) f = do e ← entry_at sqlite sql; checked (f e.stmt)

  unfoldable pub step : Statement → Action (Database Conn Stmt) Bool
  step none = abort
  step (some sql) = do
    e ← entry_at sqlite sql
    d ← get
    let (rc, stmt, db) = sqlite.step e.stmt d.db
    put (record d { db = db })
    put_entry sqlite sql (record e { stmt = stmt })
    elim rc [ row ↦ pure true | finished ↦ pure false | failed ↦ abort ]

  unfoldable pub execute : Statement → Action (Database Conn Stmt) (Unit {0})
  unfolding step
  execute s = do more ← step s; check (not more)

  unfoldable pub bind_null : ℕ → Statement → Action (Database Conn Stmt) (Unit {0})
  unfolding modify
  bind_null ind s = modify s (sqlite.bind_null ind)

  -- Bind<int64_t>
  unfoldable pub bind_int64 : ℕ → ℤ → Statement → Action (Database Conn Stmt) (Unit {0})
  unfolding modify
  bind_int64 ind val s = modify s (sqlite.bind_int64 ind val)

  -- Bind<uint64_t>
  unfoldable pub bind_uint64 : ℕ → ℕ → Statement → Action (Database Conn Stmt) (Unit {0})
  unfolding bind_int64
  bind_uint64 ind val s = do check (bindable val); bind_int64 ind (pos val) s

  -- Bind<std::string>
  unfoldable pub bind_text : ℕ → String → Statement → Action (Database Conn Stmt) (Unit {0})
  unfolding modify
  bind_text ind val s = modify s (sqlite.bind_text ind val)

  unfoldable pub bind_blob : ℕ → String → Statement → Action (Database Conn Stmt) (Unit {0})
  unfolding modify
  bind_blob ind val s = modify s (sqlite.bind_blob ind val)

  unfoldable pub is_null : ℕ → Statement → Action (Database Conn Stmt) Bool
  unfolding reading
  is_null ind s = reading s (λ stmt. some (sqlite.column_is_null ind stmt))

  -- Get<int64_t>
  unfoldable pub get_int64 : ℕ → Statement → Action (Database Conn Stmt) ℤ
  unfolding reading
  get_int64 ind s = reading s (λ stmt. some (sqlite.column_int64 ind stmt))

  -- Get<uint64_t>
  unfoldable pub get_uint64 : ℕ → Statement → Action (Database Conn Stmt) ℕ
  unfolding get_int64
  get_uint64 ind s = do val ← get_int64 ind s; elim val [ pos n ↦ pure n | negsuc n ↦ abort ]

  -- Get<std::string>
  unfoldable pub get_text : ℕ → Statement → Action (Database Conn Stmt) String
  unfolding reading
  get_text ind s =
      reading s
        (λ stmt. if sqlite.column_bytes ind stmt == 0 then some "" else sqlite.column_text ind stmt)

  unfoldable pub get_blob : ℕ → Statement → Action (Database Conn Stmt) String
  unfolding reading
  get_blob ind s =
      reading s
        (λ stmt. if sqlite.column_bytes ind stmt == 0 then some "" else sqlite.column_blob ind stmt)
