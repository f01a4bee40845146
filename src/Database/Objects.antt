-- ===== src/Database/Objects.antt =====
-- The objects of class Database::Statement that the callers of src/database.cpp hold: constructed,
-- moved and destroyed. An object that has been destroyed keeps its place, as an empty one.
use xayax.Prelude.{ℕ, ℤ, String, List, [], ◌∷◌, ◌++◌, none, length, get_elem?, set}
use xayax.Prelude.Action.{Action, done, threw, aborted, ◌>>=◌, ◌>>◌, get, put, pure, checked}
use xayax.Database.{Sqlite, Database, Statement, prepare, execute_sql, rows_modified}
use xayax.Database.Statements.{
  clear, step, execute, bind_null, bind_int64, bind_uint64, bind_text, bind_blob, is_null,
  get_int64, get_uint64, get_text, get_blob,
}

pub record Scope (Conn Stmt : Type 0) : Type 0 where
  pub database : Database Conn Stmt
  pub objects : List Statement

module _ {Conn Stmt : Type 0} where
  abbrev pub on_database : {A : Type 0} → Action (Database Conn Stmt) A → Action (Scope Conn Stmt) A
  on_database m s = elim (m s.database) [
    | done a d ↦ done a (record s { database = d })
    | threw d ↦ threw (record s { database = d })
    | aborted ↦ aborted
  ]

  -- The object at a place; a place without one does not occur in a program.
  abbrev pub object : ℕ → Action (Scope Conn Stmt) Statement
  object i = do s ← get; checked (get_elem? s.objects i)

  abbrev pub put_object : ℕ → Statement → Action (Scope Conn Stmt) (Unit {0})
  put_object i v = do s ← get; put (record s { objects = set s.objects i v })

  abbrev pub add_object : Statement → Action (Scope Conn Stmt) ℕ
  add_object v = do
    s ← get
    put (record s { objects = s.objects ++ v ∷ [] })
    pure (length s.objects)

module _ {Conn Stmt : Type 0} (sqlite : Sqlite Conn Stmt) where
  -- Statement::~Statement, and the Clear of an object
  unfoldable pub destroy : ℕ → Action (Scope Conn Stmt) (Unit {0})
  destroy i = do v ← object i; v' ← on_database (clear sqlite v); put_object i v'

  -- Statement::operator= (Statement&&), where the two objects may be the same.
  unfoldable pub move_assign : ℕ → ℕ → Action (Scope Conn Stmt) (Unit {0})
  unfolding destroy
  move_assign i j = do destroy i; o ← object j; put_object i o; put_object j none

  -- Statement::Statement (Statement&&)
  unfoldable pub move_construct : ℕ → Action (Scope Conn Stmt) (Unit {0})
  unfolding move_assign
  move_construct j = do i ← add_object none; move_assign i j

-- What a caller does with a database and its objects.
pub data Call : Type 0 where
  preparing : String → Call
  default_constructed : Call
  move_constructed : ℕ → Call
  move_assigned : ℕ → ℕ → Call
  destroyed : ℕ → Call
  executing_sql : String → Call
  asking_rows_modified : Call
  executing : ℕ → Call
  stepping : ℕ → Call
  binding_null : ℕ → ℕ → Call
  binding_int64 : ℕ → ℕ → ℤ → Call
  binding_uint64 : ℕ → ℕ → ℕ → Call
  binding_text : ℕ → ℕ → String → Call
  binding_blob : ℕ → ℕ → String → Call
  asking_null : ℕ → ℕ → Call
  getting_int64 : ℕ → ℕ → Call
  getting_uint64 : ℕ → ℕ → Call
  getting_text : ℕ → ℕ → Call
  getting_blob : ℕ → ℕ → Call

module _ {Conn Stmt : Type 0} (sqlite : Sqlite Conn Stmt) where
  -- A method of the object at a place, whose value the caller may use.
  abbrev pub using :
      {A : Type 0}
      → (Statement → Action (Database Conn Stmt) A)
      → ℕ
      → Action (Scope Conn Stmt) (Unit {0})
  using f i = do v ← object i; a ← on_database (f v); pure tt

  unfoldable pub perform : Call → Action (Scope Conn Stmt) (Unit {0})
  perform (preparing sql) = do v ← on_database (prepare sqlite sql); i ← add_object v; pure tt
  perform default_constructed = do i ← add_object none; pure tt
  perform (move_constructed j) = move_construct sqlite j
  perform (move_assigned i j) = move_assign sqlite i j
  perform (destroyed i) = destroy sqlite i
  perform (executing_sql sql) = on_database (execute_sql sqlite sql)
  perform asking_rows_modified = do n ← on_database (rows_modified sqlite); pure tt
  perform (executing i) = using (execute sqlite) i
  perform (stepping i) = using (step sqlite) i
  perform (binding_null i ind) = using (bind_null sqlite ind) i
  perform (binding_int64 i ind val) = using (bind_int64 sqlite ind val) i
  perform (binding_uint64 i ind val) = using (bind_uint64 sqlite ind val) i
  perform (binding_text i ind val) = using (bind_text sqlite ind val) i
  perform (binding_blob i ind val) = using (bind_blob sqlite ind val) i
  perform (asking_null i ind) = using (is_null sqlite ind) i
  perform (getting_int64 i ind) = using (get_int64 sqlite ind) i
  perform (getting_uint64 i ind) = using (get_uint64 sqlite ind) i
  perform (getting_text i ind) = using (get_text sqlite ind) i
  perform (getting_blob i ind) = using (get_blob sqlite ind) i

  unfoldable pub run : List Call → Action (Scope Conn Stmt) (Unit {0})
  unfolding perform
  run [] = pure tt
  run (c ∷ cs) = do perform c; run cs
