-- ===== src/Database/Sharing.antt =====
-- How the objects of Database::Statement share the cache of src/database.cpp.
use xayax.Prelude.{
  ℕ, pos, String, List, [], ◌∷◌, none, some, get_elem?, arith, inl, inr, Option-cases,
}
use xayax.Prelude.Action.{Action, After, After-bind}
use xayax.Database.{Sqlite, Database, Statement, execute_sql, rows_modified}
use xayax.Database.Statements.{
  execute, bind_null, bind_int64, bind_uint64, bind_text, bind_blob, is_null, get_int64, get_uint64,
  get_text, get_blob,
}
use xayax.Database.Objects.{
  Scope, Call, using, perform, run, preparing, default_constructed, move_constructed, move_assigned,
  destroyed, executing_sql, asking_rows_modified, executing, stepping, binding_null, binding_int64,
  binding_uint64, binding_text, binding_blob, asking_null, getting_int64, getting_uint64,
  getting_text, getting_blob,
}
use xayax.Database.Owners.{
  IsOwned, Shift, count-append, prepare-Shift, modify-Shift, step-Shift, reading-Shift,
  destroy-IsOwned, move_assign-IsOwned, move_construct-IsOwned,
}

module _ {Conn Stmt : Type 0} (k : String) (sqlite : Sqlite Conn Stmt) where
  -- A method that leaves what is in use as it is.
  abbrev IsNeutral : {A : Type 0} → (Statement → Action (Database Conn Stmt) A) → Type 0
  IsNeutral f = (v : Statement) (d : Database Conn Stmt) → After (Shift k d none none) (f v d)

  using-IsOwned :
      {A : Type 0} (f : Statement → Action (Database Conn Stmt) A) (i : ℕ) (s : Scope Conn Stmt)
      → IsNeutral f
      → IsOwned k s
      → After (IsOwned k) (using sqlite f i s)
  using-IsOwned f i s n o = elim (Option-cases (get_elem? s.objects i)) [
    | inl e ↦ ground arith
    | inr (v, e) ↦ ground (arith, n v s.database)
  ]

  execute-IsNeutral : IsNeutral (execute sqlite)
  unfolding execute
  execute-IsNeutral v d = ground (arith, step-Shift k sqlite v d)

  bind_uint64-IsNeutral : (ind val : ℕ) → IsNeutral (bind_uint64 sqlite ind val)
  unfolding bind_uint64 bind_int64
  bind_uint64-IsNeutral ind val v d =
      ground (arith, modify-Shift k sqlite v (sqlite.bind_int64 ind (pos val)) d)

  get_uint64-IsNeutral : (ind : ℕ) → IsNeutral (get_uint64 sqlite ind)
  unfolding get_uint64 get_int64
  get_uint64-IsNeutral ind v d =
      ground (arith, reading-Shift k sqlite v (λ stmt. some (sqlite.column_int64 ind stmt)) d)

  perform-IsOwned :
      (c : Call) (s : Scope Conn Stmt) → IsOwned k s → After (IsOwned k) (perform sqlite c s)
  unfolding perform bind_null bind_int64 bind_text bind_blob is_null get_int64 get_text get_blob
      execute_sql rows_modified
  perform-IsOwned (preparing sql) s o =
      ground (arith, prepare-Shift k sqlite sql s.database, count-append k s.objects (some sql))
  perform-IsOwned default_constructed s o = ground (arith, count-append k s.objects none)
  perform-IsOwned (move_constructed j) s o = move_construct-IsOwned k sqlite j s o
  perform-IsOwned (move_assigned i j) s o = move_assign-IsOwned k sqlite i j s o
  perform-IsOwned (destroyed i) s o = ground (arith, destroy-IsOwned k sqlite i s)
  perform-IsOwned (executing_sql sql) s o = ground arith
  perform-IsOwned asking_rows_modified s o = ground arith
  perform-IsOwned (executing i) s o = using-IsOwned _ i s (execute-IsNeutral) o
  perform-IsOwned (stepping i) s o = using-IsOwned _ i s (step-Shift k sqlite) o
  perform-IsOwned (binding_null i ind) s o = using-IsOwned _ i s (λ v. modify-Shift k sqlite v _) o
  perform-IsOwned (binding_int64 i ind val) s o =
      using-IsOwned _ i s (λ v. modify-Shift k sqlite v _) o
  perform-IsOwned (binding_uint64 i ind val) s o =
      using-IsOwned _ i s (bind_uint64-IsNeutral ind val) o
  perform-IsOwned (binding_text i ind val) s o =
      using-IsOwned _ i s (λ v. modify-Shift k sqlite v _) o
  perform-IsOwned (binding_blob i ind val) s o =
      using-IsOwned _ i s (λ v. modify-Shift k sqlite v _) o
  perform-IsOwned (asking_null i ind) s o = using-IsOwned _ i s (λ v. reading-Shift k sqlite v _) o
  perform-IsOwned (getting_int64 i ind) s o =
      using-IsOwned _ i s (λ v. reading-Shift k sqlite v _) o
  perform-IsOwned (getting_uint64 i ind) s o = using-IsOwned _ i s (get_uint64-IsNeutral ind) o
  perform-IsOwned (getting_text i ind) s o = using-IsOwned _ i s (λ v. reading-Shift k sqlite v _) o
  perform-IsOwned (getting_blob i ind) s o = using-IsOwned _ i s (λ v. reading-Shift k sqlite v _) o

  pub run-IsOwned :
      (cs : List Call) (s : Scope Conn Stmt) → IsOwned k s → After (IsOwned k) (run sqlite cs s)
  unfolding run
  run-IsOwned [] s o = o
  run-IsOwned (c ∷ cs) s o =
      After-bind (IsOwned k) (IsOwned k) (perform sqlite c s) _ (perform-IsOwned c s o)
        (λ _. run-IsOwned cs)
