-- ===== src/Database/Lifetime.antt =====
-- A database of src/database.cpp from its opening to its destructor.
use xayax.Prelude.{
  ◌<◌, ◌≡◌, refl, subst, String, Bool, false, List, [], ◌∷◌, none, some, arith, All,
}
use xayax.Prelude.Maps.{lookup}
use xayax.Prelude.Action.{After, Post, done}
use xayax.Database.{
  Sqlite, CachedStatement, Database, Statement, acquire, clear_statements, open_database, prepare,
}
use xayax.Database.Objects.{Scope, Call, run}
use xayax.Database.Owners.{count, in_use, IsDistinct, IsOwned, HasOwner}
use xayax.Database.Sharing.{run-IsOwned}

count-empty : (k : String) (vs : List Statement) → All (λ v. v ≡ none) vs → count k vs ≡ 0
count-empty k [] h = refl
count-empty k (v ∷ vs) h = ground (arith, count-empty k vs h.1)

module _ {Conn Stmt : Type 0} (sqlite : Sqlite Conn Stmt) where
  unused_head :
      (j : String) (e : CachedStatement Stmt) (m : List (String × CachedStatement Stmt))
      → in_use (lookup j ((j, e) ∷ m)) ≡ 0
      → e.used ≡ false
  unfolding lookup
  unused_head j e m h = ground arith

  unused_tail :
      (j k : String) (e : CachedStatement Stmt) (m : List (String × CachedStatement Stmt))
      → lookup j m ≡ none
      → in_use (lookup k ((j, e) ∷ m)) ≡ 0
      → in_use (lookup k m) ≡ 0
  unfolding lookup
  unused_tail j k e m d h = ground arith

  -- If no entry is in use, the cache can be cleared.
  clear_unused :
      (m : List (String × CachedStatement Stmt)) (db : Conn)
      → IsDistinct m
      → ((k : String) → in_use (lookup k m) ≡ 0)
      → (db' : Conn) × (clear_statements sqlite m db ≡ some db')
  unfolding clear_statements
  clear_unused [] db d h = (db, refl)
  clear_unused ((j, e) ∷ m) db d h =
      let (db', p) =
        clear_unused m (sqlite.finalize e.stmt db) d.1 (λ k. unused_tail j k e m d.0 (h k)) in
      (db', ground (arith, p, unused_head j e m (h j)))

  module _ (initialised : Bool) (file : String) (d : Database Conn Stmt)
      (opened : open_database sqlite initialised file ≡ some d) where
    opened-IsOwned : (k : String) → IsOwned k (record { database = d; objects = [] })
    unfolding open_database lookup
    opened-IsOwned k = ground arith

    -- Whatever a program does with a database that it has opened, and with its statement objects: as long as
    -- nothing aborts, a cached statement is marked as used if an object refers to it, which is then the only
    -- one, and no object refers to any other.
    pub run_opened-HasOwner :
        (k : String) (cs : List Call)
        → After (HasOwner k) (run sqlite cs (record { database = d; objects = [] }))
    run_opened-HasOwner k cs = ground (arith, run-IsOwned k sqlite cs _ (opened-IsOwned k))

    module _ (cs : List Call) (s : Scope Conn Stmt)
        (reached : run sqlite cs (record { database = d; objects = [] }) ≡ done tt s) where
      reached-IsOwned : (k : String) → IsOwned k s
      reached-IsOwned k =
          subst (After (IsOwned k)) reached (run-IsOwned k sqlite cs _ (opened-IsOwned k))

      -- In each state that a program reaches, where SQLite can prepare a text: Prepare returns a statement for
      -- it if no object refers to one for this text, and aborts if one does.
      pub prepare_reached :
          (sql : String) (stmt : Stmt)
          → sqlite.prepare_v2 sql s.database.db ≡ some stmt
          → Post
              (λ v _. (v ≡ some sql) × (count sql s.objects ≡ 0))
              (λ _. ⊥)
              (0 < count sql s.objects)
              (prepare sqlite sql s.database)
      unfolding prepare acquire
      prepare_reached sql stmt h = ground (arith, (reached-IsOwned sql).owner)

      -- In each state that a program reaches, once all objects are destroyed or moved from: the destructor's
      -- clearing of the cache passes all checks.
      pub clear_reached :
          (db : Conn)
          → All (λ v. v ≡ none) s.objects
          → (db' : Conn) × (clear_statements sqlite s.database.statements db ≡ some db')
      clear_reached db e =
          clear_unused s.database.statements db (reached-IsOwned "").distinct
            (λ k. omega (arith, (reached-IsOwned k).owner, count-empty k s.objects e))
