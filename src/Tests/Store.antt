-- ===== src/Tests/Store.antt =====
-- Instances for the SQLite wrapper and the MySQL storage.
use xayax.Prelude.{
  ℕ, zero, suc, pos, negsuc, ◌+◌, ◌≤◌, ◌<◌, ◌≡◌, refl, arith, true, false, String, List, [], ◌∷◌,
  ◌++◌, none, some,
}
use xayax.Prelude.Maps.{lookup, insert, emplace}
use xayax.Prelude.Texts.{str_discrete}
use xayax.Prelude.Action.{After, Post, done}
use xayax.BlockData.{Codec, ReadsBack}
use xayax.BlockCache.{CacheState, get_block_range}
use xayax.BlockCache.Serving.{slice}
use xayax.BlockCache.Rows.{replace_row, data_between}
use xayax.BlockCache.MySql.{Mypp, Implementation, mysql_storage}
use xayax.BlockCache.Persisting.{IsServer, HasChain, Unprepared, mysql_cache-slice}
use xayax.Tests.Fixtures.{Js, honest, chain_block, blocks_from}
use xayax.Database.{Sqlite, Database, finished, clear_statements, open_database, prepare}
use xayax.Database.Objects.{
  Scope, Call, run, move_construct, preparing, move_constructed, destroyed, binding_uint64,
  stepping,
}
use xayax.Database.Statements.{bind_uint64, clear, step}
use xayax.Database.Owners.{HasOwner, count}
use xayax.Database.Lifetime.{run_opened-HasOwner, prepare_reached, clear_reached}

-- A library that accepts every call; a statement is its text.
abbrev permissive : Sqlite (Unit {0}) String
permissive = record {
  versions_match = true;
  config_multithread = true;
  open_v2 = λ file. some tt;
  exec = λ sql c. some ([], c);
  prepare_v2 = λ sql c. some sql;
  changes = λ c. pos 0;
  close = λ c. true;
  finalize = λ stmt c. c;
  clear_bindings = λ stmt. some stmt;
  reset = λ stmt. stmt;
  step = λ stmt c. (finished, stmt, c);
  bind_null = λ ind stmt. some stmt;
  bind_int64 = λ ind val stmt. some stmt;
  bind_text = λ ind val stmt. some stmt;
  bind_blob = λ ind val stmt. some stmt;
  column_is_null = λ ind stmt. true;
  column_int64 = λ ind stmt. pos 0;
  column_text = λ ind stmt. none;
  column_blob = λ ind stmt. none;
  column_bytes = λ ind stmt. 0;
}

abbrev opened : Database (Unit {0}) String
opened = record { db = tt; statements = [] }

opened_lem : open_database permissive false "db" ≡ some opened
unfolding open_database
opened_lem = refl

abbrev calls : List Call
calls =
    preparing "select"
    ∷ binding_uint64 0 1 7
    ∷ move_constructed 0
    ∷ stepping 1
    ∷ preparing "update"
    ∷ []

run_opened-HasOwner_example :
    After (HasOwner "select") (run permissive calls (record { database = opened; objects = [] }))
run_opened-HasOwner_example =
    run_opened-HasOwner permissive false "db" opened opened_lem "select" calls

abbrev reached : Scope (Unit {0}) String
reached = record {
  database = record {
    db = tt;
    statements =
        ("select", record { stmt = "select"; used = true })
        ∷ ("update", record { stmt = "update"; used = true })
        ∷ [];
  };
  objects = none ∷ some "select" ∷ some "update" ∷ [];
}

reached_lem : run permissive calls (record { database = opened; objects = [] }) ≡ done tt reached
unfolding run prepare lookup emplace insert str_discrete bind_uint64 clear step move_construct
reached_lem = refl

prepare_reached_example :
    Post
      (λ v _. (v ≡ some "select") × (count "select" reached.objects ≡ 0))
      (λ _. ⊥)
      (0 < count "select" reached.objects)
      (prepare permissive "select" reached.database)
prepare_reached_example =
    prepare_reached permissive false "db" opened opened_lem calls reached reached_lem "select"
      "select" refl

abbrev finished_calls : List Call
finished_calls = calls ++ destroyed 2 ∷ destroyed 1 ∷ []

abbrev left : Scope (Unit {0}) String
left = record {
  database = record {
    db = tt;
    statements =
        ("select", record { stmt = "select"; used = false })
        ∷ ("update", record { stmt = "update"; used = false })
        ∷ [];
  };
  objects = none ∷ none ∷ none ∷ [];
}

left_lem : run permissive finished_calls (record { database = opened; objects = [] }) ≡ done tt left
unfolding run prepare lookup emplace insert str_discrete bind_uint64 clear step move_construct
left_lem = refl

clear_reached_example :
    (db' : Unit {0}) × (clear_statements permissive left.database.statements tt ≡ some db')
clear_reached_example =
    clear_reached permissive false "db" opened opened_lem finished_calls left left_lem tt
      (refl, (refl, (refl, tt)))

-- A block is written as a text of as many characters as its height.
tally : ℕ → String
tally zero = String.[]
tally (suc h) = String.◌∷◌ "x" (tally h)

tallied : String → ℕ
tallied String.[] = 0
tallied (String.◌∷◌ c s) = suc (tallied s)

tallied-tally : (h : ℕ) → tallied (tally h) ≡ h
unfolding tally tallied
tallied-tally zero = refl
tallied-tally (suc h) = omega (arith, tallied-tally h)

abbrev by_height : Codec Js
by_height = record {
  serialise = λ b. tally b.height;
  deserialise = λ bytes. some (chain_block (tallied bytes));
}

by_height-ReadsBack : (h : ℕ) → ReadsBack by_height (chain_block h)
by_height-ReadsBack h = rw (tallied-tally h) refl

-- A server on which no statement fails.
abbrev server : Mypp (List (ℕ × String))
server = record {
  disconnected = [];
  parse = λ url. none;
  use_client_certificate = λ ca cert key db. db;
  connect = λ host port user password database db. done tt db;
  prepare = λ t db. done tt db;
  replace_into =
      λ t v d db. elim v [ pos h ↦ done tt (replace_row h d db) | negsuc h ↦ done tt db ];
  select_data = λ t v w db. elim v [
    | pos a ↦ elim w [ pos b ↦ done (data_between a b db) db | negsuc b ↦ done [] db ]
    | negsuc a ↦ done [] db
  ];
}

server-IsServer : IsServer server "blocks" (λ db. db)
server-IsServer = record {
  prepares = λ db. refl;
  replaces = λ h d db. refl;
  selects = λ a b db. (refl, refl);
}

abbrev cached : CacheState (Unit {0}) (Implementation (List (ℕ × String)))
cached = record {
  base = tt;
  storage = record { connection = (2, tally 2) ∷ []; table = "blocks" };
  last_tip_height = 9;
}

abbrev HasStored : Implementation (List (ℕ × String)) → Type 0
HasStored =
    HasChain by_height server "blocks" (λ db. db) server-IsServer chain_block (λ h. refl)
      by_height-ReadsBack

honest_slices : (start count : ℕ) → blocks_from start count ≡ slice chain_block start count
honest_slices start zero = refl
honest_slices start (suc n) = rw (honest_slices (suc start) n)

mysql_cache-slice_example :
    Post
      (λ bs s'.
        HasStored s'.storage
        × (2 + 3 + 3 ≤ 9 + 1 → bs ≡ slice chain_block 2 3)
        × (9 + 1 < 2 + 3 + 3 → s'.storage ≡ cached.storage))
      (λ s'. HasStored s'.storage)
      (Unprepared server "blocks")
      (get_block_range honest (mysql_storage by_height server) 3 2 3 cached)
mysql_cache-slice_example =
    mysql_cache-slice by_height server "blocks" (λ db. db) server-IsServer chain_block (λ h. refl)
      by_height-ReadsBack honest 3 2 3 cached (λ start count w h. honest_slices start count)
      (refl, (omega arith, tt), (refl, tt)) (omega arith) (omega arith)
