-- ===== src/BlockCache/Persisting.antt =====
-- The MySQL storage of src/cache/mysql.cpp behind the block cache.
use xayax.Prelude.{
  ℕ, zero, suc, ◌+◌, ◌≤◌, ◌<◌, ◌%◌, ◌≡◌, refl, ℤ, pos, String, List, [], ◌∷◌, some, arith, length,
  u64_mod, i64_bound, Bool-cases, inl, inr, ltb, leb, ◌&&◌,
}
use xayax.Prelude.Action.{
  Outcome, done, threw, aborted, Post, Post-bind, abort, pure, checked, ◌>>=◌,
}
use xayax.BlockData.{BlockData, Codec, ReadsBack}
use xayax.BaseChain.{BaseChain}
use xayax.BlockCache.{CacheState, get_block_range}
use xayax.BlockCache.Serving.{slice}
use xayax.BlockCache.Backed.{IsBacking, IsSteady, get_block_range-Answered}
use xayax.BlockCache.MySql.{
  Mypp, Implementation, store_block, store_blocks, deserialise_all, get_range, catching,
  on_connection, as_int64, mysql_storage,
}
use xayax.BlockCache.Rows.{
  replace_row, data_between, AscendsFrom, HasData, data_slice, replace_row-HasData,
  replace_row-AscendsFrom, between_slice,
}

as_int64-pos : (v h : ℕ) → v ≡ h → h < i64_bound → as_int64 v ≡ pos h
as_int64-pos v h e b = ground arith

-- A statement for the table cannot be prepared in some state of the connection.
abbrev pub Unprepared : {Db : Type 0} → Mypp Db → String → Type 0
Unprepared {Db = Db} mypp table = (db : Db) × (db' : Db) × (mypp.prepare table db ≡ threw db')

-- What the server does with the table: `rows` reads it off the state of the connection. Each call may fail.
pub record IsServer {Db : Type 0} (mypp : Mypp Db) (table : String) (rows : Db → List (ℕ × String))
    : Type 0 where
  pub prepares :
      (db : Db) → Post (λ _ db'. rows db' ≡ rows db) (λ _. Unit {0}) ⊥ (mypp.prepare table db)
  pub replaces :
      (h : ℕ) (d : String) (db : Db)
      → Post
          (λ _ db'. rows db' ≡ replace_row h d (rows db))
          (λ db'. rows db' ≡ rows db)
          ⊥
          (mypp.replace_into table (pos h) d db)
  pub selects :
      (a b : ℕ) (db : Db)
      → Post
          (λ ds db'. (ds ≡ data_between a b (rows db)) × (rows db' ≡ rows db))
          (λ db'. rows db' ≡ rows db)
          ⊥
          (mypp.select_data table (pos a) (pos b) db)

module _ {Json Db : Type 0} (codec : Codec Json) (mypp : Mypp Db) (table : String)
    (rows : Db → List (ℕ × String)) (server : IsServer mypp table rows) (chain : ℕ → BlockData Json)
    (numbered : (h : ℕ) → (chain h).height ≡ h)
    (readable : (h : ℕ) → ReadsBack codec (chain h)) where
  abbrev data_at : ℕ → String
  data_at h = codec.serialise (chain h)

  -- The table has, in order, blocks of the chain.
  abbrev pub HasChain : Implementation Db → Type 0
  HasChain s =
      (s.table ≡ table) × AscendsFrom 0 (rows s.connection) × HasData data_at (rows s.connection)

  abbrev Broken : Type 0
  Broken = Unprepared mypp table

  prepared-HasChain :
      (s : Implementation Db) (o : Outcome Db (Unit {0}))
      → HasChain s
      → Post (λ _ db'. rows db' ≡ rows s.connection) (λ _. Unit {0}) ⊥ o
      → ((db' : Db) → o ≡ threw db' → Broken)
      → Post
          (λ _. HasChain)
          (λ _. ⊥)
          Broken
          (elim o [
            | done a w ↦ done a (record s { connection = w })
            | threw w ↦ aborted
            | aborted ↦ aborted
          ])
  prepared-HasChain s (done a w) inv h k = ground arith
  prepared-HasChain s (threw w) inv h k = k w refl
  prepared-HasChain s aborted inv h k = absurd h

  prepare-HasChain :
      (s : Implementation Db)
      → HasChain s
      → Post
          (λ _. HasChain)
          (λ _. ⊥)
          Broken
          (catching (on_connection (mypp.prepare s.table)) abort s)
  prepare-HasChain s inv = ground (
    arith,
    prepared-HasChain s (mypp.prepare table s.connection) inv (server.prepares s.connection)
        (λ db' e. (s.connection, db', e)),
  )

  replace-HasChain :
      (t : String) (v : ℤ) (h : ℕ) (s : Implementation Db)
      → t ≡ table
      → v ≡ pos h
      → HasChain s
      → Post
          (λ _. HasChain)
          (λ _. ⊥)
          Broken
          (catching (on_connection (mypp.replace_into t v (data_at h))) (pure tt) s)
  replace-HasChain t v h s e p inv = ground (
    arith,
    server.replaces h (data_at h) s.connection,
    replace_row-HasData data_at h (rows s.connection),
    replace_row-AscendsFrom 0 h (data_at h) (rows s.connection),
  )

  store_block-HasChain :
      (h : ℕ) (s : Implementation Db)
      → h < i64_bound
      → HasChain s
      → Post (λ _. HasChain) (λ _. ⊥) Broken (store_block codec mypp (chain h) s)
  unfolding store_block
  store_block-HasChain h s b inv =
      Post-bind (λ _. HasChain) (λ _. HasChain) (λ _. ⊥) Broken _ _ (prepare-HasChain s inv)
        (λ _ s'.
          replace-HasChain s.table _ h s' inv.0 (as_int64-pos (chain h).height h (numbered h) b))

  store_blocks-HasChain :
      (start n : ℕ) (s : Implementation Db)
      → start + n ≤ i64_bound
      → HasChain s
      → Post (λ _. HasChain) (λ _. ⊥) Broken (store_blocks codec mypp (slice chain start n) s)
  unfolding store_blocks
  store_blocks-HasChain start zero s b inv = inv
  store_blocks-HasChain start (suc n) s b inv =
      Post-bind (λ _. HasChain) (λ _. HasChain) (λ _. ⊥) Broken
        (store_block codec mypp (chain start) s) _ (store_block-HasChain start s (omega arith) inv)
        (λ _ s'. store_blocks-HasChain (suc start) n s' (omega arith))

  deserialise-between :
      (a b : ℕ) (m : List (ℕ × String))
      → HasData data_at m
      → (bs : List (BlockData Json)) × (deserialise_all codec mypp (data_between a b m) ≡ some bs)
        × (length bs ≡ length (data_between a b m))
  unfolding deserialise_all data_between
  deserialise-between a b [] f = ([], refl, refl)
  deserialise-between a b ((k, d) ∷ m) f =
      let (bs, p, q) = deserialise-between a b m f.1 in
      elim (Bool-cases (leb a k && ltb k b)) [
        | inl e ↦ rw e (chain k ∷ bs, rw (f.0, readable k, p) refl, omega (arith, q))
        | inr e ↦ rw e (bs, p, q)
      ]

  empty_slice : (n start : ℕ) → 0 ≡ n → slice chain start n ≡ []
  empty_slice zero start e = refl
  empty_slice (suc n) start e = absurd (omega arith)

  deserialise-slice :
      (a n : ℕ) → deserialise_all codec mypp (data_slice data_at a n) ≡ some (slice chain a n)
  unfolding deserialise_all
  deserialise-slice a zero = refl
  deserialise-slice a (suc n) = rw (readable a, deserialise-slice (suc a) n) refl

  select-HasChain :
      (t : String) (v w : ℤ) (start n : ℕ) (s : Implementation Db)
      → t ≡ table
      → v ≡ pos start
      → w ≡ pos (start + n)
      → HasChain s
      → Post
          (λ bs s'. HasChain s' × (length bs ≡ n → bs ≡ slice chain start n))
          (λ _. ⊥)
          Broken
          (catching
            (on_connection (mypp.select_data t v w) >>= λ ds.
              checked (deserialise_all codec mypp ds))
            (pure [])
            s)
  select-HasChain t v w start n s e p q inv =
      let (bs, r, l) = deserialise-between start (start + n) (rows s.connection) inv.2 in
      ground (
        arith,
        server.selects start (start + n) s.connection,
        r,
        l,
        between_slice data_at start n 0 (rows s.connection),
        deserialise-slice start n,
        empty_slice n start,
      )

  get_range-HasChain :
      (start n : ℕ) (s : Implementation Db)
      → start + n < i64_bound
      → HasChain s
      → Post
          (λ bs s'. HasChain s' × (length bs ≡ n → bs ≡ slice chain start n))
          (λ _. ⊥)
          Broken
          (get_range codec mypp start n s)
  unfolding get_range
  get_range-HasChain start n s b inv =
      Post-bind (λ _. HasChain) _ (λ _. ⊥) Broken _ _ (prepare-HasChain s inv)
        (λ _ s'.
          select-HasChain s.table _ _ start n s' inv.0 (as_int64-pos start start refl (omega arith))
            (as_int64-pos ((start + n) % u64_mod) (start + n) (omega arith) b))

  pub mysql_storage-IsBacking : IsBacking chain (mysql_storage codec mypp) HasChain Broken i64_bound
  unfolding mysql_storage
  mysql_storage-IsBacking = record { stores = store_blocks-HasChain; serves = get_range-HasChain }

  module _ {World : Type 0} (base : BaseChain Json World) (min_depth : ℕ) where
    -- With a server that does what its statements say, unless one of them fails, and a client that never
    -- aborts and returns the blocks of one chain for final ranges, or throws: the cache with the MySQL storage
    -- returns the chain's blocks for a range that is final at the last tip seen, whether from the table or
    -- from the client. What it leaves in the table after any request is, in the order of the heights, the
    -- chain's too, also if the client throws, and a request for a range that is not final leaves the storage
    -- as it was. The process aborts only if a statement for the table cannot be prepared.
    pub mysql_cache-slice :
        (start count : ℕ) (s : CacheState World (Implementation Db))
        → IsSteady chain base min_depth s.last_tip_height
        → HasChain s.storage
        → s.last_tip_height + 1 < i64_bound
        → start + count + min_depth < u64_mod
        → Post
            (λ bs s'.
              HasChain s'.storage
              × (start + count + min_depth ≤ s.last_tip_height + 1 → bs ≡ slice chain start count)
              × (s.last_tip_height + 1 < start + count + min_depth → s'.storage ≡ s.storage))
            (λ s'. HasChain s'.storage)
            (Unprepared mypp table)
            (get_block_range base (mysql_storage codec mypp) min_depth start count s)
    mysql_cache-slice start count s h f b d =
        get_block_range-Answered chain (mysql_storage codec mypp) HasChain Broken i64_bound
          mysql_storage-IsBacking base min_depth start count s h f (omega arith) b d
