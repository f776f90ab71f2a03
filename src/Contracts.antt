-- ===== src/Contracts.antt =====
-- What the program relies on of the libraries: the documented behaviour of Redis, of a SQLAlchemy
-- session on PostgreSQL and of pydantic's JSON, as laws about a view of each library's state.
use fastapi_polyrepo_templat.Prelude.{
  ℕ, ◌≡◌, ◌≢◌, inl, inr, Bool-cases, text_eq_iff, arith, ◌⊎◌, Option, none, some, List, [], ◌∷◌,
  Text, text_eq, ◌&&◌, if◌then◌else◌, ◌-◌, ltb, lower, All,
}
use fastapi_polyrepo_templat.Effects.{BaseException, ok, err}
use fastapi_polyrepo_templat.Models.{FeatureFlag, FeatureFlagRow}
use fastapi_polyrepo_templat.World.{Libraries, PrimaryKey, HeaderList}

-- `stored r k` is what a `GET` of `k` would find.
pub record RedisContract (lib : Libraries) : Type 0 where
  pub stored : lib.Redis → Text → Option Text
  pub get_value :
      (k : Text) (r : lib.Redis) (v : Option Text) → (lib.redis_get k r).0 ≡ ok v → v ≡ stored r k
  pub get_keeps :
      (k : Text) (r : lib.Redis) (j : Text) → stored (lib.redis_get k r).1 j ≡ stored r j
  pub set_stores :
      (k v : Text) (ttl : ℕ) (r : lib.Redis) (j : Text)
      → (lib.redis_set k v ttl r).0 ≡ ok tt
      → stored (lib.redis_set k v ttl r).1 j ≡ (if text_eq k j then some v else stored r j)
  -- A command that raised, by a timeout say, may have reached the server or not.
  pub set_failed :
      (k v : Text) (ttl : ℕ) (r : lib.Redis) (j : Text) (e : BaseException)
      → (lib.redis_set k v ttl r).0 ≡ err e
      → (stored (lib.redis_set k v ttl r).1 j ≡ stored r j)
        ⊎ (stored (lib.redis_set k v ttl r).1 j ≡ (if text_eq k j then some v else stored r j))

-- The primary key of a row.
abbrev pub primary_key : FeatureFlagRow → PrimaryKey
primary_key row = (row.tenant_id, row.name)

-- The table once the rows of a session are written, the newest first.
unfoldable pub overlay :
    List FeatureFlagRow → (PrimaryKey → Option FeatureFlagRow) → PrimaryKey → Option FeatureFlagRow
overlay [] table key = table key
overlay (row ∷ rows) table key =
    if text_eq row.tenant_id key.0 && text_eq row.name key.1
    then some row
    else overlay rows table key

-- A row under another key is not seen.
pub overlay_apart :
    (row : FeatureFlagRow) (table : PrimaryKey → Option FeatureFlagRow) (tenant name : Text)
    → ¬ ((row.tenant_id ≡ tenant) × (row.name ≡ name))
    → overlay (row ∷ []) table (tenant, name) ≡ table (tenant, name)
overlay_apart row table tenant name apart =
    elim (Bool-cases (text_eq row.tenant_id tenant && text_eq row.name name)) [
      | inl same ↦ absurd (
          apart (
            ground (arith, text_eq_iff row.tenant_id tenant),
            ground (arith, text_eq_iff row.name name),
          ))
      | inr other ↦ unfold overlay in rw other
    ]

-- `committed p key` is the row of the table, and `pending p` is what the open session has still
-- to write.
pub record PostgresContract (lib : Libraries) : Type 0 where
  pub committed : lib.Postgres → PrimaryKey → Option FeatureFlagRow
  pub pending : lib.Postgres → List FeatureFlagRow
  -- A row is found under its own primary key.
  pub committed_key :
      (p : lib.Postgres) (key : PrimaryKey) (row : FeatureFlagRow)
      → committed p key ≡ some row
      → primary_key row ≡ key
  pub open_committed :
      (p : lib.Postgres) (key : PrimaryKey) → committed (lib.open_session p) key ≡ committed p key
  pub open_pending : (p : lib.Postgres) → pending (lib.open_session p) ≡ []
  pub get_value :
      (key : PrimaryKey) (p : lib.Postgres) (row : Option FeatureFlagRow)
      → pending p ≡ []
      → (lib.session_get key p).0 ≡ ok row
      → row ≡ committed p key
  pub get_committed :
      (key : PrimaryKey) (p : lib.Postgres) (k : PrimaryKey)
      → committed (lib.session_get key p).1 k ≡ committed p k
  pub get_pending :
      (key : PrimaryKey) (p : lib.Postgres) → pending (lib.session_get key p).1 ≡ pending p
  pub add_committed :
      (row : FeatureFlagRow) (p : lib.Postgres) (k : PrimaryKey)
      → committed (lib.session_add row p) k ≡ committed p k
  pub add_pending :
      (row : FeatureFlagRow) (p : lib.Postgres) → pending (lib.session_add row p) ≡ row ∷ pending p
  pub assign_committed :
      (row : FeatureFlagRow) (p : lib.Postgres) (k : PrimaryKey)
      → committed (lib.session_assign row p) k ≡ committed p k
  pub assign_pending :
      (row : FeatureFlagRow) (p : lib.Postgres)
      → pending (lib.session_assign row p) ≡ row ∷ pending p
  pub commit_writes :
      (p : lib.Postgres) (k : PrimaryKey)
      → (lib.session_commit p).0 ≡ ok tt
      → committed (lib.session_commit p).1 k ≡ overlay (pending p) (committed p) k
  -- A connection that is lost while it commits leaves open whether the server did.
  pub commit_failed :
      (p : lib.Postgres) (k : PrimaryKey) (e : BaseException)
      → (lib.session_commit p).0 ≡ err e
      → (committed (lib.session_commit p).1 k ≡ committed p k)
        ⊎ (committed (lib.session_commit p).1 k ≡ overlay (pending p) (committed p) k)
  -- Closing rolls back what is not committed.
  pub close_committed :
      (p : lib.Postgres) (k : PrimaryKey) → committed (lib.close_session p) k ≡ committed p k

-- A flag that passes the model's checks is read back from its JSON.
pub record JsonContract (lib : Libraries) : Type 0 where
  pub validate-dump :
      (flag : FeatureFlag)
      → flag.name ≢ []
      → flag.updated_by_user_id ≢ []
      → lib.model_validate_json (lib.model_dump_json flag) ≡ ok flag

pub record Contracts (lib : Libraries) : Type 0 where
  pub redis : RedisContract lib
  pub postgres : PostgresContract lib
  pub json : JsonContract lib

-- PostgreSQL answers every command of the service.
pub record IsDatabaseUp (lib : Libraries) : Type 0 where
  pub session_get :
      (key : PrimaryKey) (p : lib.Postgres)
      → (row : Option FeatureFlagRow) × ((lib.session_get key p).0 ≡ ok row)
  pub session_commit : (p : lib.Postgres) → (lib.session_commit p).0 ≡ ok tt

-- Redis and PostgreSQL answer every command of the service.
pub record IsUp (lib : Libraries) : Type 0 where
  pub redis_get : (k : Text) (r : lib.Redis) → (v : Option Text) × ((lib.redis_get k r).0 ≡ ok v)
  pub redis_set : (k v : Text) (ttl : ℕ) (r : lib.Redis) → (lib.redis_set k v ttl r).0 ≡ ok tt
  pub session_get :
      (key : PrimaryKey) (p : lib.Postgres)
      → (row : Option FeatureFlagRow) × ((lib.session_get key p).0 ≡ ok row)
  pub session_commit : (p : lib.Postgres) → (lib.session_commit p).0 ≡ ok tt

-- Time in Redis: `ttl_left r k` is how many seconds the entry at `k` has left, and `elapse n r` is
-- the server `n` seconds later.
pub record ExpiryContract (lib : Libraries) (redis : RedisContract lib) : Type 0 where
  pub elapse : ℕ → lib.Redis → lib.Redis
  pub ttl_left : lib.Redis → Text → ℕ
  pub elapse_stored :
      (n : ℕ) (r : lib.Redis) (j : Text)
      → redis.stored (elapse n r) j ≡ (if ltb n (ttl_left r j) then redis.stored r j else none)
  pub elapse_left : (n : ℕ) (r : lib.Redis) (j : Text) → ttl_left (elapse n r) j ≡ ttl_left r j - n
  pub get_left :
      (k : Text) (r : lib.Redis) (j : Text) → ttl_left (lib.redis_get k r).1 j ≡ ttl_left r j
  -- `EX` sets the time to live, if the command reaches the server.
  pub set_left :
      (k v : Text) (ttl : ℕ) (r : lib.Redis) (j : Text)
      → (ttl_left (lib.redis_set k v ttl r).1 j ≡ ttl_left r j)
        ⊎ (ttl_left (lib.redis_set k v ttl r).1 j ≡ (if text_eq k j then ttl else ttl_left r j))

-- The value that a binding gives a name, or else the one from outside.
abbrev pub find : Text → List (Text × Text) → Option Text → Option Text
find k [] outside = outside
find k ((j, v) ∷ pairs) outside = if text_eq j k then some v else find k pairs outside

-- For a bound name the value before, for another the value after.
abbrev pub restore : Text → List (Text × Text) → Option Text → Option Text → Option Text
restore k [] before after = after
restore k ((j, v) ∷ pairs) before after =
    if text_eq j k then before else restore k pairs before after

-- structlog's context variables: entering binds the names, and leaving gives each of them, and no
-- other, the value that it had.
pub record ContextContract (lib : Libraries) : Type 0 where
  pub get-bind :
      (pairs : List (Text × Text)) (c : lib.Context) (k : Text)
      → lib.context_get (lib.bind_contextvars pairs c) k ≡ find k pairs (lib.context_get c k)
  pub get-reset :
      (before : lib.Context) (pairs : List (Text × Text)) (after : lib.Context) (k : Text)
      → lib.context_get (lib.reset_contextvars before pairs after) k
        ≡ restore k pairs (lib.context_get before k) (lib.context_get after k)

-- Starlette's header maps: a header that was set is read back, one of another name (names are
-- compared in lower case) is not changed, and no other name comes in.
pub record HeaderContract (lib : Libraries) : Type 0 where
  pub get-set :
      (headers : HeaderList) (k v j : Text)
      → lib.header_get (lib.header_set headers k v) j
        ≡ (if text_eq (lower k) (lower j) then some v else lib.header_get headers j)
  pub set-absent :
      (headers : HeaderList) (k v name : Text)
      → lower k ≢ name
      → All (λ h. lower h.0 ≢ name) headers
      → All (λ h. lower h.0 ≢ name) (lib.header_set headers k v)
