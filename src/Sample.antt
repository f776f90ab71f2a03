-- ===== src/Sample.antt =====
-- A concrete instance of the libraries: a Redis and a PostgreSQL in memory, and a JSON of code
-- points. It shows that the contracts can be met; the tests run on it.
pub mod Lawful
pub mod Headers
pub mod Fastapi
pub mod Layers
use fastapi_polyrepo_templat.Prelude.{
  ℕ, zero, suc, ◌-◌, ltb, Bool, true, false, Option, none, some, List, [], ◌∷◌, ◌++◌, Text, codes,
  text_eq, lower, length, if◌then◌else◌,
}
use fastapi_polyrepo_templat.Effects.{Result, ok, err, library_error, validation_error}
use fastapi_polyrepo_templat.Models.{FeatureFlag, make_feature_flag, FeatureFlagRow}
use fastapi_polyrepo_templat.World.{Libraries, World, PrimaryKey, HeaderList}
use fastapi_polyrepo_templat.Contracts.{overlay, find, restore}

pub record MemoryRedis : Type 0 where
  pub entries : Text → Option Text
  pub left : Text → ℕ

pub record MemoryPostgres : Type 0 where
  pub rows : List FeatureFlagRow
  pub pending : List FeatureFlagRow

-- Which servers answer: all, all but Redis for writes, or none.
pub data Health : Type 0 where
  healthy read_only down : Health

abbrev pub nothing : PrimaryKey → Option FeatureFlagRow
nothing key = none

abbrev pub get_entry : Health → Text → MemoryRedis → Result (Option Text) × MemoryRedis
get_entry down k r = (err (library_error (codes "redis")), r)
get_entry healthy k r = (ok (r.entries k), r)
get_entry read_only k r = (ok (r.entries k), r)

abbrev pub put_entry : Text → Text → ℕ → MemoryRedis → MemoryRedis
put_entry k v ttl r = record {
  entries = λ j. if text_eq k j then some v else r.entries j;
  left = λ j. if text_eq k j then ttl else r.left j;
}

abbrev pub set_entry : Health → Text → Text → ℕ → MemoryRedis → Result (Unit {0}) × MemoryRedis
set_entry healthy k v ttl r = (ok tt, put_entry k v ttl r)
set_entry read_only k v ttl r = (err (library_error (codes "redis")), r)
set_entry down k v ttl r = (err (library_error (codes "redis")), r)

abbrev pub answers : {A B : Type 0} → Health → A → B → Result A × B
answers down a b = (err (library_error (codes "down")), b)
answers healthy a b = (ok a, b)
answers read_only a b = (ok a, b)

abbrev pub commit : MemoryPostgres → MemoryPostgres
commit p = record { rows = p.pending ++ p.rows; pending = [] }

-- The length of the name, the name, the value, the time and the user.
abbrev pub bit : Bool → ℕ
bit true = 1
bit false = 0

unfoldable pub dump : FeatureFlag → Text
dump flag =
    length flag.name ∷ (flag.name ++ bit flag.enabled ∷ flag.updated_at ∷ flag.updated_by_user_id)

unfoldable pub parse_from : ℕ → Text → Text → Result FeatureFlag
parse_from zero name (b ∷ at ∷ user) = make_feature_flag name (ltb 0 b) at user
parse_from zero name _ = err validation_error
parse_from (suc n) name [] = err validation_error
parse_from (suc n) name (c ∷ s) = parse_from n (name ++ c ∷ []) s

unfoldable pub parse : Text → Result FeatureFlag
unfolding parse_from make_feature_flag
parse [] = err validation_error
parse (n ∷ s) = parse_from n [] s

-- The first header of that name, whatever its case.
unfoldable pub header_get : Text → HeaderList → Option Text
header_get k [] = none
header_get k ((j, v) ∷ headers) =
    if text_eq (lower j) (lower k) then some v else header_get k headers

unfoldable pub without : Text → HeaderList → HeaderList
without k [] = []
without k ((j, v) ∷ headers) =
    let rest = without k headers in if text_eq (lower j) (lower k) then rest else (j, v) ∷ rest

-- The other headers of that name are dropped.
unfoldable pub header_set : Text → Text → HeaderList → HeaderList
unfolding without
header_set k v headers = (lower k, v) ∷ without k headers

abbrev pub libraries : Health → Libraries
libraries servers = record {
  Redis = MemoryRedis;
  redis_get = get_entry servers;
  redis_set = set_entry servers;
  redis_ping = λ r. answers servers true r;
  redis_aclose = λ r. (ok tt, r);
  Postgres = MemoryPostgres;
  open_session = λ p. record p { pending = [] };
  session_get = λ key p. (ok (overlay p.rows nothing key), p);
  session_add = λ row p. record p { pending = row ∷ p.pending };
  session_assign = λ row p. record p { pending = row ∷ p.pending };
  session_commit = λ p. (ok tt, commit p);
  close_session = λ p. record p { pending = [] };
  select_one = λ p. answers servers tt p;
  dispose = λ p. (ok tt, p);
  model_dump_json = dump;
  model_validate_json = parse;
  is_printable = λ c. false;
  Context = Text → Option Text;
  context_get = λ c k. c k;
  bind_contextvars = λ kvs c k. find k kvs (c k);
  reset_contextvars = λ before kvs after k. restore k kvs (before k) (after k);
  header_get = λ headers k. header_get k headers;
  header_set = λ headers k v. header_set k v headers;
}

-- A world with an empty cache over these rows.
abbrev pub world : (servers : Health) → List FeatureFlagRow → World (libraries servers)
world servers rows = record {
  cache = record { entries = λ k. none; left = λ k. 0 };
  database = record { rows = rows; pending = [] };
  clock = 5;
  reads_total = 0;
  writes_total = 0;
  log = [];
  context = λ k. none;
  uuid = codes "u";
  sent = [];
  flushed = 0;
  loop_handler = none;
  scope_state = [];
}
