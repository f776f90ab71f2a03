-- ===== src/World.antt =====
-- The libraries that the program calls, as a record of operations, and the state that the program
-- and those libraries share.
pub mod Contextvars
use fastapi_polyrepo_templat.Prelude.{ℕ, Bool, Option, List, [], ◌∷◌, ◌++◌, Text}
use fastapi_polyrepo_templat.Effects.{BaseException, Result, ok, Exec, modify, try_finally}
use fastapi_polyrepo_templat.Models.{Datetime, FeatureFlag, FeatureFlagRow}

-- `structlog` levels: src/app/config/logger_config.py.
pub data LogLevel : Type 0 where
  debug info warning error critical : LogLevel

-- The composite primary key of `feature_flags`: the tenant and the name.
abbrev pub PrimaryKey : Type 0
PrimaryKey = Text × Text

-- Third-party code: redis-py with its server, SQLAlchemy with its database and the session that is
-- open, pydantic's JSON, and structlog's context variables. Each call gives its outcome and the
-- library's new state.
pub record Libraries : Type 1 where
  pub Redis : Type 0
  -- `GET key`
  pub redis_get : Text → Redis → Result (Option Text) × Redis
  -- `SET key value EX seconds`
  pub redis_set : Text → Text → ℕ → Redis → Result (Unit {0}) × Redis
  -- `PING`: whether the reply is the object `True`
  pub redis_ping : Redis → Result Bool × Redis
  pub redis_aclose : Redis → Result (Unit {0}) × Redis
  pub Postgres : Type 0
  pub open_session : Postgres → Postgres
  pub session_get : PrimaryKey → Postgres → Result (Option FeatureFlagRow) × Postgres
  pub session_add : FeatureFlagRow → Postgres → Postgres
  -- The attributes of a loaded row are assigned, which makes it this row.
  pub session_assign : FeatureFlagRow → Postgres → Postgres
  pub session_commit : Postgres → Result (Unit {0}) × Postgres
  pub close_session : Postgres → Postgres
  -- A connection is checked out, runs `SELECT 1` and is given back.
  pub select_one : Postgres → Result (Unit {0}) × Postgres
  pub dispose : Postgres → Result (Unit {0}) × Postgres
  -- Whether `repr` shows a code point above 126 as it is: Python's Unicode tables.
  pub is_printable : ℕ → Bool
  -- `flag.model_dump_json()` and `FeatureFlag.model_validate_json(text)`
  pub model_dump_json : FeatureFlag → Text
  pub model_validate_json : Text → Result FeatureFlag
  pub Context : Type 0
  pub context_get : Context → Text → Option Text
  -- `bound_contextvars(…)` on the way in, and on the way out, given the context before.
  pub bind_contextvars : List (Text × Text) → Context → Context
  pub reset_contextvars : Context → List (Text × Text) → Context → Context
  -- Starlette's `Headers.get`, which ignores case, and `MutableHeaders.__setitem__`.
  pub header_get : List (Text × Text) → Text → Option Text
  pub header_set : List (Text × Text) → Text → Text → List (Text × Text)

-- A keyword argument of a log call.
pub data LogValue : Type 0 where
  text : Text → LogValue
  boolean : Bool → LogValue
  exception : BaseException → LogValue
  null : LogValue

-- A call of a child logger's method, with the context variables at that moment.
pub record LogCall (lib : Libraries) : Type 0 where
  pub logger : Text
  pub level : LogLevel
  pub event : Text
  pub fields : List (Text × LogValue)
  pub context : lib.Context

-- The raw headers of an ASGI message or scope: pairs of a name and a value.
abbrev pub HeaderList : Type 0
HeaderList = List (Text × Text)

-- The events that an ASGI application sends.
pub data Message : Type 0 where
  response_start : ℕ → HeaderList → Message
  response_body : Text → Message
  other_event : Text → Message

-- `uuid` is what the next `uuid4()` gives, `sent` what the server has been given to send,
-- `flushed` the length of the log when the log stream was last flushed, and `loop_handler` the
-- child logger of the event loop's exception handler, if one is set. `scope_state` is the dictionary
-- `scope["state"]` of the request in flight, which all the layers around it share; the newest entry
-- stands first.
pub record World (lib : Libraries) : Type 0 where
  pub cache : lib.Redis
  pub database : lib.Postgres
  pub clock : Datetime
  pub reads_total : ℕ
  pub writes_total : ℕ
  pub log : List (LogCall lib)
  pub context : lib.Context
  pub uuid : Text
  pub sent : List Message
  pub flushed : ℕ
  pub loop_handler : Option Text
  pub scope_state : List (Text × Text)

module _ (lib : Libraries) where
  abbrev pub App : Type 0 → Type 0
  App A = Exec (World lib) A

  -- One more call in the log.
  abbrev pub log : Text → LogLevel → Text → List (Text × LogValue) → App Unit
  log logger level event fields w = (
    ok tt,
    record w {
      log =
          w.log
          ++ record {
            logger = logger;
            level = level;
            event = event;
            fields = fields;
            context = w.context;
          }
            ∷ [];
    },
  )

  -- `with structlog.contextvars.bound_contextvars(…): body`
  abbrev pub bound_contextvars : {A : Type 0} → List (Text × Text) → App A → App A
  bound_contextvars pairs body w =
      try_finally body
        (modify (λ v. record v { context = lib.reset_contextvars w.context pairs v.context }))
        (record w { context = lib.bind_contextvars pairs w.context })

  -- A call of a library on its part of the state.
  abbrev pub on_cache : {A : Type 0} → (lib.Redis → Result A × lib.Redis) → App A
  on_cache f w = ((f w.cache).0, record w { cache = (f w.cache).1 })

  abbrev pub on_database : {A : Type 0} → (lib.Postgres → Result A × lib.Postgres) → App A
  on_database f w = ((f w.database).0, record w { database = (f w.database).1 })

  abbrev pub with_database : (lib.Postgres → lib.Postgres) → App Unit
  with_database f w = (ok tt, record w { database = f w.database })
