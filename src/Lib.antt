-- ===== src/Lib.antt =====
-- A model of the FastAPI polyrepo template: a service that keeps boolean feature flags for each
-- tenant in PostgreSQL, with a cache in Redis, behind HTTP routes, probes, middlewares, metrics and
-- structured logs.
--
-- Which file models which part. Paths of the code are from the root of the repository.
--   RedisKey, RedisKey/Injective: src/app/clients/redis/create_redis_key.py.
--   Clients/Redis, Clients/Postgres: the two clients, src/app/clients. redis-py and SQLAlchemy are
--     fields of the record Libraries of World; what they document is in Contracts.
--   Models: src/app/models, the table of src/app/clients/postgres/feature_flag_table.py, and the
--     settings of the feature flags. A model that pydantic validates has a function that makes it or
--     raises.
--   Service: get_flag, set_flag and their helpers, src/app/services/feature_flag. The bodies of the
--     two sessions are load_flag and store_flag; what follows a cache miss is read_through. Its
--     children hold what the calls do branch by branch (Branches, Reading, Writing), the invariant
--     that ties the cache to the table (Coherence), the specification by the table alone
--     (Refinement, ReadAfterWrite), sequences of calls (Histories, Staleness), an interleaving of
--     two calls (Overlap), the other tenants (Isolation) and the metrics (Counters).
--   Repr: the message of FeatureFlagNotFoundError, with Python's repr of the name.
--   Routes: src/app/routes. GetUserDetails is the dependency of the caller headers,
--     FeatureFlagRouter the two handlers, ProbeRouter the probes; Requests, Writes and Probes state
--     what a caller sees.
--   Http: complete requests, from the server through the middlewares to the routes and back. Table has
--     the path operations as the routers declare them, with the header names of app_consts.py; Fastapi
--     is what they use of FastAPI, as a parameter with a contract. Routing says which route takes a
--     request and Endpoints what it runs; Application puts the routes behind the middlewares, and
--     Answers is what it makes of an outcome. Reads, Writes, Refused and Probed are the results,
--     Failed and Outage those of a request that raises, and Exclusive is about the table itself.
--   Migrations: alembic/env.py and the revision of alembic/versions that creates the table, beside the
--     columns that the ORM maps. Alembic, SQLAlchemy and PostgreSQL are parameters.
--   Asgi: ASGI applications as functions of a scope and a send. Middlewares: src/app/middlewares,
--     with their laws in RequestIds, DocsPaths and ErrorResponses.
--   Lifecycle: the lifespan of src/app/lifecycle/lifecycle_manager.py. The server's work between
--     startup and shutdown is a parameter.
--   Startup: the construction of the application by the same file, src/app/prometheus,
--     src/app/state and src/app/main.py. A FastAPI application is the record of what was registered
--     on it; the middleware added last is the outermost, as Starlette documents. Objects has the
--     constructors of the clients and of the service: a client of redis-py or an engine of SQLAlchemy
--     is what it was made from. Stack puts the middlewares around the routes; Requests, Unhandled
--     and UnhandledLine follow a request through them, the last one to the stream of the log;
--     AccessLines adds the access lines of uvicorn, and FailedRequests its report of an exception,
--     through their bridges.
--   Config: src/app/config. Settings reads the variables of the environment, with the defaults of the
--     fields; Loaded is about what it gives back. Safety has the bounds and the rules of production,
--     Quote the percent escapes of urllib, Credentials the connection URLs.
--   Logger: src/app/logger; the installers of the bridges of uvicorn are in Startup/Lifecycle, with the
--     loggers that they change. LogManager and Stream: src/app/logger/log_manager.py, from the call of
--     a child logger to the bytes on its stream; Json has json.dumps as the renderer calls it, and a
--     reader of JSON objects to compare with. Utf8: str.encode and bytes.decode.
--   Distribution: src/app/distribution/installed_app_version.py.
--   World and Effects: the state that the calls share, and Python code that mutates state and may
--     raise: a call gives its result or its exception, and the state that it leaves.
--   Sample and its children: libraries in memory that meet the contracts. Tests: runs
--     of the model on them.
--
-- How the parts interact. The routes call the service with the user that GetUserDetails makes; the
-- service calls the clients; the clients change the cache and the database of the World and its log.
-- The middlewares wrap the application and rewrite the events it sends; all layers of a request share
-- the dictionary of its state, which is a field of the World, since a layer that stands outside reads
-- what an inner one wrote. Startup builds that stack once, and Lifecycle opens and closes the clients
-- around it.
--
-- Abstractions. A text is its list of code points, and a header its bytes read as latin-1. Times are
-- microseconds as natural numbers. An await ends before the next call begins, except in Overlap,
-- which writes one interleaving out. Exceptions are one data type whose constructors are the classes
-- that the code names; library_error is any other. A child logger is its name.
--
-- Bounds and fuel. str of a number prints with fuel suc n, enough since a quotient by ten is smaller.
-- The readers of UTF-8 and of JSON have the length of their input as fuel; each of their steps takes a
-- byte or a character at least. No other function has fuel: loops are recursion on a list. No integer
-- of the program is of a fixed width.
--
-- Not modelled. The libraries: pydantic, SQLAlchemy, redis-py, structlog, Starlette, FastAPI,
-- uvicorn, prometheus_client, secure and Alembic are parameters with hypotheses that state what they
-- document. The JSON form that pydantic takes for a nested model in one variable, the OpenAPI texts,
-- and the values of the default security headers, which are the library's. Numbers as log values: the calls
-- log texts, truth values and exceptions; the reply of a PING that is not True is logged as a truth
-- value.
pub mod Prelude
pub mod Utf8
pub mod Effects
pub mod RedisKey
pub mod Models
pub mod World
pub mod Clients
pub mod Service
pub mod Contracts
pub mod Repr
pub mod Asgi
pub mod Middlewares
pub mod Logger
pub mod Migrations
pub mod Distribution
pub mod Startup
pub mod Config
pub mod Lifecycle
pub mod Routes
pub mod Http
pub mod Sample
pub mod Tests
