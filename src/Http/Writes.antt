-- ===== src/Http/Writes.antt =====
-- A PUT of a flag from the server to the table and back, and a GET after it.
use fastapi_polyrepo_templat.World.{World}
use fastapi_polyrepo_templat.Contracts.{Contracts}
use fastapi_polyrepo_templat.Http.Fastapi.{Fastapi}
