-- ===== src/Routes/Probes.antt =====
-- What the probes answer, on every outcome of the two health checks.
use fastapi_polyrepo_templat.Prelude.{
  ◌≡◌, ◌≢◌, ◌↔◌, Bool, true, false, Text, codes, if◌then◌else◌, arith,
}
use fastapi_polyrepo_templat.Effects.{BaseException, is_exception, Result, ok, err}
use fastapi_polyrepo_templat.Models.{K8sProbeResponse, ok_status}
use fastapi_polyrepo_templat.World.{Libraries, World}
use fastapi_polyrepo_templat.Clients.Redis
use fastapi_polyrepo_templat.Clients.Postgres
use fastapi_polyrepo_templat.Routes.ProbeRouter.{unavailable, readiness_probe}

-- What is no `Exception`, such as a cancellation, is not turned into a 503.
abbrev failed : Text → BaseException → Result K8sProbeResponse
failed detail exc = if is_exception exc then err (unavailable detail) else err exc

-- The specification of readiness: Redis is asked first, and PostgreSQL only if Redis is well.
unfoldable pub readiness : Result Bool → Result (Unit {0}) → Result K8sProbeResponse
readiness (err exc) postgres = failed (codes "Redis failed a health check.") exc
readiness (ok false) postgres = err (unavailable (codes "Redis failed a health check."))
readiness (ok true) (err exc) = failed (codes "PostgreSQL failed a health check.") exc
readiness (ok true) (ok _) = ok ok_status

readiness-ok_iff :
    (redis : Result Bool) (postgres : Result (Unit {0}))
    → (readiness redis postgres ≡ ok ok_status) ↔ ((redis ≡ ok true) × (postgres ≡ ok tt))
unfolding readiness is_exception
readiness-ok_iff (err exc) postgres = ground arith
readiness-ok_iff (ok false) postgres = ground arith
readiness-ok_iff (ok true) (err exc) = ground arith
readiness-ok_iff (ok true) (ok tt) = ground arith

module _ (lib : Libraries) where
  -- The probe answers as its specification says, whatever the two servers answer.
  pub readiness_probe_lem :
      (w : World lib)
      → (readiness_probe lib w).0
        ≡ readiness (lib.redis_ping w.cache).0 (lib.select_one w.database).0
  unfolding readiness_probe Redis.ping Postgres.ping readiness is_exception
  readiness_probe_lem w = ground arith

  -- A pod is ready exactly if Redis answers PING with True and PostgreSQL answers SELECT 1.
  pub readiness_probe-ok_iff :
      (w : World lib)
      → ((readiness_probe lib w).0 ≡ ok ok_status)
        ↔ (((lib.redis_ping w.cache).0 ≡ ok true) × ((lib.select_one w.database).0 ≡ ok tt))
  readiness_probe-ok_iff w =
      rw readiness_probe_lem
        (readiness-ok_iff (lib.redis_ping w.cache).0 (lib.select_one w.database).0)

  -- If Redis does not answer PING with True, the probe does not touch PostgreSQL.
  pub readiness_probe-database :
      (w : World lib)
      → (lib.redis_ping w.cache).0 ≢ ok true
      → (readiness_probe lib w).1.database ≡ w.database
  unfolding readiness_probe Redis.ping Postgres.ping is_exception
  readiness_probe-database w h = ground arith
