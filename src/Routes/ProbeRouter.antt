-- ===== src/Routes/ProbeRouter.antt =====
-- src/app/routes/k8s_probe_router.py
use fastapi_polyrepo_templat.Prelude.{Text, codes}
use fastapi_polyrepo_templat.Effects.{BaseException, http_exception, pure, raise, try_except, ◌>>◌}
use fastapi_polyrepo_templat.Models.{K8sProbeResponse, ok_status}
use fastapi_polyrepo_templat.World.{Libraries, App}
use fastapi_polyrepo_templat.Clients.Redis
use fastapi_polyrepo_templat.Clients.Postgres

abbrev pub unavailable : Text → BaseException
unavailable detail = http_exception 503 detail

module _ (lib : Libraries) where
  unfoldable pub liveness_probe : App lib K8sProbeResponse
  liveness_probe = pure ok_status

  unfoldable pub readiness_probe : App lib K8sProbeResponse
  readiness_probe = do
    try_except (Redis.ping lib) (λ exc. raise (unavailable (codes "Redis failed a health check.")))
    try_except (Postgres.ping lib)
        (λ exc. raise (unavailable (codes "PostgreSQL failed a health check.")))
    pure ok_status
