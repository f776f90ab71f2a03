-- ===== src/Http/Exclusive.antt =====
-- No route of the application stands in front of another: the order in which
-- src/app/lifecycle/lifecycle_manager.py mounts them does not matter.
use fastapi_polyrepo_templat.Prelude.{
  ◌≡◌, ◌⊎◌, inl, inr, refl, sym, ap, ◌∙◌, subst, true, false, List, [], ◌∷◌, ◌++◌, Text, codes,
  Bool-cases, starts_with, starts_with_iff, text_eq, text_eq_iff, All, arith,
}
use fastapi_polyrepo_templat.World.{Libraries}
use fastapi_polyrepo_templat.Asgi.{Scope}
use fastapi_polyrepo_templat.Config.{include_probes_in_schema}
use fastapi_polyrepo_templat.Startup.{Registries, Process}
use fastapi_polyrepo_templat.Startup.Manager.{livez_endpoint, readyz_endpoint, metrics_path}
use fastapi_polyrepo_templat.Startup.Lifecycle.{LifecycleManager, create_app}
use fastapi_polyrepo_templat.Startup.Built.{IsAccepting, built, create_app_lem}
use fastapi_polyrepo_templat.Http.Fastapi.{Route, Fastapi, FastapiContract, IsPlain, Misses}
use fastapi_polyrepo_templat.Http.Table.{
  flags_prefix, get_flag_route, set_flag_route, livez_route, readyz_route, metrics_route, table,
}
use fastapi_polyrepo_templat.Http.Routing.{get-ne-put}

-- Two texts that differ at a place that both have: no path starts with both.
abbrev Diverge : Text → Text → Type 0
Diverge a b = (rest : Text) → starts_with b (a ++ rest) ≡ false

module _ (lib : Libraries) (fastapi : Fastapi lib) (contract : FastapiContract lib fastapi)
    (scope : Scope) where
  -- At most one of two routes takes the request.
  abbrev Apart : Route lib → Route lib → Type 0
  Apart r q = Misses lib fastapi scope r ⊎ Misses lib fastapi scope q

  -- At most one route of a list takes the request.
  abbrev pub IsExclusive : List (Route lib) → Type 0
  IsExclusive [] = Unit
  IsExclusive (r ∷ routes) = All (Apart r) routes × IsExclusive routes

  Apart-by_path :
      (r q : Route lib) (a b rest_a rest_b : Text)
      → r.path ≡ a ++ rest_a
      → q.path ≡ b ++ rest_b
      → All IsPlain a
      → All IsPlain b
      → Diverge a b
      → Apart r q
  Apart-by_path r q a b rest_a rest_b e f plain_a plain_b diverge =
      elim (Bool-cases (starts_with a scope.path)) [
        | inl starts ↦
            let (rest, same) = (starts_with_iff a scope.path).0 starts in
            inr (
              inl (
                ap (λ t. fastapi.match_path t scope.path) f
                ∙ contract.match_apart b rest_b scope.path plain_b
                    (ap (starts_with b) same ∙ diverge rest)))
        | inr differs ↦ inl (
            inl (
              ap (λ t. fastapi.match_path t scope.path) e
              ∙ contract.match_apart a rest_a scope.path plain_a differs))
      ]

  Apart-by_method : (r q : Route lib) → r.method ≡ codes "GET" → q.method ≡ codes "PUT" → Apart r q
  Apart-by_method r q get put = elim (Bool-cases (text_eq scope.method (codes "GET"))) [
    | inl same ↦ inr (
        inr (λ e. get-ne-put (sym ((text_eq_iff scope.method (codes "GET")).0 same) ∙ sym e ∙ put)))
    | inr differs ↦ inl (
        inr (λ e.
          let same : text_eq scope.method (codes "GET") ≡ true =
            (text_eq_iff _ _).1 (sym e ∙ get) in
          cc))
  ]

  -- If path templates match as documented, the registry takes every series and the manager has
  -- not installed its middleware, then of the routes that create_app mounts at most one takes a
  -- request, whatever its path and method: no probe, no flag and no scrape stands in front of
  -- another.
  pub table-IsExclusive :
      (registries : Registries) (manager : LifecycleManager) (p : Process registries)
      → IsAccepting registries
      → p.prometheus.middleware_installed ≡ false
      → IsExclusive (table lib fastapi (create_app registries manager p).1.app)
  unfolding table starts_with
  table-IsExclusive registries manager p accepting fresh =
      let app_built = (create_app_lem registries manager p accepting fresh).1 in
      let app = built registries manager p.prometheus.callbacks in
      let lz = livez_route lib fastapi app (include_probes_in_schema manager.app_config.env) in
      let rz = readyz_route lib fastapi app (include_probes_in_schema manager.app_config.env) in
      let get = get_flag_route lib fastapi app in
      let put = set_flag_route lib fastapi app in
      let mt =
        metrics_route lib fastapi app metrics_path false
          manager.app_config.prometheus.should_gzip in
      subst (λ a. IsExclusive (table lib fastapi a)) (sym app_built)
        (
          (
            Apart-by_path lz rz livez_endpoint readyz_endpoint [] [] refl refl (omega arith)
                (omega arith) (λ rest. refl),
            (
              Apart-by_path lz get livez_endpoint flags_prefix [] (codes "/{name}") refl refl
                  (omega arith) (omega arith) (λ rest. refl),
              (
                Apart-by_path lz put livez_endpoint flags_prefix [] (codes "/{name}") refl refl
                    (omega arith) (omega arith) (λ rest. refl),
                (
                  Apart-by_path lz mt livez_endpoint metrics_path [] [] refl refl (omega arith)
                      (omega arith) (λ rest. refl),
                  tt,
                ),
              ),
            ),
          ),
          (
            (
              Apart-by_path rz get readyz_endpoint flags_prefix [] (codes "/{name}") refl refl
                  (omega arith) (omega arith) (λ rest. refl),
              (
                Apart-by_path rz put readyz_endpoint flags_prefix [] (codes "/{name}") refl refl
                    (omega arith) (omega arith) (λ rest. refl),
                (
                  Apart-by_path rz mt readyz_endpoint metrics_path [] [] refl refl (omega arith)
                      (omega arith) (λ rest. refl),
                  tt,
                ),
              ),
            ),
            (
              (
                Apart-by_method get put refl refl,
                (
                  Apart-by_path get mt flags_prefix metrics_path (codes "/{name}") [] refl refl
                      (omega arith) (omega arith) (λ rest. refl),
                  tt,
                ),
              ),
              (
                (
                  Apart-by_path put mt flags_prefix metrics_path (codes "/{name}") [] refl refl
                      (omega arith) (omega arith) (λ rest. refl),
                  tt,
                ),
                (tt, tt),
              ),
            ),
          ),
        )
