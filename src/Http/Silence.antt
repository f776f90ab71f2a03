-- ===== src/Http/Silence.antt =====
-- The service, the handlers and the probes send nothing themselves: what reaches the server is what
-- FastAPI makes of their outcome.
use fastapi_polyrepo_templat.Prelude.{◌≡◌, Bool, Text, arith}
use fastapi_polyrepo_templat.Models.{FeatureFlagConfig, FeatureFlagSetRequest, UserDetails}
use fastapi_polyrepo_templat.World.{Libraries, World}
use fastapi_polyrepo_templat.Clients.Redis
use fastapi_polyrepo_templat.Clients.Postgres
use fastapi_polyrepo_templat.Service.{get_flag, set_flag}
use fastapi_polyrepo_templat.Routes.GetUserDetails.{
  get_user_details-sent, get_user_details-scope_state,
}
use fastapi_polyrepo_templat.Routes.FeatureFlagRouter.{
  get_feature_flag, set_feature_flag, get_request, set_request,
}
use fastapi_polyrepo_templat.Routes.ProbeRouter.{readiness_probe}

module _ (lib : Libraries) (config : FeatureFlagConfig) where
  get_flag-sent :
      (name : Text) (user : UserDetails) (w : World lib)
      → (get_flag lib config name user w).1.sent ≡ w.sent
  unfolding get_flag
  get_flag-sent name user w = ground arith

  set_flag-sent :
      (name : Text) (enabled : Bool) (user : UserDetails) (w : World lib)
      → (set_flag lib config name enabled user w).1.sent ≡ w.sent
  unfolding set_flag
  set_flag-sent name enabled user w = ground arith

  pub get_request-sent :
      (tenant_id user_id name : Text) (w : World lib)
      → (get_request lib config tenant_id user_id name w).1.sent ≡ w.sent
  unfolding get_request get_feature_flag
  get_request-sent tenant_id user_id name w =
      get_user_details-sent lib tenant_id user_id (get_feature_flag lib config name) w
        (λ user v. get_flag-sent name user _)

  pub set_request-sent :
      (tenant_id user_id name : Text) (body : FeatureFlagSetRequest) (w : World lib)
      → (set_request lib config tenant_id user_id name body w).1.sent ≡ w.sent
  unfolding set_request set_feature_flag
  set_request-sent tenant_id user_id name body w =
      get_user_details-sent lib tenant_id user_id (set_feature_flag lib config name body) w
        (λ user v. set_flag-sent name body.enabled user _)

-- Nor do the service and the handlers touch the state of the request.
module _ (lib : Libraries) (config : FeatureFlagConfig) where
  get_flag-scope_state :
      (name : Text) (user : UserDetails) (w : World lib)
      → (get_flag lib config name user w).1.scope_state ≡ w.scope_state
  unfolding get_flag
  get_flag-scope_state name user w = ground arith

  set_flag-scope_state :
      (name : Text) (enabled : Bool) (user : UserDetails) (w : World lib)
      → (set_flag lib config name enabled user w).1.scope_state ≡ w.scope_state
  unfolding set_flag
  set_flag-scope_state name enabled user w = ground arith

  pub get_request-scope_state :
      (tenant_id user_id name : Text) (w : World lib)
      → (get_request lib config tenant_id user_id name w).1.scope_state ≡ w.scope_state
  unfolding get_request get_feature_flag
  get_request-scope_state tenant_id user_id name w =
      get_user_details-scope_state lib tenant_id user_id (get_feature_flag lib config name) w
        (λ user v. get_flag-scope_state name user _)

  pub set_request-scope_state :
      (tenant_id user_id name : Text) (body : FeatureFlagSetRequest) (w : World lib)
      → (set_request lib config tenant_id user_id name body w).1.scope_state ≡ w.scope_state
  unfolding set_request set_feature_flag
  set_request-scope_state tenant_id user_id name body w =
      get_user_details-scope_state lib tenant_id user_id (set_feature_flag lib config name body) w
        (λ user v. set_flag-scope_state name body.enabled user _)

pub readiness_probe-sent :
    (lib : Libraries) (w : World lib) → (readiness_probe lib w).1.sent ≡ w.sent
unfolding readiness_probe Redis.ping Postgres.ping
readiness_probe-sent lib w = ground arith
