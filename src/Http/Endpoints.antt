-- ===== src/Http/Endpoints.antt =====
-- What the endpoints of the feature flags do, by the requests of the router, when what they send is
-- accepted.
use fastapi_polyrepo_templat.Prelude.{
  ◌≤◌, ◌≡◌, ◌≢◌, refl, some, List, [], ◌∷◌, ◌++◌, Text, codes, length, is_empty, arith,
}
use fastapi_polyrepo_templat.Effects.{BaseException, err, ok, and_then}
use fastapi_polyrepo_templat.Models.{FeatureFlagSetRequest}
use fastapi_polyrepo_templat.World.{Libraries, World, App, Message}
use fastapi_polyrepo_templat.Asgi.{Scope}
use fastapi_polyrepo_templat.Startup.{Registries}
use fastapi_polyrepo_templat.Startup.Lifecycle.{LifecycleManager, get_child_logger}
use fastapi_polyrepo_templat.Startup.Built.{built}
use fastapi_polyrepo_templat.Startup.State.{get_app_state, get_app_services}
use fastapi_polyrepo_templat.Routes.GetUserDetails.{get_user_details_then, get_user_details_raised}
use fastapi_polyrepo_templat.Routes.FeatureFlagRouter.{
  get_feature_flag, set_feature_flag, get_request, set_request,
}
use fastapi_polyrepo_templat.Http.Fastapi.{Fastapi, FastapiContract, IsBody, Payload, flag}
use fastapi_polyrepo_templat.Http.Table.{
  tenant_id_header, user_id_header, get_flag_endpoint, set_flag_endpoint,
}
use fastapi_polyrepo_templat.Http.Routing.{IsSegment, name_param}

-- A name that is not empty has the minimum length.
segment_length : (name : Text) → name ≢ [] → 1 ≤ length name
segment_length [] h = absurd (h refl)
segment_length (c ∷ name) h = omega arith

module _ (lib : Libraries) (fastapi : Fastapi lib) (contract : FastapiContract lib fastapi)
    (registries : Registries) (manager : LifecycleManager) (callbacks : List Text) (scope : Scope)
    (tenant_id user_id name : Text)
    (tenant : lib.header_get scope.headers tenant_id_header ≡ some tenant_id)
    (user : lib.header_get scope.headers user_id_header ≡ some user_id) (segment : IsSegment name)
    (k : Payload → App lib Unit) (events : Payload → List Message)
    (quiet : (payload : Payload) (v : World lib)
      → k payload v ≡ (ok tt, record v { sent = v.sent ++ events payload })) where
  -- A GET of a flag sends what its request returns, and a PUT with a body of the model likewise.
  pub get_flag_endpoint_lem :
      (w : World lib)
      → get_flag_endpoint lib fastapi
          (built registries manager callbacks)
          (name_param name)
          scope
          k
          w
        ≡ and_then
            (get_request lib manager.app_config.feature_flag tenant_id user_id name w)
            (λ value. k (flag value))
  unfolding get_flag_endpoint get_app_services get_app_state get_child_logger get_request is_empty
  get_flag_endpoint_lem w =
      rw
        (
          contract.header_given tenant_id_header tenant_id scope.headers tenant,
          contract.header_given user_id_header user_id scope.headers user,
          contract.path_param_given (codes "name") name 1 (segment_length name segment.0),
        )
        (get_user_details_then lib tenant_id user_id
          (get_feature_flag lib manager.app_config.feature_flag name) (λ value. k (flag value))
          (λ value. events (flag value)) w (λ value v. quiet (flag value) v))

  pub set_flag_endpoint_lem :
      (body : FeatureFlagSetRequest) (w : World lib)
      → IsBody lib fastapi scope.body body
      → set_flag_endpoint lib fastapi
          (built registries manager callbacks)
          (name_param name)
          scope
          k
          w
        ≡ and_then
            (set_request lib manager.app_config.feature_flag tenant_id user_id name body w)
            (λ value. k (flag value))
  unfolding set_flag_endpoint get_app_services get_app_state get_child_logger set_request is_empty
  set_flag_endpoint_lem body w parsed =
      rw
        (
          contract.header_given tenant_id_header tenant_id scope.headers tenant,
          contract.header_given user_id_header user_id scope.headers user,
          contract.path_param_given (codes "name") name 1 (segment_length name segment.0),
          parsed.1.0,
          parsed.1.1,
        )
        (get_user_details_then lib tenant_id user_id
          (set_feature_flag lib manager.app_config.feature_flag name body) (λ value. k (flag value))
          (λ value. events (flag value)) w (λ value v. quiet (flag value) v))

module _ (lib : Libraries) (fastapi : Fastapi lib) (contract : FastapiContract lib fastapi)
    (registries : Registries) (manager : LifecycleManager) (callbacks : List Text) (scope : Scope)
    (tenant_id user_id name : Text)
    (tenant : lib.header_get scope.headers tenant_id_header ≡ some tenant_id)
    (user : lib.header_get scope.headers user_id_header ≡ some user_id)
    (segment : IsSegment name) where
  -- A GET whose request raises sends nothing and raises, whatever is done with its value, and a PUT
  -- likewise.
  pub get_flag_endpoint_raised :
      (w v : World lib) (exc : BaseException)
      → get_request lib manager.app_config.feature_flag tenant_id user_id name w ≡ (err exc, v)
      → (k : Payload → App lib Unit)
      → get_flag_endpoint lib fastapi
          (built registries manager callbacks)
          (name_param name)
          scope
          k
          w
        ≡ (err exc, v)
  unfolding get_flag_endpoint get_app_services get_app_state get_child_logger get_request is_empty
  get_flag_endpoint_raised w v exc raised k =
      rw
        (
          contract.header_given tenant_id_header tenant_id scope.headers tenant,
          contract.header_given user_id_header user_id scope.headers user,
          contract.path_param_given (codes "name") name 1 (segment_length name segment.0),
        )
        (get_user_details_raised lib tenant_id user_id
          (get_feature_flag lib manager.app_config.feature_flag name) (λ value. k (flag value)) w v
          exc raised)

  pub set_flag_endpoint_raised :
      (body : FeatureFlagSetRequest) (w v : World lib) (exc : BaseException)
      → IsBody lib fastapi scope.body body
      → set_request lib manager.app_config.feature_flag tenant_id user_id name body w ≡ (err exc, v)
      → (k : Payload → App lib Unit)
      → set_flag_endpoint lib fastapi
          (built registries manager callbacks)
          (name_param name)
          scope
          k
          w
        ≡ (err exc, v)
  unfolding set_flag_endpoint get_app_services get_app_state get_child_logger set_request is_empty
  set_flag_endpoint_raised body w v exc parsed raised k =
      rw
        (
          contract.header_given tenant_id_header tenant_id scope.headers tenant,
          contract.header_given user_id_header user_id scope.headers user,
          contract.path_param_given (codes "name") name 1 (segment_length name segment.0),
          parsed.1.0,
          parsed.1.1,
        )
        (get_user_details_raised lib tenant_id user_id
          (set_feature_flag lib manager.app_config.feature_flag name body) (λ value. k (flag value))
          w v exc raised)
