-- ===== src/Routes/FeatureFlagRouter.antt =====
-- src/app/routes/feature_flag_router.py
use fastapi_polyrepo_templat.Prelude.{[], ◌∷◌, Text, codes}
use fastapi_polyrepo_templat.Effects.{feature_flag_not_found, http_exception, Result, ok, err, ◌>>◌}
use fastapi_polyrepo_templat.Models.{
  FeatureFlag, FeatureFlagSetRequest, FeatureFlagConfig, UserDetails,
}
use fastapi_polyrepo_templat.World.{Libraries, App, log, LogLevel, text, boolean}
use fastapi_polyrepo_templat.Repr.{not_found_message}
use fastapi_polyrepo_templat.Service.{get_flag, set_flag}
use fastapi_polyrepo_templat.Routes.GetUserDetails.{get_user_details}

module _ (lib : Libraries) where
  -- `except FeatureFlagNotFoundError as exc: raise HTTPException(404, detail=str(exc)) from exc`
  unfoldable pub not_found_as_404 : Result FeatureFlag → Result FeatureFlag
  not_found_as_404 (err (feature_flag_not_found name)) =
      err (http_exception 404 (not_found_message lib.is_printable name))
  not_found_as_404 (ok flag) = ok flag
  not_found_as_404 (err exc) = err exc

module _ (lib : Libraries) (config : FeatureFlagConfig) where
  unfoldable pub get_feature_flag : Text → UserDetails → App lib FeatureFlag
  get_feature_flag name user = do
    log lib (codes "feature-flag-router.get") LogLevel.info (codes "feature_flag.get")
        ((codes "name", text name) ∷ [])
    λ w. let (r, v) = get_flag lib config name user w in (not_found_as_404 lib r, v)

  unfoldable pub set_feature_flag : Text → FeatureFlagSetRequest → UserDetails → App lib FeatureFlag
  set_feature_flag name body user = do
    log lib (codes "feature-flag-router.set") LogLevel.info (codes "feature_flag.set")
        ((codes "name", text name) ∷ (codes "enabled", boolean body.enabled) ∷ [])
    set_flag lib config name body.enabled user

  -- The handlers with the dependency that FastAPI runs around them: a request with its two caller
  -- headers and the name in its path.
  unfoldable pub get_request : Text → Text → Text → App lib FeatureFlag
  get_request tenant_id user_id name =
      get_user_details lib tenant_id user_id (get_feature_flag name)

  unfoldable pub set_request : Text → Text → Text → FeatureFlagSetRequest → App lib FeatureFlag
  set_request tenant_id user_id name body =
      get_user_details lib tenant_id user_id (set_feature_flag name body)
