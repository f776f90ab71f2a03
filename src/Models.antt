-- ===== src/Models.antt =====
-- src/app/models, src/app/clients/postgres/feature_flag_table.py and
-- src/app/config/feature_flag_config.py: the data, and the `min_length=1` checks of the models.
use fastapi_polyrepo_templat.Prelude.{ℕ, Bool, ◌||◌, Text, is_empty, if◌then◌else◌}
use fastapi_polyrepo_templat.Effects.{Result, ok, err, validation_error}

-- A point in time, in microseconds since the epoch, UTC.
abbrev pub Datetime : Type 0
Datetime = ℕ

pub record FeatureFlag : Type 0 where
  pub name : Text
  pub enabled : Bool
  pub updated_at : Datetime
  pub updated_by_user_id : Text

-- `FeatureFlag(name=…, enabled=…, updated_at=…, updated_by_user_id=…)`
unfoldable pub make_feature_flag : Text → Bool → Datetime → Text → Result FeatureFlag
unfolding is_empty
make_feature_flag name enabled updated_at user_id =
    if is_empty name || is_empty user_id
    then err validation_error
    else ok (record {
      name = name;
      enabled = enabled;
      updated_at = updated_at;
      updated_by_user_id = user_id;
    })

pub record FeatureFlagSetRequest : Type 0 where
  pub enabled : Bool

pub record UserDetails : Type 0 where
  pub tenant_id : Text
  pub user_id : Text

-- `UserDetails(tenant_id=…, user_id=…)`
unfoldable pub make_user_details : Text → Text → Result UserDetails
unfolding is_empty
make_user_details tenant_id user_id =
    if is_empty tenant_id || is_empty user_id
    then err validation_error
    else ok (record { tenant_id = tenant_id; user_id = user_id })

pub record FeatureFlagRow : Type 0 where
  pub tenant_id : Text
  pub name : Text
  pub value : Bool
  pub updated_at : Datetime
  pub updated_by_user_id : Text

-- Pydantic refuses a `CACHE_TTL_SECONDS` below one.
pub record FeatureFlagConfig : Type 0 where
  pub cache_ttl_seconds : ℕ

-- `K8sProbeResponse`: the only value of `status` is "ok".
pub data K8sProbeResponse : Type 0 where
  ok_status : K8sProbeResponse
