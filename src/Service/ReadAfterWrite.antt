-- ===== src/Service/ReadAfterWrite.antt =====
-- A read after a write.
use fastapi_polyrepo_templat.Prelude.{
  ℕ, ◌≡◌, ◌≢◌, ap, ◌∙◌, Bool, Option, some, [], ◌∷◌, Text, is_empty, text_eq_refl, arith,
}
use fastapi_polyrepo_templat.Effects.{ok}
use fastapi_polyrepo_templat.Models.{
  make_feature_flag, FeatureFlag, FeatureFlagRow, FeatureFlagConfig, UserDetails,
}
use fastapi_polyrepo_templat.World.{Libraries, World, PrimaryKey}
use fastapi_polyrepo_templat.Contracts.{Contracts, overlay, IsUp}
use fastapi_polyrepo_templat.Service.{cache_key, write_cache, get_flag, set_flag}
use fastapi_polyrepo_templat.Service.Reading.{answer}
use fastapi_polyrepo_templat.Service.Writing.{written_row, stored, store_flag_up}
use fastapi_polyrepo_templat.Service.Branches.{set_flag_done}
use fastapi_polyrepo_templat.Service.Coherence.{IsCoherent, row_of}
use fastapi_polyrepo_templat.Service.Refinement.{get_flag-refines, set_flag-refines}

-- The flag that a write returns.
abbrev pub written_flag : Text → Bool → ℕ → UserDetails → FeatureFlag
written_flag name enabled now user = record {
  name = name;
  enabled = enabled;
  updated_at = now;
  updated_by_user_id = user.user_id;
}

pub make_feature_flag_named :
    (name : Text) (enabled : Bool) (now : ℕ) (user : UserDetails)
    → name ≢ []
    → user.user_id ≢ []
    → make_feature_flag name enabled now user.user_id ≡ ok (written_flag name enabled now user)
unfolding make_feature_flag is_empty
make_feature_flag_named name enabled now user n u = ground arith

pub overlay_self :
    (row : FeatureFlagRow) (table : PrimaryKey → Option FeatureFlagRow)
    → overlay (row ∷ []) table (row.tenant_id, row.name) ≡ some row
unfolding overlay
overlay_self row table = ground (arith, text_eq_refl row.tenant_id, text_eq_refl row.name)

module _ (lib : Libraries) (laws : Contracts lib) (config : FeatureFlagConfig) where
  open laws use {redis, postgres, json}

  pub set_flag_up :
      (name : Text) (enabled : Bool) (user : UserDetails) (w : World lib)
      → IsUp lib
      → name ≢ []
      → user.user_id ≢ []
      → (set_flag lib config name enabled user w).0 ≡ ok (written_flag name enabled w.clock user)
  set_flag_up name enabled user w up n u =
      let flag = written_flag name enabled w.clock user in
      let key = cache_key user.tenant_id name in
      let session = (stored lib name enabled w.clock user w).1 in
      ap (λ r. r.0)
        (set_flag_done lib config name enabled user w
          (store_flag_up lib name enabled w.clock user w
            (record { session_get = up.session_get; session_commit = up.session_commit }))
          flag (make_feature_flag_named name enabled w.clock user n u)
          (unfold write_cache in
            up.redis_set key (lib.model_dump_json flag) config.cache_ttl_seconds session.cache))

  -- If Redis and PostgreSQL answer and the cache is coherent with the table, a write of a flag
  -- with a name by a user with an id returns the flag with the new value, the time of the call
  -- and that user, and a read of the flag by any caller of the tenant then returns the same.
  pub get_flag-set_flag :
      (name : Text) (enabled : Bool) (user reader : UserDetails) (w : World lib)
      → IsUp lib
      → IsCoherent lib laws w
      → name ≢ []
      → user.user_id ≢ []
      → reader.tenant_id ≡ user.tenant_id
      → ((set_flag lib config name enabled user w).0 ≡ ok (written_flag name enabled w.clock user))
        × ((get_flag lib config name reader (set_flag lib config name enabled user w).1).0
            ≡ ok (written_flag name enabled w.clock user))
  get_flag-set_flag name enabled user reader w up h n u same =
      let flag = written_flag name enabled w.clock user in
      let after = (set_flag lib config name enabled user w).1 in
      let row = written_row name enabled w.clock user in
      let returned = set_flag_up name enabled user w up n u in
      let (tables, answered, kept) =
        set_flag-refines lib laws config name enabled user w flag h returned in
      let found : row_of lib laws after reader.tenant_id name ≡ some row =
        rw same
          (tables (user.tenant_id, name) ∙ overlay_self row (postgres.committed w.database)) in
      (
        returned,
        get_flag-refines lib laws config name reader after up kept
            ∙ ap (answer name) found
            ∙ answered,
      )
