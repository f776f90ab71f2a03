-- ===== src/Service/Staleness.antt =====
-- The time to live of the entries of the cache, and how long an old flag can be read.
use fastapi_polyrepo_templat.Prelude.{
  ◌≤◌, ◌≡◌, refl, inl, inr, Bool, Option, none, some, Text, arith,
}
use fastapi_polyrepo_templat.Effects.{Result, ok, err}
use fastapi_polyrepo_templat.Models.{FeatureFlag, FeatureFlagConfig, UserDetails}
use fastapi_polyrepo_templat.World.{Libraries, World}
use fastapi_polyrepo_templat.Contracts.{Contracts, ExpiryContract, IsUp}
use fastapi_polyrepo_templat.Service.{cache_key, write_cache, read_through, get_flag, set_flag}
use fastapi_polyrepo_templat.Service.Reading.{answer, loaded, load_flag-cache}
use fastapi_polyrepo_templat.Service.Writing.{stored, store_flag-cache}
use fastapi_polyrepo_templat.Service.Isolation.{set_flag-cache}
use fastapi_polyrepo_templat.Service.Branches.{
  missed, looked_up, read_through_found, read_through_failed, get_flag_unreachable, get_flag-hit,
  get_flag_miss,
}
use fastapi_polyrepo_templat.Service.Histories.{
  later, Reach, here, next, read, write, wait, Anything,
}
use fastapi_polyrepo_templat.Service.Coherence.{IsCoherent, row_of}
use fastapi_polyrepo_templat.Service.Refinement.{get_flag-refines}

module _ (lib : Libraries) (laws : Contracts lib) (expiry : ExpiryContract lib laws.redis)
    (config : FeatureFlagConfig) where
  -- Every entry lives for the configured time at most.
  pub record IsShortLived (w : World lib) : Type 0 where
    pub at : (k : Text) → expiry.ttl_left w.cache k ≤ config.cache_ttl_seconds

  -- What a call of the service may do to the time to live of an entry.
  set_left_le :
      (k v : Text) (r : lib.Redis) (j : Text)
      → expiry.ttl_left r j ≤ config.cache_ttl_seconds
      → expiry.ttl_left (lib.redis_set k v config.cache_ttl_seconds r).1 j
        ≤ config.cache_ttl_seconds
  set_left_le k v r j h = ground (arith, expiry.set_left k v config.cache_ttl_seconds r j)

  write_cache-IsShortLived :
      (key : Text) (flag : FeatureFlag) (w : World lib)
      → IsShortLived w
      → IsShortLived (write_cache lib config key flag w).1
  unfolding write_cache
  write_cache-IsShortLived key flag w h = record {
    at = λ k. set_left_le key (lib.model_dump_json flag) w.cache k (h.at k);
  }

  same_cache-IsShortLived : (w v : World lib) → v.cache ≡ w.cache → IsShortLived w → IsShortLived v
  same_cache-IsShortLived w v e h = record { at = λ k. rw e (h.at k) }

  looked_up-IsShortLived :
      (w : World lib) (key : Text) → IsShortLived w → IsShortLived (looked_up w key)
  looked_up-IsShortLived w key h = record { at = λ k. rw (expiry.get_left key w.cache k) (h.at k) }

  read_through-IsShortLived :
      (key name : Text) (user : UserDetails) (w : World lib)
      → IsShortLived w
      → IsShortLived (read_through lib config key name user w).1
  read_through-IsShortLived key name user w h =
      by_load (loaded lib name user (missed w name)).0 refl
    where
      kept : IsShortLived (loaded lib name user (missed w name)).1
      kept =
          same_cache-IsShortLived w (loaded lib name user (missed w name)).1
            (load_flag-cache lib name user (missed w name)) h

      by_load :
          (r : Result FeatureFlag)
          → (loaded lib name user (missed w name)).0 ≡ r
          → IsShortLived (read_through lib config key name user w).1
      by_load (ok flag) e =
          rw (read_through_found lib config key name user w flag e)
            (write_cache-IsShortLived key flag (loaded lib name user (missed w name)).1 kept)
      by_load (err x) e = rw (read_through_failed lib config key name user w x e) kept

  get_flag-IsShortLived :
      (name : Text) (user : UserDetails) (w : World lib)
      → IsShortLived w
      → IsShortLived (get_flag lib config name user w).1
  get_flag-IsShortLived name user w h = by_lookup (lib.redis_get key w.cache).0 refl
    where
      key : Text
      key = cache_key user.tenant_id name

      kept : IsShortLived (looked_up w key)
      kept = looked_up-IsShortLived w key h

      by_lookup :
          (r : Result (Option Text))
          → (lib.redis_get key w.cache).0 ≡ r
          → IsShortLived (get_flag lib config name user w).1
      by_lookup (err x) e = rw (get_flag_unreachable lib config name user w x e) kept
      by_lookup (ok (some json)) e =
          rw (get_flag-hit lib config name user w json e)
            (same_cache-IsShortLived (looked_up w key) _ refl kept)
      by_lookup (ok none) e =
          rw (get_flag_miss lib config name user w e)
            (read_through-IsShortLived key name user (looked_up w key) kept)

  set_flag-IsShortLived :
      (name : Text) (enabled : Bool) (user : UserDetails) (w : World lib)
      → IsShortLived w
      → IsShortLived (set_flag lib config name enabled user w).1
  set_flag-IsShortLived name enabled user w h =
      elim (set_flag-cache lib laws config name enabled user w) [
        | inl same ↦
            same_cache-IsShortLived session (set_flag lib config name enabled user w).1 same kept
        | inr (flag, sent) ↦ record {
          at = λ k. rw sent (
              set_left_le (cache_key user.tenant_id name) (lib.model_dump_json flag) session.cache k
                (kept.at k));
        }
      ]
    where
      session : World lib
      session = (stored lib name enabled w.clock user w).1

      kept : IsShortLived session
      kept = same_cache-IsShortLived w session (store_flag-cache lib name enabled w.clock user w) h

  Reach-IsShortLived :
      {w v : World lib}
      → IsShortLived w
      → Reach lib laws expiry config Anything w v
      → IsShortLived v
  Reach-IsShortLived h here = h
  Reach-IsShortLived h (next {u = u} r (read name user)) =
      get_flag-IsShortLived name user u (Reach-IsShortLived h r)
  Reach-IsShortLived h (next {u = u} r (write name enabled user _)) =
      set_flag-IsShortLived name enabled user u (Reach-IsShortLived h r)
  Reach-IsShortLived h (next {u = u} r (wait n)) =
      let short = Reach-IsShortLived h r in
      record { at = λ k. ground (arith, expiry.elapse_left n u.cache k, short.at k) }

  -- Once every entry has run out, the cache is coherent whatever it held.
  expired-IsCoherent :
      (w : World lib)
      → IsShortLived w
      → IsCoherent lib laws (later lib laws expiry config config.cache_ttl_seconds w)
  expired-IsCoherent w h = record {
    at = λ t n json c. absurd (
        ground (
          arith,
          expiry.elapse_stored config.cache_ttl_seconds w.cache (cache_key t n),
          h.at (cache_key t n),
        ));
  }

  -- However the calls of a history went, refreshes of the cache that failed included: from a
  -- cache whose entries live for the configured time at most, once that time has passed after the
  -- history, a read answers as the table does, if Redis and PostgreSQL answer it.
  pub staleness_bound :
      (w v : World lib) (name : Text) (user : UserDetails)
      → IsUp lib
      → IsShortLived w
      → Reach lib laws expiry config Anything w v
      → (get_flag lib config name user (later lib laws expiry config config.cache_ttl_seconds v)).0
        ≡ answer name (row_of lib laws v user.tenant_id name)
  staleness_bound w v name user up h r =
      get_flag-refines lib laws config name user
        (later lib laws expiry config config.cache_ttl_seconds v) up
        (expired-IsCoherent v (Reach-IsShortLived h r))
