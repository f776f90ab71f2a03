-- ===== src/Service/Histories.antt =====
-- Sequences of calls, with time passing between them. Every service call runs to its end before
-- the next begins.
use fastapi_polyrepo_templat.Prelude.{ℕ, ◌+◌, ◌*◌, ◌≡◌, Bool, Text, arith}
use fastapi_polyrepo_templat.Effects.{Result, ok}
use fastapi_polyrepo_templat.Models.{FeatureFlag, FeatureFlagConfig, UserDetails}
use fastapi_polyrepo_templat.World.{Libraries, World}
use fastapi_polyrepo_templat.Contracts.{Contracts, ExpiryContract, IsUp}
use fastapi_polyrepo_templat.Service.{cache_key, get_flag, set_flag}
use fastapi_polyrepo_templat.Service.Reading.{answer}
use fastapi_polyrepo_templat.Service.Coherence.{IsCoherent, row_of, get_flag-IsCoherent}
use fastapi_polyrepo_templat.Service.Refinement.{get_flag-refines, set_flag-refines}

abbrev pub Returned : Result FeatureFlag → Type 0
Returned r = (flag : FeatureFlag) × (r ≡ ok flag)

abbrev pub Anything : Result FeatureFlag → Type 0
Anything r = Unit {0}

module _ (lib : Libraries) (laws : Contracts lib) (expiry : ExpiryContract lib laws.redis)
    (config : FeatureFlagConfig) where
  -- `n` seconds later.
  abbrev pub later : ℕ → World lib → World lib
  later n w = record w { cache = expiry.elapse n w.cache; clock = w.clock + n * 1_000_000 }

  -- A call of the service whose outcome, if it is a write, meets `P`, or a while in which nothing
  -- is called.
  pub data Step (P : Result FeatureFlag → Type 0) (w : World lib) : World lib → Type 0 where
    read : (name : Text) (user : UserDetails) → Step P w (get_flag lib config name user w).1
    write :
        (name : Text) (enabled : Bool) (user : UserDetails)
        → P (set_flag lib config name enabled user w).0
        → Step P w (set_flag lib config name enabled user w).1
    wait : (n : ℕ) → Step P w (later n w)

  pub data Reach (P : Result FeatureFlag → Type 0) (w : World lib) : World lib → Type 0 where
    here : Reach P w w
    next : {u v : World lib} → Reach P w u → Step P u v → Reach P w v

  later-IsCoherent :
      (n : ℕ) (w : World lib) → IsCoherent lib laws w → IsCoherent lib laws (later n w)
  later-IsCoherent n w h = record {
    at = λ t name json c.
        h.at t name json (ground (arith, expiry.elapse_stored n w.cache (cache_key t name)));
  }

  Step-IsCoherent :
      {w v : World lib} → IsCoherent lib laws w → Step Returned w v → IsCoherent lib laws v
  Step-IsCoherent {w} h (read name user) = get_flag-IsCoherent lib laws config name user w h
  Step-IsCoherent {w} h (write name enabled user (flag, e)) =
      (set_flag-refines lib laws config name enabled user w flag h e).2
  Step-IsCoherent {w} h (wait n) = later-IsCoherent n w h

  Reach-IsCoherent :
      {w v : World lib} → IsCoherent lib laws w → Reach Returned w v → IsCoherent lib laws v
  Reach-IsCoherent h here = h
  Reach-IsCoherent h (next r s) = Step-IsCoherent (Reach-IsCoherent h r) s

  -- From a coherent cache, after any sequence of reads, whatever their outcome, of writes that
  -- returned, and of waits, a read answers as the table does, if Redis and PostgreSQL answer it.
  pub read_after_history :
      (w v : World lib) (name : Text) (user : UserDetails)
      → IsUp lib
      → IsCoherent lib laws w
      → Reach Returned w v
      → (get_flag lib config name user v).0 ≡ answer name (row_of lib laws v user.tenant_id name)
  read_after_history w v name user up h r =
      get_flag-refines lib laws config name user v up (Reach-IsCoherent h r)
