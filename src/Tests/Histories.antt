-- ===== src/Tests/Histories.antt =====
-- Sequences and overlaps of calls of the service.
use fastapi_polyrepo_templat.Prelude.{◌≡◌, refl, true, false, codes, arith}
use fastapi_polyrepo_templat.Effects.{ok}
use fastapi_polyrepo_templat.Models.{FeatureFlag}
use fastapi_polyrepo_templat.World.{World}
use fastapi_polyrepo_templat.Sample.{libraries, healthy}
use fastapi_polyrepo_templat.Sample.Lawful.{contracts, expiry, IsUp-healthy}
use fastapi_polyrepo_templat.Service.{cache_key, get_flag, set_flag}
use fastapi_polyrepo_templat.Service.Reading.{answer}
use fastapi_polyrepo_templat.Service.Coherence.{row_of}
use fastapi_polyrepo_templat.Service.ReadAfterWrite.{written_flag}
use fastapi_polyrepo_templat.Service.Overlap.{overlapped_read, writing, overlapped_read_is_stale}
use fastapi_polyrepo_templat.Service.Histories.{
  Returned, Anything, later, Reach, here, next, read, write, wait, read_after_history,
}
use fastapi_polyrepo_templat.Service.Staleness.{IsShortLived, staleness_bound}
use fastapi_polyrepo_templat.Tests.Service.{
  config, ann, bob, dark_mode, start, IsCoherent-start, run, set_flag_runs,
}

-- A write by ann, ten seconds, and a read by bob.
abbrev written : World (libraries healthy)
written = (set_flag (libraries healthy) config dark_mode false ann start).1

abbrev waited : World (libraries healthy)
waited = later (libraries healthy) (contracts healthy) expiry config 10 written

abbrev read_by_bob : World (libraries healthy)
read_by_bob = (get_flag (libraries healthy) config dark_mode bob waited).1

Returned-history :
    Reach (libraries healthy) (contracts healthy) expiry config Returned start read_by_bob
Returned-history =
    next
      (next
        (next here (write dark_mode false ann (written_flag dark_mode false 5 ann, set_flag_runs)))
        (wait 10))
      (read dark_mode bob)

read_after_history_example :
    (get_flag (libraries healthy) config dark_mode ann read_by_bob).0
    ≡ answer dark_mode
        (row_of (libraries healthy) (contracts healthy) read_by_bob (codes "t") dark_mode)
read_after_history_example =
    read_after_history (libraries healthy) (contracts healthy) expiry config start read_by_bob
      dark_mode ann IsUp-healthy IsCoherent-start Returned-history

Anything-history :
    Reach (libraries healthy) (contracts healthy) expiry config Anything start read_by_bob
Anything-history =
    next (next (next here (write dark_mode false ann tt)) (wait 10)) (read dark_mode bob)

IsShortLived-start : IsShortLived (libraries healthy) (contracts healthy) expiry config start
IsShortLived-start = record { at = λ k. omega arith }

staleness_bound_example :
    (get_flag
      (libraries healthy)
      config
      dark_mode
      ann
      (later (libraries healthy) (contracts healthy) expiry config 300 read_by_bob)).0
    ≡ answer dark_mode
        (row_of (libraries healthy) (contracts healthy) read_by_bob (codes "t") dark_mode)
staleness_bound_example =
    staleness_bound (libraries healthy) (contracts healthy) expiry config start read_by_bob
      dark_mode ann IsUp-healthy IsShortLived-start Anything-history

-- The flag of bob's row.
abbrev old : FeatureFlag
old = record { name = dark_mode; enabled = true; updated_at = 1; updated_by_user_id = codes "bob" }

old-answer :
    answer dark_mode (row_of (libraries healthy) (contracts healthy) start (codes "t") dark_mode)
    ≡ ok old
unfolding run
old-answer = refl

-- What an overlapping write by ann leaves behind.
abbrev overlapped : World (libraries healthy)
overlapped =
    (overlapped_read (libraries healthy) config
      (writing (libraries healthy) config dark_mode false ann) (cache_key (codes "t") dark_mode)
      dark_mode bob start).1

overlapped_read_is_stale_example :
    ((get_flag (libraries healthy) config dark_mode bob overlapped).0 ≡ ok old)
    × (answer dark_mode
          (row_of (libraries healthy) (contracts healthy) overlapped (codes "t") dark_mode)
        ≡ ok (written_flag dark_mode false 5 ann))
overlapped_read_is_stale_example =
    overlapped_read_is_stale (libraries healthy) (contracts healthy) config dark_mode bob ann false
      start old IsUp-healthy IsCoherent-start (λ e. cc) (λ e. cc) refl old-answer
