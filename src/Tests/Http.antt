-- ===== src/Tests/Http.antt =====
-- Requests through the routes.
use fastapi_polyrepo_templat.Prelude.{codes, is_space, arith, IsBlank}

pub tenant-not-IsBlank : ¬ IsBlank (codes " t")
unfolding is_space
tenant-not-IsBlank (e, (f, h)) = ground arith

pub user-not-IsBlank : ¬ IsBlank (codes "ann")
unfolding is_space
user-not-IsBlank (e, h) = ground arith
