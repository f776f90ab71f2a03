-- ===== src/Tests/Logs.antt =====
-- Records through the bridges and the processors, and a version of the distribution.
use fastapi_polyrepo_templat.Prelude.{
  ◌≡◌, inl, refl, none, some, [], ◌∷◌, Text, codes, strip, starts_with, text_eq, is_empty, is_space,
  arith,
}
use fastapi_polyrepo_templat.Effects.{Result, ok, err, os_error, package_not_found, pure}
use fastapi_polyrepo_templat.World.{World, App}
use fastapi_polyrepo_templat.Sample.{libraries, world, healthy}
use fastapi_polyrepo_templat.Distribution.{
  PthDistribution, ends_with, splitlines, installed_app_version,
}
use fastapi_polyrepo_templat.Distribution.Versions.{
  Points, IsIntact, installed_app_version_editable,
}

abbrev quiet : World (libraries healthy)
quiet = world healthy []

abbrev handle_error : App (libraries healthy) Unit
handle_error = pure tt

abbrev started_server : Text
started_server = codes "Started server"

-- Another package, and an editable install of /src.
abbrev other : PthDistribution
other = record { version = codes "9"; files = none; read = λ file. err os_error }

abbrev editable : PthDistribution
editable = record {
  version = codes "1.0";
  files = some (codes "a.pth" ∷ []);
  read = λ file. ok (codes "/src");
}

abbrev resolve : Text → Text
resolve path = path

abbrev version_for : Text → Result Text
version_for name = err (package_not_found name)

IsIntact-other : IsIntact resolve (codes "/src") other
IsIntact-other file exc e = ground arith

IsIntact-editable : IsIntact resolve (codes "/src") editable
IsIntact-editable file exc e = ground arith

editable-Points : Points resolve (codes "/src") editable
unfolding ends_with splitlines strip is_space is_empty starts_with text_eq
editable-Points = inl (refl, (codes "/src", (refl, inl (refl, refl, refl))))

installed_app_version_editable_example :
    (installed_app_version resolve
        (codes "app")
        none
        version_for
        (other ∷ editable ∷ other ∷ [])
        (codes "/src")
      ≡ ok (codes "1.0"))
    × (installed_app_version resolve (codes "app") none version_for (other ∷ []) (codes "/src")
        ≡ err (package_not_found (codes "app")))
installed_app_version_editable_example =
    installed_app_version_editable resolve (codes "/src") (codes "app") version_for (other ∷ [])
      (other ∷ []) editable (IsIntact-other, tt) ((λ p. p), tt) IsIntact-editable editable-Points
