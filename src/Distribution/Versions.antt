-- ===== src/Distribution/Versions.antt =====
-- Which distribution src/app/distribution/installed_app_version.py takes the version from.
use fastapi_polyrepo_templat.Prelude.{
  ◌≡◌, ◌↔◌, ◌⊎◌, refl, true, false, none, List, [], ◌∷◌, ◌++◌, Text, codes, text_eq_iff, strip,
  is_empty, starts_with, All, arith,
}
use fastapi_polyrepo_templat.Effects.{BaseException, package_not_found, os_error, Result, ok, err}
use fastapi_polyrepo_templat.Distribution.{
  PthDistribution, ends_with, splitlines, any_line, any_pth, pth_points_at_src, recorded,
  first_pointing, installed_app_version,
}

-- An element of the list has the property.
abbrev pub Any : {A : Type 0} → (A → Type 0) → List A → Type 0
Any P [] = ⊥
Any P (x ∷ xs) = P x ⊎ Any P xs

module _ (resolve : Text → Text) (src_dir : Text) where
  -- A line that is neither blank nor a comment, and names the directory.
  abbrev pub IsNaming : Text → Type 0
  IsNaming line =
      (is_empty (strip line) ≡ false)
      × (starts_with (codes "#") (strip line) ≡ false)
      × (resolve (strip line) ≡ src_dir)

  any_line_iff : (lines : List Text) → (any_line resolve src_dir lines ≡ true) ↔ Any IsNaming lines
  unfolding any_line
  any_line_iff [] = ground arith
  any_line_iff (line ∷ lines) =
      ground (arith, any_line_iff lines, text_eq_iff (resolve (strip line)) src_dir)

  -- A `.pth` of the distribution that can be read and has such a line.
  abbrev pub IsPointing : (Text → Result Text) → Text → Type 0
  IsPointing read file =
      (ends_with (codes ".pth") file ≡ true)
      × ((content : Text) × ((read file ≡ ok content) × Any IsNaming (splitlines content)))

  -- Reading fails with an OSError or not at all.
  abbrev pub IsReadable : (Text → Result Text) → Text → Type 0
  IsReadable read file = (exc : BaseException) → read file ≡ err exc → exc ≡ os_error

  any_pth_iff :
      (read : Text → Result Text) (files : List Text)
      → ((file : Text) → IsReadable read file)
      → ((any_pth resolve src_dir read files ≡ ok true) ↔ Any (IsPointing read) files)
        × ((any_pth resolve src_dir read files ≡ ok true)
            ⊎ (any_pth resolve src_dir read files ≡ ok false))
  unfolding any_pth
  any_pth_iff read [] h = (ground arith, ground arith)
  any_pth_iff read (file ∷ files) h = by_read (any_pth_iff read files h) (read file) refl
    where
      by_read :
          ((any_pth resolve src_dir read files ≡ ok true) ↔ Any (IsPointing read) files)
            × ((any_pth resolve src_dir read files ≡ ok true)
                ⊎ (any_pth resolve src_dir read files ≡ ok false))
          → (r : Result Text) → read file ≡ r
          → ((any_pth resolve src_dir read (file ∷ files) ≡ ok true)
              ↔ Any (IsPointing read) (file ∷ files))
            × ((any_pth resolve src_dir read (file ∷ files) ≡ ok true)
                ⊎ (any_pth resolve src_dir read (file ∷ files) ≡ ok false))
      by_read rest (ok content) e = ground (arith, any_line_iff (splitlines content))
      by_read rest (err exc) e = ground (arith, h file exc)

  -- The distribution is an editable install of the directory.
  abbrev pub Points : PthDistribution → Type 0
  Points dist = Any (IsPointing dist.read) (recorded dist)

  -- Its files can be read, or fail with an OSError.
  abbrev pub IsIntact : PthDistribution → Type 0
  IsIntact dist = (file : Text) → IsReadable dist.read file

  pub pth_points_at_src_iff :
      (dist : PthDistribution)
      → IsIntact dist
      → ((pth_points_at_src resolve dist src_dir ≡ ok true) ↔ Points dist)
        × ((pth_points_at_src resolve dist src_dir ≡ ok true)
            ⊎ (pth_points_at_src resolve dist src_dir ≡ ok false))
  unfolding pth_points_at_src
  pth_points_at_src_iff dist h = any_pth_iff dist.read (recorded dist) h

  first_pointing_found :
      (import_name : Text) (before after : List PthDistribution) (dist : PthDistribution)
      → All IsIntact before
      → All (λ d. ¬ Points d) before
      → IsIntact dist
      → Points dist
      → first_pointing resolve import_name src_dir (before ++ dist ∷ after) ≡ ok dist.version
  unfolding first_pointing
  first_pointing_found import_name [] after dist hs ns h p =
      ground (arith, pth_points_at_src_iff dist h)
  first_pointing_found import_name (d ∷ before) after dist hs ns h p = ground (
    arith,
    pth_points_at_src_iff d hs.0,
    first_pointing_found import_name before after dist hs.1 ns.1 h p,
  )

  first_pointing_not_found :
      (import_name : Text) (dists : List PthDistribution)
      → All IsIntact dists
      → All (λ d. ¬ Points d) dists
      → first_pointing resolve import_name src_dir dists ≡ err (package_not_found import_name)
  unfolding first_pointing
  first_pointing_not_found import_name [] hs ns = refl
  first_pointing_not_found import_name (d ∷ dists) hs ns =
      ground
        (arith, pth_points_at_src_iff d hs.0, first_pointing_not_found import_name dists hs.1 ns.1)

  -- Without a wheel that provides the import, if the first distribution with a .pth that names
  -- the directory is known, and the files up to it can be read or fail with an OSError, the
  -- version is that of this distribution, whatever stands behind it in the catalog; of the
  -- distributions in front of it alone, the outcome is PackageNotFoundError.
  pub installed_app_version_editable :
      (import_name : Text) (version_for : Text → Result Text) (before after : List PthDistribution)
      (dist : PthDistribution)
      → All IsIntact before
      → All (λ d. ¬ Points d) before
      → IsIntact dist
      → Points dist
      → (installed_app_version resolve import_name none version_for (before ++ dist ∷ after) src_dir
          ≡ ok dist.version)
        × (installed_app_version resolve import_name none version_for before src_dir
            ≡ err (package_not_found import_name))
  unfolding installed_app_version
  installed_app_version_editable import_name version_for before after dist hs ns h p = (
    first_pointing_found import_name before after dist hs ns h p,
    first_pointing_not_found import_name before hs ns,
  )
