-- ===== src/Distribution.antt =====
-- src/app/distribution/installed_app_version.py. The file system and the catalog of distributions
-- are parameters.
pub mod Versions
use fastapi_polyrepo_templat.Prelude.{
  ℕ, Bool, true, false, not, ◌&&◌, ◌||◌, ◌==◌, leb, Option, none, some, List, [], ◌∷◌, ◌++◌, Text,
  codes, text_eq, strip, is_empty, starts_with, if◌then◌else◌,
}
use fastapi_polyrepo_templat.Effects.{BaseException, package_not_found, os_error, Result, ok, err}

-- `read` is `Path(…).read_text(encoding="utf-8")` of what `locate_file` gives for a recorded path.
pub record PthDistribution : Type 0 where
  pub version : Text
  pub files : Option (List Text)
  pub read : Text → Result Text

-- `s.endswith(suffix)`
unfoldable pub ends_with : Text → Text → Bool
ends_with suffix [] = text_eq suffix []
ends_with suffix (c ∷ s) = text_eq suffix (c ∷ s) || ends_with suffix s

-- The line boundaries of `str.splitlines`.
is_line_break : ℕ → Bool
is_line_break c =
    (leb 10 c && leb c 13) || (leb 28 c && leb c 30) || (c == 133) || (c == 8232) || (c == 8233)

first_line : ℕ → List Text → List Text
first_line c [] = (c ∷ []) ∷ []
first_line c (line ∷ lines) = (c ∷ line) ∷ lines

-- The line in front of a break; a carriage return and the line feed behind it are one break.
unfoldable pub splitlines : Text → List Text
unfolding is_line_break first_line
splitlines [] = []
splitlines (c ∷ []) = if is_line_break c then [] ∷ [] else (c ∷ []) ∷ []
splitlines (c ∷ d ∷ s) =
    let rest = splitlines (d ∷ s) in
    let after_feed = splitlines s in
    if (c == 13) && (d == 10)
    then [] ∷ after_feed
    else (if is_line_break c then [] ∷ rest else first_line c rest)

-- The lines of a `.pth`, with `resolve` for `Path(…).resolve()`.
unfoldable pub any_line : (Text → Text) → Text → List Text → Bool
unfolding is_empty
any_line resolve src_dir [] = false
any_line resolve src_dir (line ∷ lines) =
    let rest = any_line resolve src_dir lines in
    if is_empty (strip line) || starts_with (codes "#") (strip line)
    then rest
    else (if text_eq (resolve (strip line)) src_dir then true else rest)

-- The loop over the files: one that cannot be read is passed over, any other exception leaves.
abbrev pub read_then : Result Text → (Text → Bool) → Result Bool → Result Bool
read_then (ok content) names rest = if names content then ok true else rest
read_then (err os_error) names rest = rest
read_then (err exc) names rest = err exc

unfoldable pub any_pth : (Text → Text) → Text → (Text → Result Text) → List Text → Result Bool
unfolding any_line splitlines
any_pth resolve src_dir read [] = ok false
any_pth resolve src_dir read (file ∷ files) =
    let rest = any_pth resolve src_dir read files in
    if not (ends_with (codes ".pth") file)
    then rest
    else read_then (read file) (λ content. any_line resolve src_dir (splitlines content)) rest

-- `dist.files or ()`
abbrev pub recorded : PthDistribution → List Text
recorded dist = elim dist.files [ none ↦ [] | some files ↦ files ]

unfoldable pub pth_points_at_src : (Text → Text) → PthDistribution → Text → Result Bool
unfolding any_pth
pth_points_at_src resolve dist src_dir = any_pth resolve src_dir dist.read (recorded dist)

abbrev pub found_then : Result Bool → Text → Result Text → Result Text
found_then (ok found) version rest = if found then ok version else rest
found_then (err exc) version rest = err exc

unfoldable pub first_pointing : (Text → Text) → Text → Text → List PthDistribution → Result Text
unfolding pth_points_at_src
first_pointing resolve import_name src_dir [] = err (package_not_found import_name)
first_pointing resolve import_name src_dir (dist ∷ dists) =
    let rest = first_pointing resolve import_name src_dir dists in
    found_then (pth_points_at_src resolve dist src_dir) dist.version rest

-- `mapped` is `names.get(import_name)`.
unfoldable pub installed_app_version :
    (Text → Text)
    → Text
    → Option (List Text)
    → (Text → Result Text)
    → List PthDistribution
    → Text
    → Result Text
unfolding first_pointing
installed_app_version resolve import_name none version_for dists src_dir =
    first_pointing resolve import_name src_dir dists
installed_app_version resolve import_name (some []) version_for dists src_dir =
    first_pointing resolve import_name src_dir dists
installed_app_version resolve import_name (some (name ∷ names)) version_for dists src_dir =
    version_for name
