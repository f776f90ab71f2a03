-- ===== src/Repr.antt =====
-- `repr` of a Python text, and the message of src/app/services/feature_flag/feature_flag_errors.py
-- that uses it.
use fastapi_polyrepo_templat.Prelude.{
  ℕ, zero, suc, ◌+◌, ◌/◌, ◌%◌, ◌≡◌, refl, ltb, ◌==◌, ◌&&◌, ◌||◌, not, Bool, false, [], ◌∷◌, ◌++◌,
  Text, codes, if◌then◌else◌,
}

has : ℕ → Text → Bool
has c [] = false
has c (d ∷ s) = (c == d) || has c s

hex_digit : ℕ → ℕ
hex_digit d = if ltb d 10 then b'0' + d else 87 + d

-- `n` in `k` hexadecimal digits.
hex_digits : ℕ → ℕ → Text
unfolding hex_digit
hex_digits zero n = []
hex_digits (suc k) n = hex_digits k (n / 16) ++ hex_digit (n % 16) ∷ []

escaped : (ℕ → Bool) → ℕ → ℕ → Text
unfolding hex_digits
escaped printable quote c =
    if (c == quote) || (c == b'\\')
    then b'\\' ∷ c ∷ []
    else if c == 9
    then codes "\\t"
    else if c == 10
    then codes "\\n"
    else if c == 13
    then codes "\\r"
    else if ltb c 32 || (c == 127)
    then codes "\\x" ++ hex_digits 2 c
    else if ltb c 127 || printable c
    then c ∷ []
    else if ltb c 256
    then codes "\\x" ++ hex_digits 2 c
    else if ltb c 65536
    then codes "\\u" ++ hex_digits 4 c
    else codes "\\U" ++ hex_digits 8 c

escape_all : (ℕ → Bool) → ℕ → Text → Text
escape_all printable quote [] = []
escape_all printable quote (c ∷ s) = escaped printable quote c ++ escape_all printable quote s

-- Double quotes are chosen if the text holds single quotes and no double ones.
unfoldable pub repr : (ℕ → Bool) → Text → Text
unfolding has escape_all escaped
repr printable s =
    let quote = if has 39 s && not (has 34 s) then 34 else 39 in
    quote ∷ (escape_all printable quote s ++ quote ∷ [])

-- `str(FeatureFlagNotFoundError(name))`
unfoldable pub not_found_message : (ℕ → Bool) → Text → Text
unfolding repr
not_found_message printable name =
    codes "Feature flag " ++ (repr printable name ++ codes " does not exist.")

messages :
    (not_found_message (λ c. false) (codes "dark\nmode")
      ≡ codes "Feature flag 'dark\\nmode' does not exist.")
    × (not_found_message (λ c. false) (codes "it's")
        ≡ codes "Feature flag \"it's\" does not exist.")
    × (repr (λ c. false) (233 ∷ []) ≡ codes "'\\xe9'")
unfolding not_found_message
messages = (refl, refl, refl)
