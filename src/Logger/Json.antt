-- ===== src/Logger/Json.antt =====
-- `json.dumps(event_dict, ensure_ascii=False)`, as LogManager._serialize of
-- src/app/logger/log_manager.py calls it, and a reader of such objects. `fallback` is the text that
-- structlog's JSONRenderer gives for a value json cannot print.
pub mod Strings
pub mod Values
pub mod Objects
use fastapi_polyrepo_templat.Prelude.{
  ℕ, zero, suc, ◌+◌, ◌*◌, ◌-◌, ◌/◌, ◌%◌, ltb, leb, ◌==◌, ◌&&◌, ◌||◌, Bool, true, false, Option,
  none, some, List, [], ◌∷◌, ◌++◌, Text, codes, if◌then◌else◌, length,
}
use fastapi_polyrepo_templat.Effects.{BaseException}
use fastapi_polyrepo_templat.World.{LogValue, text, boolean, exception, null}
use fastapi_polyrepo_templat.Logger.LogManager.{EventDict}

hex_digit : ℕ → ℕ
hex_digit d = if ltb d 10 then b'0' + d else 87 + d

-- The escapes of `json.encoder.ESCAPE`.
unfoldable pub escape_char : ℕ → Text
unfolding hex_digit
escape_char c =
    if c == b'"'
    then codes "\\\""
    else (if c == b'\\'
        then codes "\\\\"
        else (if c == 10
            then codes "\\n"
            else (if c == 13
                then codes "\\r"
                else (if c == 9
                    then codes "\\t"
                    else (if c == 12
                        then codes "\\f"
                        else (if c == 8
                            then codes "\\b"
                            else (if ltb c 32
                                then codes "\\u00" ++ (hex_digit (c / 16) ∷ hex_digit (c % 16) ∷ [])
                                else c ∷ [])))))))

unfoldable pub escape_text : Text → Text
unfolding escape_char
escape_text [] = []
escape_text (c ∷ s) = escape_char c ++ escape_text s

unfoldable pub print_text : Text → Text
unfolding escape_text
print_text s = b'"' ∷ (escape_text s ++ b'"' ∷ [])

unfoldable pub print_value : (BaseException → Text) → LogValue → Text
unfolding print_text
print_value fallback (text s) = print_text s
print_value fallback (boolean true) = codes "true"
print_value fallback (boolean false) = codes "false"
print_value fallback (exception exc) = print_text (fallback exc)
print_value fallback null = codes "null"

-- The members, from the first one or behind one.
unfoldable pub print_members : (BaseException → Text) → Bool → EventDict → Text
unfolding print_value
print_members fallback first [] = codes "}"
print_members fallback first ((k, v) ∷ d) =
    (if first then [] else codes ", ")
    ++ (print_text k ++ (codes ": " ++ (print_value fallback v ++ print_members fallback false d)))

unfoldable pub dumps : (BaseException → Text) → EventDict → Text
unfolding print_members
dumps fallback d = b'{' ∷ print_members fallback true d

-- The reader: a parser gives what it read and the rest.
abbrev pub Parser : Type 0 → Type 0
Parser A = Text → Option (A × Text)

infixl 1 ◌>>=◌
abbrev pub ◌>>=◌ : {A B : Type 0} → Option (A × Text) → (A → Parser B) → Option (B × Text)
none >>= f = none
some (a, s) >>= f = f a s

unfoldable pub hex_value : ℕ → Option ℕ
hex_value c =
    if leb b'0' c && leb c b'9'
    then some (c - b'0')
    else (if leb b'a' c && leb c b'f'
        then some (c - 87)
        else (if leb b'A' c && leb c b'F' then some (c - 55) else none))

-- One more digit of a number.
abbrev shift_in : Option ℕ → Option ℕ → Option ℕ
shift_in (some n) (some d) = some (n * 16 + d)
shift_in _ _ = none

abbrev with_rest : Option ℕ → Text → Option (ℕ × Text)
with_rest none s = none
with_rest (some n) s = some (n, s)

read_hex : Parser ℕ
unfolding hex_value
read_hex (a ∷ b ∷ c ∷ d ∷ s) =
    with_rest
      (shift_in (shift_in (shift_in (hex_value a) (hex_value b)) (hex_value c)) (hex_value d)) s
read_hex _ = none

-- What stands behind a backslash.
unfoldable pub read_escape : Parser ℕ
unfolding read_hex
read_escape [] = none
read_escape (e ∷ s) =
    if (e == b'"') || (e == b'\\') || (e == b'/')
    then some (e, s)
    else (if e == b'n'
        then some (10, s)
        else (if e == b'r'
            then some (13, s)
            else (if e == b't'
                then some (9, s)
                else (if e == b'f'
                    then some (12, s)
                    else (if e == b'b'
                        then some (8, s)
                        else (if e == b'u' then read_hex s else none))))))

abbrev put : ℕ → Option (Text × Text) → Option (Text × Text)
put c none = none
put c (some (t, s)) = some (c ∷ t, s)

-- The rest of a string, behind its opening quote.
unfoldable pub read_chars : ℕ → Parser Text
unfolding read_escape
read_chars zero s = none
read_chars (suc f) [] = none
read_chars (suc f) (c ∷ s) =
    let escaped = read_escape s >>= λ d r. put d (read_chars f r) in
    let plain = put c (read_chars f s) in
    if c == b'"'
    then some ([], s)
    else (if c == b'\\' then escaped else (if ltb c 32 then none else plain))

-- The white space of JSON is passed over.
unfoldable pub skip_spaces : Text → Text
skip_spaces [] = []
skip_spaces (c ∷ s) =
    let rest = skip_spaces s in
    if (c == 32) || (c == 9) || (c == 10) || (c == 13) then rest else c ∷ s

-- The text behind a prefix.
unfoldable pub strip_prefix : Text → Text → Option Text
strip_prefix [] s = some s
strip_prefix (p ∷ ps) [] = none
strip_prefix (p ∷ ps) (c ∷ s) = let rest = strip_prefix ps s in if p == c then rest else none

abbrev expect : Text → Parser (Unit {0})
expect prefix s = elim (strip_prefix prefix (skip_spaces s)) [ none ↦ none | some r ↦ some (tt, r) ]

unfoldable pub read_text : ℕ → Parser Text
unfolding read_chars skip_spaces strip_prefix
read_text f s = expect (codes "\"") s >>= λ _. read_chars f

abbrev or_else : {A : Type 0} → Option (A × Text) → Option (A × Text) → Option (A × Text)
or_else none q = q
or_else (some r) q = some r

unfoldable pub read_value : ℕ → Parser LogValue
unfolding read_text
read_value f s = or_else (read_text f s >>= λ t r. some (text t, r)) (
    or_else (expect (codes "true") s >>= λ _ r. some (boolean true, r)) (
      or_else (expect (codes "false") s >>= λ _ r. some (boolean false, r))
        (expect (codes "null") s >>= λ _ r. some (null, r))))

-- A member, and what the second parser reads behind it.
unfoldable pub read_member : ℕ → Parser EventDict → Parser EventDict
unfolding read_value
read_member f more s = read_text f s >>= λ k r1. expect (codes ":") r1 >>= λ _ r2.
    read_value f r2 >>= λ v r3. more r3 >>= λ d r4. some ((k, v) ∷ d, r4)

-- The members behind the opening brace, or behind a member.
unfoldable pub read_members : ℕ → Bool → Parser EventDict
unfolding read_member
read_members zero first s = none
read_members (suc f) first s =
    let behind_comma = if first then some (tt, s) else expect (codes ",") s in
    or_else (expect (codes "}") s >>= λ _ r. some ([], r))
      (behind_comma >>= λ _ r. read_member f (read_members f false) r)

-- The object of a text, and nothing behind it.
abbrev whole : {A : Type 0} → Option (A × Text) → Option A
whole (some (a, [])) = some a
whole _ = none

unfoldable pub loads : Text → Option EventDict
unfolding read_members
loads s = whole (expect (codes "{") s >>= λ _ r. read_members (length s) true r)
