-- ===== src/Logger/Json/Strings.antt =====
-- The strings of `json.dumps(..., ensure_ascii=False)` and the reader of a JSON string.
use fastapi_polyrepo_templat.Prelude.{
  ℕ, suc, zero, ◌/◌, ◌%◌, ◌<◌, ◌≤◌, ◌≡◌, refl, ap, ◌∙◌, some, [], ◌∷◌, ◌++◌, Text, length,
  append_assoc, length-append, All, arith, codes, ◌==◌, ◌⊎◌, inl, inr, ◌≢◌, if◌then◌else◌,
}
use fastapi_polyrepo_templat.Logger.Json.{
  hex_digit, escape_char, escape_text, hex_value, read_hex, read_escape, put, read_chars, ◌>>=◌,
}

hex_value-hex_digit : (d : ℕ) → d < 16 → hex_value (hex_digit d) ≡ some d
unfolding hex_value hex_digit
hex_value-hex_digit d h = ground arith

read_hex-control :
    (c : ℕ) (r : Text)
    → c < 32
    → read_hex (48 ∷ 48 ∷ hex_digit (c / 16) ∷ hex_digit (c % 16) ∷ r) ≡ some (c, r)
unfolding read_hex
read_hex-control c r h =
    rw (hex_value-hex_digit (c / 16) (omega arith), hex_value-hex_digit (c % 16) (omega arith))
      (ap (λ n. some (n, r)) (omega arith))

read_chars-escape :
    (f : ℕ) (s : Text)
    → read_chars (suc f) (b'\\' ∷ s) ≡ (read_escape s >>= λ d r. put d (read_chars f r))
unfolding read_chars
read_chars-escape f s = refl

read_chars-plain :
    (f c : ℕ) (r : Text)
    → 32 ≤ c
    → c ≢ b'"'
    → c ≢ b'\\'
    → read_chars (suc f) (c ∷ r) ≡ put c (read_chars f r)
unfolding read_chars
read_chars-plain f c r h q b = ground arith

escape_char-plain : (c : ℕ) → 32 ≤ c → c ≢ b'"' → c ≢ b'\\' → escape_char c ≡ c ∷ []
unfolding escape_char
escape_char-plain c h q b = ground arith

escaped : ℕ → Text
escaped c =
    if c == b'"'
    then codes "\""
    else (if c == b'\\'
        then codes "\\"
        else (if c == 10
            then codes "n"
            else (if c == 13
                then codes "r"
                else (if c == 9
                    then codes "t"
                    else (if c == 12
                        then codes "f"
                        else (if c == 8
                            then codes "b"
                            else codes "u00" ++ (hex_digit (c / 16) ∷ hex_digit (c % 16) ∷ [])))))))

escape_char-escaped :
    (c : ℕ) → (c < 32) ⊎ ((c ≡ b'"') ⊎ (c ≡ b'\\')) → escape_char c ≡ b'\\' ∷ escaped c
unfolding escape_char escaped
escape_char-escaped c h = ground arith

read_escape-escaped :
    (c : ℕ) (r : Text)
    → (c < 32) ⊎ ((c ≡ b'"') ⊎ (c ≡ b'\\'))
    → read_escape (escaped c ++ r) ≡ some (c, r)
unfolding read_escape escaped
read_escape-escaped c r h = ground (arith, read_hex-control c r)

read_chars_step :
    (f c : ℕ) (r : Text) → read_chars (suc f) (escape_char c ++ r) ≡ put c (read_chars f r)
read_chars_step f c r = elim (escaped_or_plain c) [
  | inl h ↦ rw (escape_char-escaped c h) (
      read_chars-escape f (escaped c ++ r)
      ∙ ap (λ n. n >>= λ d r. put d (read_chars f r)) (read_escape-escaped c r h))
  | inr (h, (q, b)) ↦ rw (escape_char-plain c h q b) (read_chars-plain f c r h q b)
]
  where
    escaped_or_plain :
        (c : ℕ) → ((c < 32) ⊎ ((c ≡ b'"') ⊎ (c ≡ b'\\'))) ⊎ ((32 ≤ c) × ((c ≢ b'"') × (c ≢ b'\\')))
    escaped_or_plain c = ground arith

read_chars-closing : (f : ℕ) (rest : Text) → read_chars (suc f) (b'"' ∷ rest) ≡ some ([], rest)
unfolding read_chars
read_chars-closing f rest = refl

-- The string ends where its closing quote stands.
pub read_chars-escape_text :
    (f : ℕ) (s rest : Text)
    → length s < f
    → read_chars f (escape_text s ++ (b'"' ∷ rest)) ≡ some (s, rest)
unfolding escape_text
read_chars-escape_text zero s rest h = absurd (omega arith)
read_chars-escape_text (suc f) [] rest h = read_chars-closing f rest
read_chars-escape_text (suc f) (c ∷ s) rest h =
    ap (read_chars (suc f)) (append_assoc (escape_char c) (escape_text s) (b'"' ∷ rest))
    ∙ read_chars_step f c (escape_text s ++ (b'"' ∷ rest))
    ∙ ap (put c) (read_chars-escape_text f s rest (omega arith))

length-escape_char : (c : ℕ) → 1 ≤ length (escape_char c)
unfolding escape_char
length-escape_char c = ground arith

-- A string is at most as long as its escaped form.
pub length-escape_text : (s : Text) → length s ≤ length (escape_text s)
unfolding escape_text
length-escape_text [] = omega arith
length-escape_text (c ∷ s) = omega (
  arith,
  length-append (escape_char c) (escape_text s),
  length-escape_char c,
  length-escape_text s,
)

abbrev pub IsPrinting : ℕ → Type 0
IsPrinting c = 32 ≤ c

pub escape_char-IsPrinting : (c : ℕ) → All IsPrinting (escape_char c)
unfolding escape_char
escape_char-IsPrinting c = ground arith
