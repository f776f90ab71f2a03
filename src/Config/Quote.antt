-- ===== src/Config/Quote.antt =====
-- `urllib.parse.quote(text, safe="")`, as the connection URLs of src/app/config use it: the bytes
-- of UTF-8, and a percent escape for each that is not unreserved. The texts are those UTF-8 can
-- encode: code points below 0x110000.
use fastapi_polyrepo_templat.Prelude.{
  ℕ, ◌+◌, ◌/◌, ◌%◌, ◌<◌, ◌≡◌, ◌≢◌, ◌⊎◌, refl, sym, Bool, true, false, ◌||◌, ◌&&◌, ◌==◌, leb, ltb,
  List, [], ◌∷◌, ◌++◌, Text, All, All-append, if◌then◌else◌, arith,
}
use fastapi_polyrepo_templat.Utf8.{encode, IsCodePoint, IsByte, encode-IsByte, encode-injective}

-- The letters, the digits and `_.-~`
unfoldable pub is_unreserved : ℕ → Bool
is_unreserved b =
    (leb b'A' b && leb b b'Z')
    || (leb b'a' b && leb b b'z')
    || (leb b'0' b && leb b b'9')
    || (b == b'_')
    || (b == b'.')
    || (b == b'-')
    || (b == b'~')

upper_hex_digit : ℕ → ℕ
upper_hex_digit d = if ltb d 10 then b'0' + d else 55 + d

quote_byte : ℕ → Text
quote_byte b =
    if is_unreserved b
    then b ∷ []
    else b'%' ∷ upper_hex_digit (b / 16) ∷ upper_hex_digit (b % 16) ∷ []

quote_bytes : List ℕ → Text
quote_bytes [] = []
quote_bytes (b ∷ bs) = quote_byte b ++ quote_bytes bs

unfoldable pub quote : Text → Text
unfolding quote_bytes encode quote_byte is_unreserved upper_hex_digit
quote s = quote_bytes (encode s)

-- A character of an escaped text: no `:`, `/`, `@`, `?` or `#`.
abbrev pub IsQuoted : ℕ → Type 0
IsQuoted c = (is_unreserved c ≡ true) ⊎ (c ≡ b'%')

upper_hex_digit-injective :
    (d e : ℕ) → d < 16 → e < 16 → upper_hex_digit d ≡ upper_hex_digit e → d ≡ e
unfolding upper_hex_digit
upper_hex_digit-injective d e h k same = ground arith

percent : is_unreserved b'%' ≡ false
unfolding is_unreserved
percent = refl

quote_byte-injective :
    (b c : ℕ) (s t : Text)
    → IsByte b
    → IsByte c
    → quote_byte b ++ s ≡ quote_byte c ++ t
    → (b ≡ c) × (s ≡ t)
unfolding quote_byte
quote_byte-injective b c s t h k e = ground (
  arith,
  percent,
  upper_hex_digit-injective (b / 16) (c / 16),
  upper_hex_digit-injective (b % 16) (c % 16),
)

quote_byte-ne-nil : (b : ℕ) (s : Text) → quote_byte b ++ s ≢ []
unfolding quote_byte
quote_byte-ne-nil b s = ground arith

quote_bytes-injective :
    (s t : List ℕ) → All IsByte s → All IsByte t → quote_bytes s ≡ quote_bytes t → s ≡ t
unfolding quote_bytes
quote_bytes-injective [] [] h k e = refl
quote_bytes-injective [] (d ∷ t) h k e = absurd (quote_byte-ne-nil d (quote_bytes t) (sym e))
quote_bytes-injective (c ∷ s) [] h k e = absurd (quote_byte-ne-nil c (quote_bytes s) e)
quote_bytes-injective (c ∷ s) (d ∷ t) h k e =
    let (same, rest) = quote_byte-injective c d (quote_bytes s) (quote_bytes t) h.0 k.0 e in
    let tails : s ≡ t = quote_bytes-injective s t h.1 k.1 rest in cc (same, tails)

-- Different texts have different escaped forms.
pub quote-injective :
    (s t : Text) → All IsCodePoint s → All IsCodePoint t → quote s ≡ quote t → s ≡ t
unfolding quote
quote-injective s t h k e =
    encode-injective s t h k
      (quote_bytes-injective (encode s) (encode t) (encode-IsByte s h) (encode-IsByte t k) e)

quote_byte-IsQuoted : (b : ℕ) → IsByte b → All IsQuoted (quote_byte b)
unfolding quote_byte upper_hex_digit is_unreserved
quote_byte-IsQuoted b h = ground arith

quote_bytes-IsQuoted : (s : List ℕ) → All IsByte s → All IsQuoted (quote_bytes s)
unfolding quote_bytes
quote_bytes-IsQuoted [] h = tt
quote_bytes-IsQuoted (b ∷ s) h =
    All-append IsQuoted (quote_byte b) (quote_bytes s) (quote_byte-IsQuoted b h.0)
      (quote_bytes-IsQuoted s h.1)

-- Every character of an escaped form is unreserved or a percent sign.
pub quote-IsQuoted : (s : Text) → All IsCodePoint s → All IsQuoted (quote s)
unfolding quote
quote-IsQuoted s h = quote_bytes-IsQuoted (encode s) (encode-IsByte s h)

-- A delimiter of a URL is in no escaped form, so it splits a text at one place only.
pub IsQuoted-split :
    (d : ℕ) (a b s t : Text)
    → is_unreserved d ≡ false
    → d ≢ b'%'
    → All IsQuoted a
    → All IsQuoted b
    → a ++ d ∷ s ≡ b ++ d ∷ t
    → (a ≡ b) × (s ≡ t)
IsQuoted-split d [] [] s t n m h k e = (refl, ground arith)
IsQuoted-split d [] (y ∷ b) s t n m h k e = absurd (ground arith)
IsQuoted-split d (x ∷ a) [] s t n m h k e = absurd (ground arith)
IsQuoted-split d (x ∷ a) (y ∷ b) s t n m h k e =
    let (same, rest) = IsQuoted-split d a b s t n m h.1 k.1 (ground arith) in (ground arith, rest)
