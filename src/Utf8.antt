-- ===== src/Utf8.antt =====
-- UTF-8: `str.encode("utf-8")` of texts without surrogates, and the reading of one code point. The
-- connection URLs and the log lines are written in it.
use fastapi_polyrepo_templat.Prelude.{
  ℕ, zero, suc, ◌+◌, ◌*◌, ◌-◌, ◌/◌, ◌%◌, ◌<◌, ◌≤◌, ◌≡◌, ◌≢◌, refl, sym, ltb, Option, none, some,
  List, [], ◌∷◌, ◌++◌, Text, All, All-append, if◌then◌else◌, arith, length, length-append, ap, ◌∙◌,
}

unfoldable pub utf8 : ℕ → List ℕ
utf8 c =
    if ltb c 128
    then c ∷ []
    else (if ltb c 2048
        then (192 + c / 64) ∷ (128 + c % 64) ∷ []
        else (if ltb c 65536
            then (224 + c / 4096) ∷ (128 + c / 64 % 64) ∷ (128 + c % 64) ∷ []
            else (240 + c / 262144)
              ∷ (128 + c / 4096 % 64)
              ∷ (128 + c / 64 % 64)
              ∷ (128 + c % 64)
              ∷ []))

unfoldable pub encode : Text → List ℕ
unfolding utf8
encode [] = []
encode (c ∷ s) = utf8 c ++ encode s

abbrev pub IsCodePoint : ℕ → Type 0
IsCodePoint c = c < 1114112

abbrev pub IsByte : ℕ → Type 0
IsByte b = b < 256

utf8-IsByte : (c : ℕ) → IsCodePoint c → All IsByte (utf8 c)
unfolding utf8
utf8-IsByte c h = ground arith

utf8-injective :
    (c d : ℕ) (s t : List ℕ)
    → IsCodePoint c
    → IsCodePoint d
    → utf8 c ++ s ≡ utf8 d ++ t
    → (c ≡ d) × (s ≡ t)
unfolding utf8
utf8-injective c d s t h k e = ground arith

pub encode-IsByte : (s : Text) → All IsCodePoint s → All IsByte (encode s)
unfolding encode
encode-IsByte [] h = tt
encode-IsByte (c ∷ s) h =
    All-append IsByte (utf8 c) (encode s) (utf8-IsByte c h.0) (encode-IsByte s h.1)

utf8-ne-nil : (c : ℕ) (s : List ℕ) → utf8 c ++ s ≢ []
unfolding utf8
utf8-ne-nil c s = ground arith

pub encode-injective :
    (s t : Text) → All IsCodePoint s → All IsCodePoint t → encode s ≡ encode t → s ≡ t
unfolding encode
encode-injective [] [] h k e = refl
encode-injective [] (d ∷ t) h k e = absurd (utf8-ne-nil d (encode t) (sym e))
encode-injective (c ∷ s) [] h k e = absurd (utf8-ne-nil c (encode s) e)
encode-injective (c ∷ s) (d ∷ t) h k e =
    let (same, rest) = utf8-injective c d (encode s) (encode t) h.0 k.0 e in
    let tails : s ≡ t = encode-injective s t h.1 k.1 rest in cc (same, tails)

-- The bytes behind the first one of a sequence, six bits each.
follow : ℕ → ℕ → List ℕ → Option (ℕ × List ℕ)
follow zero high bytes = some (high, bytes)
follow (suc n) high [] = none
follow (suc n) high (b ∷ bytes) = follow n (high * 64 + (b - 128)) bytes

-- The first code point of a list of bytes.
next : List ℕ → Option (ℕ × List ℕ)
unfolding follow
next [] = none
next (b ∷ bytes) =
    if ltb b 128
    then some (b, bytes)
    else (if ltb b 224
        then follow 1 (b - 192) bytes
        else (if ltb b 240 then follow 2 (b - 224) bytes else follow 3 (b - 240) bytes))

abbrev in_front : ℕ → Option Text → Option Text
in_front c none = none
in_front c (some s) = some (c ∷ s)

abbrev decode_rest : Option (ℕ × List ℕ) → (List ℕ → Option Text) → Option Text
decode_rest none rest = none
decode_rest (some (c, bytes)) rest = in_front c (rest bytes)

decode_from : ℕ → List ℕ → Option Text
unfolding next
decode_from f [] = some []
decode_from zero (b ∷ bytes) = none
decode_from (suc f) (b ∷ bytes) = decode_rest (next (b ∷ bytes)) (decode_from f)

-- `bytes.decode("utf-8")` of bytes that are UTF-8. A code point takes a byte at least, so the
-- length is enough fuel.
unfoldable pub decode : List ℕ → Option Text
unfolding decode_from
decode bytes = decode_from (length bytes) bytes

next-utf8 : (c : ℕ) (rest : List ℕ) → IsCodePoint c → next (utf8 c ++ rest) ≡ some (c, rest)
unfolding next utf8
next-utf8 c rest h = ground arith

length-utf8 : (c : ℕ) → 1 ≤ length (utf8 c)
unfolding utf8
length-utf8 c = ground arith

decode_from_step :
    (f : ℕ) (bytes : List ℕ)
    → bytes ≢ []
    → decode_from (suc f) bytes ≡ decode_rest (next bytes) (decode_from f)
unfolding decode_from
decode_from_step f [] n = absurd (n refl)
decode_from_step f (b ∷ bytes) n = refl

decode_from-encode :
    (f : ℕ) (s : Text)
    → All IsCodePoint s
    → length (encode s) ≤ f
    → decode_from f (encode s) ≡ some s
unfolding decode_from encode
decode_from-encode f [] h k = refl
decode_from-encode zero (c ∷ s) h k =
    absurd (omega (arith, length-append (utf8 c) (encode s), length-utf8 c))
decode_from-encode (suc f) (c ∷ s) h k =
    let bound : length (encode s) ≤ f =
      omega (arith, length-append (utf8 c) (encode s), length-utf8 c) in
    decode_from_step f (utf8 c ++ encode s) (utf8-ne-nil c (encode s))
    ∙ ap (λ n. decode_rest n (decode_from f)) (next-utf8 c (encode s) h.0)
    ∙ ap (in_front c) (decode_from-encode f s h.1 bound)

-- Text that is encoded is read back.
pub decode-encode : (s : Text) → All IsCodePoint s → decode (encode s) ≡ some s
unfolding decode
decode-encode s h = decode_from-encode (length (encode s)) s h (omega arith)
