-- ===== src/Logger/Stream/Encoded.antt =====
-- The text of a log record in src/app/logger/log_manager.py, as characters and as UTF-8.
use fastapi_polyrepo_templat.Prelude.{
  ℕ, ◌≡◌, Bool, true, false, [], ◌∷◌, ◌++◌, Text, codes, All, All-append, arith, if◌then◌else◌,
}
use fastapi_polyrepo_templat.Effects.{BaseException}
use fastapi_polyrepo_templat.World.{LogValue, text, boolean, exception, null}
use fastapi_polyrepo_templat.Utf8.{utf8, encode, IsCodePoint}
use fastapi_polyrepo_templat.Logger.LogManager.{EventDict}
use fastapi_polyrepo_templat.Logger.Json.{
  escape_char, escape_text, print_text, print_value, print_members, dumps,
}
use fastapi_polyrepo_templat.Logger.Json.Strings.{IsPrinting, escape_char-IsPrinting}
use fastapi_polyrepo_templat.Logger.Stream.{is_encodable, all_encodable}

escape_text-IsPrinting : (s : Text) → All IsPrinting (escape_text s)
unfolding escape_text
escape_text-IsPrinting [] = tt
escape_text-IsPrinting (c ∷ s) =
    All-append IsPrinting (escape_char c) (escape_text s) (escape_char-IsPrinting c)
      (escape_text-IsPrinting s)

print_text-IsPrinting : (s : Text) → All IsPrinting (print_text s)
unfolding print_text
print_text-IsPrinting s = (
  omega arith,
  All-append IsPrinting (escape_text s) (b'"' ∷ []) (escape_text-IsPrinting s) (omega arith, tt),
)

print_value-IsPrinting :
    (fallback : BaseException → Text) (v : LogValue) → All IsPrinting (print_value fallback v)
unfolding print_value
print_value-IsPrinting fallback (text s) = print_text-IsPrinting s
print_value-IsPrinting fallback (exception exc) = print_text-IsPrinting (fallback exc)
print_value-IsPrinting fallback (boolean true) = ground arith
print_value-IsPrinting fallback (boolean false) = ground arith
print_value-IsPrinting fallback null = ground arith

print_members-IsPrinting :
    (fallback : BaseException → Text) (first : Bool) (d : EventDict)
    → All IsPrinting (print_members fallback first d)
unfolding print_members
print_members-IsPrinting fallback first [] = (omega arith, tt)
print_members-IsPrinting fallback first ((k, v) ∷ d) =
    let tail = print_members fallback false d in
    let values =
      All-append IsPrinting (print_value fallback v) tail (print_value-IsPrinting fallback v)
        (print_members-IsPrinting fallback false d) in
    All-append IsPrinting (if first then [] else codes ", ")
      (print_text k ++ (codes ": " ++ (print_value fallback v ++ tail)))
      (elim first as (λ b. All IsPrinting (if b then [] else codes ", ")) [
        | true ↦ tt
        | false ↦ (omega arith, (omega arith, tt))
      ])
      (All-append IsPrinting (print_text k) (codes ": " ++ (print_value fallback v ++ tail))
        (print_text-IsPrinting k) (omega arith, (omega arith, values)))

dumps-IsPrinting :
    (fallback : BaseException → Text) (d : EventDict) → All IsPrinting (dumps fallback d)
unfolding dumps
dumps-IsPrinting fallback d = (omega arith, print_members-IsPrinting fallback true d)

utf8-IsPrinting : (c : ℕ) → IsPrinting c → All IsPrinting (utf8 c)
unfolding utf8
utf8-IsPrinting c h = ground arith

encode-IsPrinting : (s : Text) → All IsPrinting s → All IsPrinting (encode s)
unfolding encode
encode-IsPrinting [] h = tt
encode-IsPrinting (c ∷ s) h =
    All-append IsPrinting (utf8 c) (encode s) (utf8-IsPrinting c h.0) (encode-IsPrinting s h.1)

-- The line of a record has no control character, and so no line end.
pub dumps-encode-IsPrinting :
    (fallback : BaseException → Text) (d : EventDict) → All IsPrinting (encode (dumps fallback d))
dumps-encode-IsPrinting fallback d =
    encode-IsPrinting (dumps fallback d) (dumps-IsPrinting fallback d)

is_encodable-IsCodePoint : (c : ℕ) → is_encodable c ≡ true → IsCodePoint c
unfolding is_encodable
is_encodable-IsCodePoint c h = ground arith

pub all_encodable-IsCodePoint : (s : Text) → all_encodable s ≡ true → All IsCodePoint s
unfolding all_encodable
all_encodable-IsCodePoint [] h = tt
all_encodable-IsCodePoint (c ∷ s) h =
    let (head, tail) : (is_encodable c ≡ true) × (all_encodable s ≡ true) = ground arith in
    (is_encodable-IsCodePoint c head, all_encodable-IsCodePoint s tail)
