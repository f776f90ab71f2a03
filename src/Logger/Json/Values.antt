-- ===== src/Logger/Json/Values.antt =====
-- The strings and the other values inside an object of `json.dumps`, read back.
use fastapi_polyrepo_templat.Prelude.{
  ℕ, ◌+◌, ◌<◌, ◌≤◌, ◌≡◌, refl, ap, ◌∙◌, true, false, some, [], ◌∷◌, ◌++◌, Text, length,
  append_assoc, length-append, arith,
}
use fastapi_polyrepo_templat.Effects.{BaseException}
use fastapi_polyrepo_templat.World.{LogValue, text, boolean, exception, null}
use fastapi_polyrepo_templat.Logger.LogManager.{EventDict}
use fastapi_polyrepo_templat.Logger.Json.{
  escape_text, print_text, print_value, read_chars, read_text, read_value,
}
use fastapi_polyrepo_templat.Logger.Json.Strings.{read_chars-escape_text, length-escape_text}

-- What a reader finds of a value: of one that json cannot print, its text.
unfoldable pub as_read : (BaseException → Text) → LogValue → LogValue
as_read fallback (exception exc) = text (fallback exc)
as_read fallback v = v

unfoldable pub all_as_read : (BaseException → Text) → EventDict → EventDict
unfolding as_read
all_as_read fallback [] = []
all_as_read fallback ((k, v) ∷ d) = (k, as_read fallback v) ∷ all_as_read fallback d

print_text-append : (k rest : Text) → print_text k ++ rest ≡ b'"' ∷ (escape_text k ++ (b'"' ∷ rest))
unfolding print_text
print_text-append k rest = ap (λ s. b'"' ∷ s) (append_assoc (escape_text k) (b'"' ∷ []) rest)

read_text-quote : (f : ℕ) (s : Text) → read_text f (b'"' ∷ s) ≡ read_chars f s
unfolding read_text
read_text-quote f s = refl

read_text-space : (f : ℕ) (s : Text) → read_text f (32 ∷ s) ≡ read_text f s
unfolding read_text
read_text-space f s = refl

pub read_text-print_text :
    (f : ℕ) (k rest : Text) → length k < f → read_text f (print_text k ++ rest) ≡ some (k, rest)
read_text-print_text f k rest h =
    rw (print_text-append k rest)
      (read_text-quote f (escape_text k ++ (b'"' ∷ rest)) ∙ read_chars-escape_text f k rest h)

text_size : (BaseException → Text) → LogValue → ℕ
text_size fallback v = length (print_value fallback v)

pub read_value-space : (f : ℕ) (s : Text) → read_value f (32 ∷ s) ≡ read_value f s
unfolding read_value read_text
read_value-space f s = refl

read_value_text :
    (f : ℕ) (s t rest : Text)
    → read_text f s ≡ some (t, rest)
    → read_value f s ≡ some (text t, rest)
unfolding read_value
read_value_text f s t rest e = rw e refl

pub length-print_text : (k : Text) → length k + 2 ≤ length (print_text k)
unfolding print_text
length-print_text k = omega (arith, length-append (escape_text k) (b'"' ∷ []), length-escape_text k)

pub read_value-print_value :
    (f : ℕ) (fallback : BaseException → Text) (v : LogValue) (rest : Text)
    → length (print_value fallback v) ≤ f
    → read_value f (print_value fallback v ++ rest) ≡ some (as_read fallback v, rest)
unfolding read_value read_text print_value as_read
read_value-print_value f fallback (text s) rest h =
    read_value_text f (print_text s ++ rest) s rest
      (read_text-print_text f s rest (omega (arith, length-print_text s)))
read_value-print_value f fallback (exception exc) rest h =
    read_value_text f (print_text (fallback exc) ++ rest) (fallback exc) rest
      (read_text-print_text f (fallback exc) rest (omega (arith, length-print_text (fallback exc))))
read_value-print_value f fallback (boolean true) rest h = refl
read_value-print_value f fallback (boolean false) rest h = refl
read_value-print_value f fallback null rest h = refl
