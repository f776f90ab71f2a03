-- ===== src/Logger/Json/Objects.antt =====
-- The objects of `json.dumps(event_dict, ensure_ascii=False)` and the reader of a JSON object.
use fastapi_polyrepo_templat.Prelude.{
  ℕ, suc, zero, ◌+◌, ◌≤◌, ◌≡◌, refl, ap, ◌∙◌, Bool, true, false, some, [], ◌∷◌, ◌++◌, Text, length,
  append_assoc, append-nil, sym, length-append, arith, codes, if◌then◌else◌,
}
use fastapi_polyrepo_templat.Effects.{BaseException}
use fastapi_polyrepo_templat.World.{LogValue}
use fastapi_polyrepo_templat.Logger.LogManager.{EventDict}
use fastapi_polyrepo_templat.Logger.Json.{
  escape_text, print_text, print_value, print_members, dumps, read_text, read_value, read_member,
  read_members, loads, ◌>>=◌, whole, Parser,
}
use fastapi_polyrepo_templat.Logger.Json.Values.{
  as_read, all_as_read, read_text-print_text, read_value-space, length-print_text,
  read_value-print_value,
}

read_member_step :
    (f : ℕ) (more : Parser EventDict) (s : Text) (k : Text) (v : LogValue) (r1 r2 : Text)
    → read_text f s ≡ some (k, codes ": " ++ r1)
    → read_value f r1 ≡ some (v, r2)
    → read_member f more s ≡ (more r2 >>= λ d r. some ((k, v) ∷ d, r))
unfolding read_member
read_member_step f more s k v r1 r2 hk hv = rw (hk, read_value-space f r1, hv) refl

read_member-print :
    (f : ℕ) (more : Parser EventDict) (fallback : BaseException → Text) (k : Text) (v : LogValue)
    (s : Text)
    → length (print_text k) ≤ f
    → length (print_value fallback v) ≤ f
    → read_member f more (print_text k ++ (codes ": " ++ (print_value fallback v ++ s)))
      ≡ (more s >>= λ d r. some ((k, as_read fallback v) ∷ d, r))
read_member-print f more fallback k v s hk hv =
    let after = print_value fallback v ++ s in
    read_member_step f more (print_text k ++ (codes ": " ++ after)) k (as_read fallback v) after s
      (read_text-print_text f k (codes ": " ++ after) (omega (arith, length-print_text k)))
      (read_value-print_value f fallback v s hv)

-- The first member begins with its name's quote, a further one with a comma and a space.
read_members_first :
    (f : ℕ) (s : Text)
    → read_members (suc f) true (b'"' ∷ s) ≡ read_member f (read_members f false) (b'"' ∷ s)
unfolding read_members
read_members_first f s = refl

read_members_further :
    (f : ℕ) (s : Text)
    → read_members (suc f) false (codes ", " ++ s) ≡ read_member f (read_members f false) (32 ∷ s)
unfolding read_members
read_members_further f s = refl

read_member-space :
    (f : ℕ) (more : Parser EventDict) (s : Text)
    → read_member f more (32 ∷ s) ≡ read_member f more s
unfolding read_member read_text
read_member-space f more s = refl

separator : Bool → Text
separator first = if first then [] else codes ", "

read_members-separator :
    (f : ℕ) (first : Bool) (s : Text)
    → read_members (suc f) first (separator first ++ (b'"' ∷ s))
      ≡ read_member f (read_members f false) (b'"' ∷ s)
unfolding separator
read_members-separator f true s = read_members_first f s
read_members-separator f false s =
    read_members_further f (b'"' ∷ s) ∙ read_member-space f (read_members f false) (b'"' ∷ s)

read_members-print_text :
    (f : ℕ) (first : Bool) (k s : Text)
    → read_members (suc f) first (separator first ++ (print_text k ++ s))
      ≡ read_member f (read_members f false) (print_text k ++ s)
unfolding print_text
read_members-print_text f first k s =
    read_members-separator f first ((escape_text k ++ (b'"' ∷ [])) ++ s)

read_members_end :
    (f : ℕ) (first : Bool) (s : Text) → read_members (suc f) first (b'}' ∷ s) ≡ some ([], s)
unfolding read_members
read_members_end f true s = refl
read_members_end f false s = refl

print_members-append :
    (fallback : BaseException → Text) (first : Bool) (k : Text) (v : LogValue) (d : EventDict)
    (rest : Text)
    → print_members fallback first ((k, v) ∷ d) ++ rest
      ≡ separator first
        ++ (print_text k
            ++ (codes ": " ++ (print_value fallback v ++ (print_members fallback false d ++ rest))))
unfolding print_members separator
print_members-append fallback first k v d rest =
    let tail = print_members fallback false d in
    append_assoc (separator first)
      (print_text k ++ (codes ": " ++ (print_value fallback v ++ tail))) rest
    ∙ ap (λ s. separator first ++ s)
        (append_assoc (print_text k) (codes ": " ++ (print_value fallback v ++ tail)) rest
          ∙ ap (λ s. print_text k ++ (codes ": " ++ s))
              (append_assoc (print_value fallback v) tail rest))

length-print_members :
    (fallback : BaseException → Text) (first : Bool) (k : Text) (v : LogValue) (d : EventDict)
    → length (print_text k)
        + (length (print_value fallback v) + (2 + length (print_members fallback false d)))
      ≤ length (print_members fallback first ((k, v) ∷ d))
unfolding print_members
length-print_members fallback first k v d =
    let tail = print_members fallback false d in
    let values = print_value fallback v ++ tail in
    omega (
      arith,
      length-append (if first then [] else codes ", ") (print_text k ++ (codes ": " ++ values)),
      length-append (print_text k) (codes ": " ++ values),
      length-append (print_value fallback v) tail,
    )

print_members_end :
    (fallback : BaseException → Text) (first : Bool) → print_members fallback first [] ≡ codes "}"
unfolding print_members
print_members_end fallback first = refl

length-print_members_end :
    (fallback : BaseException → Text) (first : Bool) → 1 ≤ length (print_members fallback first [])
unfolding print_members
length-print_members_end fallback first = omega arith

-- The members are read back, given as much fuel as they have characters.
read_members-print_members :
    (f : ℕ) (fallback : BaseException → Text) (first : Bool) (d : EventDict) (rest : Text)
    → length (print_members fallback first d) ≤ f
    → read_members f first (print_members fallback first d ++ rest)
      ≡ some (all_as_read fallback d, rest)
unfolding all_as_read
read_members-print_members zero fallback first [] rest h =
    absurd (omega (arith, length-print_members_end fallback first))
read_members-print_members zero fallback first ((k, v) ∷ d) rest h =
    absurd (omega (arith, length-print_members fallback first k v d))
read_members-print_members (suc f) fallback first [] rest h =
    ap (λ s. read_members (suc f) first (s ++ rest)) (print_members_end fallback first)
    ∙ read_members_end f first rest
read_members-print_members (suc f) fallback first ((k, v) ∷ d) rest h =
    let tail = print_members fallback false d ++ rest in
    let fuel = length-print_members fallback first k v d in
    let value = codes ": " ++ (print_value fallback v ++ tail) in
    ap (read_members (suc f) first) (print_members-append fallback first k v d rest)
    ∙ read_members-print_text f first k value
    ∙ read_member-print f (read_members f false) fallback k v tail (omega (arith, fuel))
        (omega (arith, fuel))
    ∙ ap (λ n. n >>= λ rest_of r. some ((k, as_read fallback v) ∷ rest_of, r))
        (read_members-print_members f fallback false d rest
          (omega (arith, fuel, length-print_text k)))

loads_brace : (s : Text) → loads (b'{' ∷ s) ≡ whole (read_members (suc (length s)) true s)
unfolding loads
loads_brace s = refl

-- `loads` reads what `dumps` prints, of an exception its text.
pub loads-dumps :
    (fallback : BaseException → Text) (d : EventDict)
    → loads (dumps fallback d) ≡ some (all_as_read fallback d)
unfolding dumps
loads-dumps fallback d =
    let s = print_members fallback true d in
    loads_brace s
    ∙ ap (λ t. whole (read_members (suc (length s)) true t)) (sym (append-nil s))
    ∙ ap whole (read_members-print_members (suc (length s)) fallback true d [] (omega arith))
