-- ===== src/RedisKey/Injective.antt =====
-- How the key of src/app/clients/redis/create_redis_key.py splits into its parts.
use fastapi_polyrepo_templat.Prelude.{
  List, [], ◌∷◌, ◌++◌, append-nil, append_assoc, append-cancel, ◌≡◌, refl, sym, arith, Text, str,
  str-injective, str-IsDigit, IsDigit, length, All,
}
use fastapi_polyrepo_templat.RedisKey.{append_pieces, join, create_redis_key, colon}

-- What one part adds to the key.
segment : Text → Text
segment part = b':' ∷ (str (length part) ++ b':' ∷ part)

segments : List Text → Text
segments [] = []
segments (part ∷ parts) = segment part ++ segments parts

join-snoc :
    (p : Text) (ps : List Text) (q : Text)
    → join colon ((p ∷ ps) ++ q ∷ []) ≡ join colon (p ∷ ps) ++ b':' ∷ q
unfolding join
join-snoc p [] q = refl
join-snoc p (r ∷ ps) q = simp (join-snoc r ps q, append_assoc)

join-append_pieces :
    (p : Text) (ps parts : List Text)
    → join colon (append_pieces (p ∷ ps) parts) ≡ join colon (p ∷ ps) ++ segments parts
unfolding append_pieces segments segment
join-append_pieces p ps [] = sym (append-nil _)
join-append_pieces p ps (part ∷ parts) =
    rw
      (
        join-append_pieces p ((ps ++ str (length part) ∷ []) ++ part ∷ []) parts,
        join-snoc p (ps ++ str (length part) ∷ []) part,
        join-snoc p ps (str (length part)),
      )
      (simp append_assoc)

create_redis_key-segments :
    (prefix : Text) (parts : List Text) → create_redis_key prefix parts ≡ prefix ++ segments parts
unfolding create_redis_key join
create_redis_key-segments prefix parts = join-append_pieces prefix [] parts

-- The first colon ends a run of digits.
digits-cancel :
    (ds es : Text) {s t : Text}
    → All IsDigit ds
    → All IsDigit es
    → ds ++ b':' ∷ s ≡ es ++ b':' ∷ t
    → (ds ≡ es) × (s ≡ t)
digits-cancel [] [] hd he e = (refl, cc)
digits-cancel [] (c ∷ es) hd he e = ground arith
digits-cancel (c ∷ ds) [] hd he e = ground arith
digits-cancel (c ∷ ds) (d ∷ es) {s} {t} hd he e =
    let tails : ds ++ b':' ∷ s ≡ es ++ b':' ∷ t = cc in
    let (rest, later) = digits-cancel ds es hd.1 he.1 tails in (cc (rest), later)

segments-cons :
    (p : Text) (ps : List Text)
    → segments (p ∷ ps) ≡ b':' ∷ (str (length p) ++ b':' ∷ (p ++ segments ps))
unfolding segments segment
segments-cons p ps = simp append_assoc

segments-injective : (ps qs : List Text) → segments ps ≡ segments qs → ps ≡ qs
segments-injective [] [] e = refl
segments-injective [] (q ∷ qs) e = unfold segments segment in cc
segments-injective (p ∷ ps) [] e = unfold segments segment in cc
segments-injective (p ∷ ps) (q ∷ qs) e =
    let same : str (length p) ++ b':' ∷ (p ++ segments ps)
        ≡ str (length q) ++ b':' ∷ (q ++ segments qs) =
      cc (segments-cons p ps, segments-cons q qs) in
    let (lengths, rest) =
      digits-cancel (str (length p)) (str (length q)) (str-IsDigit _) (str-IsDigit _) same in
    let (heads, tails) = append-cancel p q (str-injective _ _ lengths) rest in
    cc (heads, segments-injective ps qs tails)

-- With one prefix, equal keys have equal parts: no colon inside a part merges two of them, and
-- keys of different numbers of parts differ too.
pub create_redis_key-injective :
    (prefix : Text) (ps qs : List Text)
    → create_redis_key prefix ps ≡ create_redis_key prefix qs
    → ps ≡ qs
create_redis_key-injective prefix ps qs e =
    let both : prefix ++ segments ps ≡ prefix ++ segments qs =
      cc (create_redis_key-segments prefix ps, create_redis_key-segments prefix qs) in
    segments-injective ps qs (append-cancel prefix prefix refl both).1
