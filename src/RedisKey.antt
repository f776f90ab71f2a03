-- ===== src/RedisKey.antt =====
-- src/app/clients/redis/create_redis_key.py
pub mod Injective
use fastapi_polyrepo_templat.Prelude.{List, [], ◌∷◌, ◌++◌, ◌≡◌, refl, Text, codes, str, length}

abbrev pub colon : Text
colon = codes ":"

-- `for part in parts: pieces.append(str(len(part))); pieces.append(part)`
append_pieces : List Text → List Text → List Text
append_pieces pieces [] = pieces
append_pieces pieces (part ∷ parts) =
    append_pieces ((pieces ++ str (length part) ∷ []) ++ part ∷ []) parts

-- `separator.join(pieces)`
join : Text → List Text → Text
join sep [] = []
join sep (p ∷ []) = p
join sep (p ∷ q ∷ ps) = p ++ (sep ++ join sep (q ∷ ps))

unfoldable pub create_redis_key : Text → List Text → Text
unfolding append_pieces join str
create_redis_key prefix parts = join colon (append_pieces (prefix ∷ []) parts)

-- The two keys of the function's documentation.
documented_keys :
    (create_redis_key (codes "feature_flag") (codes "a" ∷ codes "b:c" ∷ [])
      ≡ codes "feature_flag:1:a:3:b:c")
    × (create_redis_key (codes "feature_flag") (codes "a:b" ∷ codes "c" ∷ [])
        ≡ codes "feature_flag:3:a:b:1:c")
unfolding create_redis_key
documented_keys = (refl, refl)
