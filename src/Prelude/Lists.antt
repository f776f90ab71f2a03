-- ===== src/Prelude/Lists.antt =====
-- Lists measured by native numbers, and predicates on every element.
use Prim.Native.Nat.{ℕ, suc, ◌+◌}
use mathlib.Core.Path.{◌≡◌, refl}
use mathlib.Core.List.{List, [], ◌∷◌, ◌++◌}
use native.Mathlib.Omega.{arith}

abbrev pub length {ℓ} : {A : Type ℓ} → List A → ℕ
length [] = 0
length (x ∷ xs) = suc (length xs)

pub length-append {ℓ} : {A : Type ℓ} (xs ys : List A) → length (xs ++ ys) ≡ length xs + length ys
length-append [] ys = omega arith
length-append (x ∷ xs) ys = omega (arith, length-append xs ys)

abbrev pub All {ℓ κ} : {A : Type ℓ} → (A → Type κ) → List A → Type κ
All P [] = Unit
All P (x ∷ xs) = P x × All P xs

pub All-append {ℓ κ} :
    {A : Type ℓ} (P : A → Type κ) (xs ys : List A) → All P xs → All P ys → All P (xs ++ ys)
All-append P [] ys hx hy = hy
All-append P (x ∷ xs) ys hx hy = (hx.0, All-append P xs ys hx.1 hy)

-- Two splits of one list at the same place have the same parts.
pub append-cancel {ℓ} :
    {A : Type ℓ} (xs ys : List A) {s t : List A}
    → length xs ≡ length ys
    → xs ++ s ≡ ys ++ t
    → (xs ≡ ys) × (s ≡ t)
append-cancel [] [] n e = (refl, e)
append-cancel [] (y ∷ ys) n e = absurd (omega arith)
append-cancel (x ∷ xs) [] n e = absurd (omega arith)
append-cancel (x ∷ xs) (y ∷ ys) {s} {t} n e =
    let tails : xs ++ s ≡ ys ++ t = cc in
    let both : (xs ≡ ys) × (s ≡ t) = append-cancel xs ys (omega arith) tails in (cc both.0, both.1)
