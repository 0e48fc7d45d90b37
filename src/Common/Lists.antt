-- ===== src/Common/Lists.antt =====
-- Lists measured by native numbers, under the library's names, and a predicate on every element.
use Prim.Native.Nat.{ℕ, zero, suc, ◌+◌}
use mathlib.Core.Path.{◌≡◌}
use mathlib.Core.List.{List, [], ◌∷◌, ◌++◌, map}
use native.Mathlib.Omega.{arith}

module _ {ℓ} {A : Type ℓ} where
  abbrev pub length : List A → ℕ
  length [] = 0
  length (x ∷ xs) = suc (length xs)

  abbrev pub take : ℕ → List A → List A
  take zero xs = []
  take (suc n) [] = []
  take (suc n) (x ∷ xs) = x ∷ take n xs

  pub length-append : (xs ys : List A) → length (xs ++ ys) ≡ length xs + length ys
  length-append [] ys = omega arith
  length-append (x ∷ xs) ys = omega (arith, length-append xs ys)

-- Every element satisfies the predicate.
abbrev pub All {ℓ κ} : {A : Type ℓ} → (A → Type κ) → List A → Type κ
All P [] = Unit
All P (x ∷ xs) = P x × All P xs

pub All-take {ℓ κ} :
    {A : Type ℓ} (P : A → Type κ) (n : ℕ) (xs : List A) → All P xs → All P (take n xs)
All-take P zero xs v = tt
All-take P (suc n) [] v = tt
All-take P (suc n) (x ∷ xs) v = (v.0, All-take P n xs v.1)

-- A weaker predicate, and a predicate on the images.
pub All-weaken {ℓ κ} :
    {A : Type ℓ} (P Q : A → Type κ) → ((x : A) → P x → Q x) → (xs : List A) → All P xs → All Q xs
All-weaken P Q f [] v = tt
All-weaken P Q f (x ∷ xs) v = (f x v.0, All-weaken P Q f xs v.1)

pub All-map {ℓ κ} :
    {A : Type ℓ} (P Q : A → Type κ) (g : A → A)
    → ((x : A) → P x → Q (g x))
    → (xs : List A) → All P xs
    → All Q (map g xs)
All-map P Q g f [] v = tt
All-map P Q g f (x ∷ xs) v = (f x v.0, All-map P Q g f xs v.1)

pub All-map₂ {ℓ κ} :
    {A : Type ℓ} (P Q R : A → Type κ) (g : A → A)
    → ((x : A) → P x → Q x → R (g x))
    → (xs : List A) → All P xs
    → All Q xs
    → All R (map g xs)
All-map₂ P Q R g f [] v w = tt
All-map₂ P Q R g f (x ∷ xs) v w = (f x v.0 w.0, All-map₂ P Q R g f xs v.1 w.1)

pub All-both {ℓ κ} :
    {A : Type ℓ} (P Q : A → Type κ) (xs : List A) → All P xs → All Q xs → All (λ x. P x × Q x) xs
All-both P Q [] v w = tt
All-both P Q (x ∷ xs) v w = ((v.0, w.0), All-both P Q xs v.1 w.1)
