-- ===== src/Base/Sorted.antt =====
-- Lists in descending order of a key, stable, and how often a test holds in a list.
use Prim.Native.Nat.{ℕ, zero, suc, ◌+◌, ◌≤◌}
use mathlib.Core.Path.{◌≡◌, refl, ap}
use mathlib.Core.Bool.{Bool, true, false, ◌&&◌}
use mathlib.Core.List.{List, [], ◌∷◌, ◌++◌}
use native.Mathlib.Omega.{arith}
use execra.Base.Tests.{if◌then◌else◌}
use execra.Base.Lists.{length, take, drop}
use execra.Base.Int.{ℤ, leb_ℤ}

module _ {A : Type 0} where
  -- How many items satisfy a test.
  abbrev pub count : (A → Bool) → List A → ℕ
  count p [] = 0
  count p (x ∷ xs) = (if p x then 1 else 0) + count p xs

  unfoldable pub filter : (A → Bool) → List A → List A
  filter p [] = []
  filter p (x ∷ xs) = let rest = filter p xs in if p x then x ∷ rest else rest

  pub filter-count :
      (p m : A → Bool) (xs : List A) → count p (filter m xs) ≡ count (λ x. m x && p x) xs
  unfolding filter
  filter-count p m [] = ground arith
  filter-count p m (x ∷ xs) = ground (arith, filter-count p m xs)

  pub filter-append :
      (p : A → Bool) (xs ys : List A) → filter p (xs ++ ys) ≡ filter p xs ++ filter p ys
  unfolding filter
  filter-append p [] ys = refl
  filter-append p (x ∷ xs) ys = ground (arith, filter-append p xs ys)

  pub count-append : (p : A → Bool) (xs ys : List A) → count p (xs ++ ys) ≡ count p xs + count p ys
  count-append p [] ys = omega arith
  count-append p (x ∷ xs) ys = omega (arith, count-append p xs ys)

  pub take-drop : (n : ℕ) (xs : List A) → take n xs ++ drop n xs ≡ xs
  take-drop zero xs = refl
  take-drop (suc n) [] = refl
  take-drop (suc n) (x ∷ xs) = ap (λ ys. x ∷ ys) (take-drop n xs)

  pub length-take : (n : ℕ) (xs : List A) → length (take n xs) ≤ n
  length-take zero xs = omega arith
  length-take (suc n) [] = omega arith
  length-take (suc n) (x ∷ xs) = omega (arith, length-take n xs)

module _ {A : Type 0} (key : A → ℤ) where
  -- Before the first item with a smaller or equal key: the list is sorted from its end.
  unfoldable pub insert : A → List A → List A
  insert x [] = x ∷ []
  insert x (y ∷ ys) =
      let rest = insert x ys in if leb_ℤ (key y) (key x) then x ∷ y ∷ ys else y ∷ rest

  unfoldable pub sort : List A → List A
  unfolding insert
  sort [] = []
  sort (x ∷ xs) = insert x (sort xs)

  -- No key is smaller than the next one.
  abbrev pub is_sorted : List A → Bool
  is_sorted [] = true
  is_sorted (x ∷ []) = true
  is_sorted (x ∷ y ∷ ys) = if leb_ℤ (key y) (key x) then is_sorted (y ∷ ys) else false

  insert-count : (p : A → Bool) (x : A) (ys : List A) → count p (insert x ys) ≡ count p (x ∷ ys)
  unfolding insert
  insert-count p x [] = refl
  insert-count p x (y ∷ ys) = ground (arith, insert-count p x ys)

  pub sort-count : (p : A → Bool) (xs : List A) → count p (sort xs) ≡ count p xs
  unfolding sort
  sort-count p [] = refl
  sort-count p (x ∷ xs) = ground (arith, insert-count p x (sort xs), sort-count p xs)

  insert-is_sorted : (x : A) (ys : List A) → is_sorted ys ≡ true → is_sorted (insert x ys) ≡ true
  unfolding insert
  insert-is_sorted x [] s = refl
  insert-is_sorted x (y ∷ []) s = ground arith
  insert-is_sorted x (y ∷ z ∷ zs) s = ground (arith, insert-is_sorted x (z ∷ zs))

  pub sort-is_sorted : (xs : List A) → is_sorted (sort xs) ≡ true
  unfolding sort
  sort-is_sorted [] = refl
  sort-is_sorted (x ∷ xs) = insert-is_sorted x (sort xs) (sort-is_sorted xs)

  pub take-is_sorted : (n : ℕ) (xs : List A) → is_sorted xs ≡ true → is_sorted (take n xs) ≡ true
  take-is_sorted zero xs s = refl
  take-is_sorted (suc n) [] s = refl
  take-is_sorted (suc zero) (x ∷ xs) s = refl
  take-is_sorted (suc (suc n)) (x ∷ []) s = refl
  take-is_sorted (suc (suc n)) (x ∷ y ∷ ys) s = ground (arith, take-is_sorted (suc n) (y ∷ ys))
