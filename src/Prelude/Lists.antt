-- ===== src/Prelude/Lists.antt =====
-- Counting, searching and updating the rows of a list by a Boolean test.
use Prim.Native.Nat.{ℕ, suc, ◌+◌, ◌≤◌}
use mathlib.Core.Path.{◌≡◌, refl}
use mathlib.Core.Bool.{Bool, true, false, ◌||◌}
use mathlib.Core.Option.{Option, none, some}
use mathlib.Core.List.{List, [], ◌∷◌, ◌++◌}
use native.Mathlib.Omega.{arith}
use go_passkey_auth.Prelude.Tests.{if◌then◌else◌}

module _ {ℓ} {A : Type ℓ} where
  abbrev pub length : List A → ℕ
  length [] = 0
  length (x ∷ xs) = suc (length xs)

  -- The number of elements that pass a test.
  abbrev pub count : (A → Bool) → List A → ℕ
  count p [] = 0
  count p (x ∷ xs) = (if p x then 1 else 0) + count p xs

  abbrev pub any : (A → Bool) → List A → Bool
  any p [] = false
  any p (x ∷ xs) = p x || any p xs

  -- The first element that passes a test.
  abbrev pub find : (A → Bool) → List A → Option A
  find p [] = none
  find p (x ∷ xs) = if p x then some x else find p xs

  abbrev pub keep : (A → Bool) → List A → List A
  keep p [] = []
  keep p (x ∷ xs) = if p x then x ∷ keep p xs else keep p xs

  -- Rewrite the elements that pass a test.
  abbrev pub update : (A → Bool) → (A → A) → List A → List A
  update p f [] = []
  update p f (x ∷ xs) = (if p x then f x else x) ∷ update p f xs

  abbrev pub All {κ} : (A → Type κ) → List A → Type κ
  All P [] = Unit
  All P (x ∷ xs) = P x × All P xs

module _ {ℓ} {A : Type ℓ} where
  pub count-append : (p : A → Bool) (xs ys : List A) → count p (xs ++ ys) ≡ count p xs + count p ys
  count-append p [] ys = omega arith
  count-append p (x ∷ xs) ys = ground (arith, count-append p xs ys)

  pub count-eq-zero_of_any : (p : A → Bool) (xs : List A) → any p xs ≡ false → count p xs ≡ 0
  count-eq-zero_of_any p [] h = refl
  count-eq-zero_of_any p (x ∷ xs) h = ground (arith, count-eq-zero_of_any p xs)

  pub count_mono :
      (p q : A → Bool) (xs : List A) → ((x : A) → p x ≡ true → q x ≡ true) → count p xs ≤ count q xs
  count_mono p q [] h = omega arith
  count_mono p q (x ∷ xs) h = ground (arith, h x, count_mono p q xs h)

  pub find_sound :
      (p : A → Bool) (xs : List A) (x : A) → find p xs ≡ some x → (p x ≡ true) × (1 ≤ count p xs)
  find_sound p [] x h = ground arith
  find_sound p (y ∷ xs) x h = ground (arith, find_sound p xs x)

  pub find-append :
      (p : A → Bool) (xs ys : List A)
      → find p (xs ++ ys) ≡ (if any p xs then find p xs else find p ys)
  find-append p [] ys = refl
  find-append p (x ∷ xs) ys = ground (arith, find-append p xs ys)

  pub any_of_find : (p : A → Bool) (xs : List A) → find p xs ≡ none → any p xs ≡ false
  any_of_find p [] h = refl
  any_of_find p (x ∷ xs) h = ground (arith, any_of_find p xs)

  pub find_of_any : (p : A → Bool) (xs : List A) → any p xs ≡ false → find p xs ≡ none
  find_of_any p [] h = refl
  find_of_any p (x ∷ xs) h = ground (arith, find_of_any p xs)

  pub any-eq-false_of_count : (p : A → Bool) (xs : List A) → count p xs ≡ 0 → any p xs ≡ false
  any-eq-false_of_count p [] h = refl
  any-eq-false_of_count p (x ∷ xs) h = ground (arith, any-eq-false_of_count p xs)

  pub All-keep : (p : A → Bool) (xs : List A) → All (λ x. p x ≡ true) (keep p xs)
  All-keep p [] = tt
  All-keep p (x ∷ xs) = ground (arith, All-keep p xs)
