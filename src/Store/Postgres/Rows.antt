-- ===== src/Store/Postgres/Rows.antt =====
-- How an update of rows bears on counts of rows.
use go_passkey_auth.Prelude.{
  ◌+◌, ◌≤◌, Bool, true, false, ◌≡◌, refl, List, [], ◌∷◌, ◌++◌, ◌||◌, if◌then◌else◌, arith, count,
  any, update, All,
}

module _ {ℓ} {A : Type ℓ} (test : A → Bool) (set : A → A) where
  pub count-update :
      (p : A → Bool)
      → ((x : A) → p (set x) ≡ p x)
      → (xs : List A) → count p (update test set xs) ≡ count p xs
  count-update p same [] = refl
  count-update p same (x ∷ xs) = ground (arith, same x, count-update p same xs)

  pub count-update-le :
      (p : A → Bool)
      → ((x : A) → p (set x) ≡ true → p x ≡ true)
      → (xs : List A) → count p (update test set xs) ≤ count p xs
  count-update-le p kept [] = omega arith
  count-update-le p kept (x ∷ xs) = ground (arith, kept x, count-update-le p kept xs)

  -- What a row of the test gains is bounded by the number of such rows.
  pub count-update-le-add :
      (p : A → Bool) (xs : List A) → count p (update test set xs) ≤ count p xs + count test xs
  count-update-le-add p [] = omega arith
  count-update-le-add p (x ∷ xs) = ground (arith, count-update-le-add p xs)

  pub any-update :
      (p : A → Bool)
      → ((x : A) → p (set x) ≡ p x)
      → (xs : List A) → any p (update test set xs) ≡ any p xs
  any-update p same [] = refl
  any-update p same (x ∷ xs) = ground (arith, same x, any-update p same xs)

module _ {ℓ κ} {A : Type ℓ} (P : A → Type κ) (test : A → Bool) (set : A → A) where
  pub All-update :
      ((x : A) → P x → P (set x)) → (xs : List A) → All P xs → All P (update test set xs)
  All-update keeps [] h = tt
  All-update keeps (x ∷ xs) (p, h) = (kept (test x), All-update keeps xs h)
    where
      kept : (b : Bool) → P (if b then set x else x)
      kept true = keeps x p
      kept false = p

module _ {ℓ κ} {A : Type ℓ} (P : A → Type κ) where
  pub All-append : (xs ys : List A) → All P xs → All P ys → All P (xs ++ ys)
  All-append [] ys h k = k
  All-append (x ∷ xs) ys (p, h) k = (p, All-append xs ys h k)

module _ {ℓ} {A : Type ℓ} where
  pub any-append : (p : A → Bool) (xs ys : List A) → any p (xs ++ ys) ≡ (any p xs || any p ys)
  any-append p [] ys = refl
  any-append p (x ∷ xs) ys = ground (arith, any-append p xs ys)

module _ {ℓ κ} {A : Type ℓ} {P Q : A → Type κ} where
  pub All-mono : ((x : A) → P x → Q x) → (xs : List A) → All P xs → All Q xs
  All-mono f [] h = tt
  All-mono f (x ∷ xs) h = (f x h.0, All-mono f xs h.1)
