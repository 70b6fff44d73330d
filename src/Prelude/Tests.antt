-- ===== src/Prelude/Tests.antt =====
-- Boolean tests on numbers, texts and byte slices, and the conditional.
use Prim.Native.Nat.{ℕ, compare, Ordering}
use Prim.Native.String.{String}
use mathlib.Core.Path.{◌≡◌, refl}
use mathlib.Core.Logic.{◌↔◌, ◌⊎◌, inl, inr}
use mathlib.Core.Bool.{Bool, true, false, ◌&&◌}
use mathlib.Core.Option.{Option, none, some}
use mathlib.Core.List.{List, [], ◌∷◌}
use native.Mathlib.Omega.{arith}
use text.Mathlib.Text.{◌==◌ as str_eq}

abbrev pub ltb : ℕ → ℕ → Bool
ltb a b = elim (compare a b) [ Ordering.lt ↦ true | _ ↦ false ]

abbrev pub leb : ℕ → ℕ → Bool
leb a b = elim (compare a b) [ Ordering.gt ↦ false | _ ↦ true ]

abbrev pub nat_beq : ℕ → ℕ → Bool
nat_beq a b = elim (compare a b) [ Ordering.eq ↦ true | _ ↦ false ]

pub nat_beq_iff : (a b : ℕ) → (nat_beq a b ≡ true) ↔ (a ≡ b)
nat_beq_iff a b = ground arith

-- A Go byte slice: its bytes. A nil slice and an empty one are the same list.
abbrev pub Bytes : Type 0
Bytes = List ℕ

abbrev pub bytes_beq : Bytes → Bytes → Bool
bytes_beq [] [] = true
bytes_beq (x ∷ xs) (y ∷ ys) = nat_beq x y && bytes_beq xs ys
bytes_beq _ _ = false

bytes_beq_sound : (xs ys : Bytes) → bytes_beq xs ys ≡ true → xs ≡ ys
bytes_beq_sound [] [] h = refl
bytes_beq_sound (x ∷ xs) (y ∷ ys) h = ground (arith, bytes_beq_sound xs ys, nat_beq_iff x y)
bytes_beq_sound _ _ h = ground arith

bytes_beq_refl : (xs : Bytes) → bytes_beq xs xs ≡ true
bytes_beq_refl [] = refl
bytes_beq_refl (x ∷ xs) = ground (arith, bytes_beq_refl xs)

pub bytes_beq_iff : (xs ys : Bytes) → (bytes_beq xs ys ≡ true) ↔ (xs ≡ ys)
bytes_beq_iff xs ys = (bytes_beq_sound xs ys, λ e. rw e (bytes_beq_refl ys))

-- The types whose values the program compares by Go's `==`.
pub record Comparable {ℓ} (A : Type ℓ) : Type ℓ where
  pub is_same : A → A → Bool

instance abbrev pub bytes_eq : Comparable Bytes
bytes_eq = record { is_same = bytes_beq }

instance abbrev pub nat_eq : Comparable ℕ
nat_eq = record { is_same = nat_beq }

instance abbrev pub string_eq : Comparable String
string_eq = record { is_same = str_eq }

infix 50 ◌==◌
abbrev pub ◌==◌ {ℓ} : {T : Type ℓ} ⦃c : Comparable T⦄ → T → T → Bool
◌==◌ ⦃c⦄ = c.is_same

infix 1 if◌then◌else◌
abbrev pub if◌then◌else◌ {ℓ} : {A : Type ℓ} → Bool → A → A → A
if true then x else y = x
if false then x else y = y

pub Bool-cases : (b : Bool) → (b ≡ true) ⊎ (b ≡ false)
Bool-cases true = inl refl
Bool-cases false = inr refl

pub Option-cases {ℓ} : {A : Type ℓ} (o : Option A) → (o ≡ none) ⊎ ((a : A) × (o ≡ some a))
Option-cases none = inl refl
Option-cases (some a) = inr (a, refl)

abbrev pub is_some {ℓ} : {A : Type ℓ} → Option A → Bool
is_some none = false
is_some (some _) = true
