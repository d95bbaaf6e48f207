-- ===== src/Text/Order.antt =====
-- Equality of texts is decided by `same`, and `less` is a strict linear order.
use p2pos.Common.{◌≡◌, refl, ◌≢◌, ◌↔◌, true, false, ◌∷◌, [], arith, Bool-cases}
use p2pos.Text.{Text, same, less, is_blank}
use mathlib.Core.Logic.{inl, inr}

pub same-eq : (a b : Text) → same a b ≡ true → a ≡ b
unfolding same
same-eq [] [] h = refl
same-eq [] (y ∷ ys) h = cc
same-eq (x ∷ xs) [] h = cc
same-eq (x ∷ xs) (y ∷ ys) h = ground (arith, same-eq xs ys)

pub same_refl : (a : Text) → same a a ≡ true
unfolding same
same_refl [] = refl
same_refl (x ∷ xs) = ground (arith, same_refl xs)

pub same_iff : (a b : Text) → (same a b ≡ true) ↔ (a ≡ b)
same_iff a b = (same-eq a b, λ e. rw e (same_refl b))

pub same_comm : (a b : Text) → same a b ≡ same b a
unfolding same
same_comm [] [] = refl
same_comm [] (y ∷ ys) = refl
same_comm (x ∷ xs) [] = refl
same_comm (x ∷ xs) (y ∷ ys) = ground (arith, same_comm xs ys)

-- A text that is not equal by the test is not equal.
pub ne_of_same : (a b : Text) → same a b ≡ false → a ≢ b
ne_of_same a b h e = ground (arith, same_iff a b)

pub less_irrefl : (a : Text) → less a a ≡ false
unfolding less
less_irrefl [] = refl
less_irrefl (x ∷ xs) = ground (arith, less_irrefl xs)

pub less_trans : (a b c : Text) → less a b ≡ true → less b c ≡ true → less a c ≡ true
unfolding less
less_trans a b [] h k =
    elim b as (λ b. less b [] ≡ true → less a [] ≡ true) [
      | [] ↦ λ e. absurd (cc)
      | y ∷ ys ↦ λ e. absurd (cc)
    ]
      k
less_trans [] b (z ∷ zs) h k = refl
less_trans (x ∷ xs) [] (z ∷ zs) h k = absurd (cc)
less_trans (x ∷ xs) (y ∷ ys) (z ∷ zs) h k = ground (arith, less_trans xs ys zs)

pub less_total : (a b : Text) → same a b ≡ false → less a b ≡ false → less b a ≡ true
unfolding same less
less_total [] [] h k = absurd (cc)
less_total [] (y ∷ ys) h k = absurd (cc)
less_total (x ∷ xs) [] h k = refl
less_total (x ∷ xs) (y ∷ ys) h k = ground (arith, less_total xs ys)

pub less_asymm : (a b : Text) → less a b ≡ true → less b a ≡ false
less_asymm a b h = elim (Bool-cases (less b a)) [
  | inl k ↦ absurd (ground (arith, less_trans a b a, less_irrefl a))
  | inr k ↦ k
]

pub ne_of_less : (a b : Text) → less a b ≡ true → same a b ≡ false
ne_of_less a b h = elim (Bool-cases (same a b)) [
  | inl k ↦ absurd (ground (arith, same_iff a b, less_irrefl b))
  | inr k ↦ k
]

pub is_blank_iff : (a : Text) → (is_blank a ≡ true) ↔ (a ≡ [])
is_blank_iff [] = (λ _. refl, λ _. refl)
is_blank_iff (x ∷ xs) = (λ e. absurd (cc), λ e. absurd (cc))
