-- ===== src/Text/Sorted.antt =====
-- Sets of strings (`map[string]struct{}`) and sort.Strings on the keys of one.
use p2pos.Common.{
  ◌≡◌, refl, true, false, ◌||◌, ◌∷◌, ◌++◌, [], List, arith, Bool-cases, All, if◌then◌else◌, ◌∙◌,
  ◌⊎◌, inl, inr, ap₂,
}
use p2pos.Text.{Text, same, less, contains}
use p2pos.Text.Order.{
  same_iff, same_refl, same_comm, less_trans, less_total, ne_of_less, less_asymm, same-eq,
}

-- `set[x] = struct{}{}`. The keys stand in the order of their insertion.
unfoldable pub set_add : Text → List Text → List Text
set_add x set = if contains x set then set else set ++ x ∷ []

-- The set that a loop over `xs` adds to.
unfoldable pub add_all : List Text → List Text → List Text
unfolding set_add
add_all set [] = set
add_all set (x ∷ xs) = add_all (set_add x set) xs

unfoldable pub insert_sorted : Text → List Text → List Text
insert_sorted x [] = x ∷ []
insert_sorted x (y ∷ ys) =
    let rest = insert_sorted x ys in if less y x then y ∷ rest else x ∷ y ∷ ys

-- sort.Strings
unfoldable pub sort_texts : List Text → List Text
unfolding insert_sorted
sort_texts [] = []
sort_texts (x ∷ xs) = insert_sorted x (sort_texts xs)

abbrev pub IsDistinct : List Text → Type 0
IsDistinct [] = Unit
IsDistinct (x ∷ xs) = (contains x xs ≡ false) × IsDistinct xs

-- Ascending, and no text twice.
abbrev pub IsSorted : List Text → Type 0
IsSorted [] = Unit
IsSorted (x ∷ xs) = All (λ y. less x y ≡ true) xs × IsSorted xs

pub contains-append :
    (a : Text) (xs ys : List Text) → contains a (xs ++ ys) ≡ (contains a xs || contains a ys)
contains-append a [] ys = refl
contains-append a (x ∷ xs) ys = ground (arith, contains-append a xs ys)

contains-same : (a x : Text) (xs : List Text) → same a x ≡ true → contains a xs ≡ contains x xs
contains-same a x xs h = rw (same-eq a x h)

pub contains-set_add :
    (a x : Text) (set : List Text) → contains a (set_add x set) ≡ (same a x || contains a set)
unfolding set_add
contains-set_add a x set = ground (arith, contains-append a set (x ∷ []), contains-same a x set)

pub contains-add_all :
    (a : Text) (set xs : List Text)
    → contains a (add_all set xs) ≡ (contains a set || contains a xs)
unfolding add_all
contains-add_all a set [] = ground arith
contains-add_all a set (x ∷ xs) =
    ground (arith, contains-add_all a (set_add x set) xs, contains-set_add a x set)

concat-IsDistinct :
    (x : Text) (set : List Text)
    → contains x set ≡ false
    → IsDistinct set
    → IsDistinct (set ++ x ∷ [])
concat-IsDistinct x [] h d = ground arith
concat-IsDistinct x (y ∷ ys) h d =
    ground (arith, concat-IsDistinct x ys, contains-append y ys (x ∷ []), same_comm x y)

pub set_add-IsDistinct : (x : Text) (set : List Text) → IsDistinct set → IsDistinct (set_add x set)
unfolding set_add
set_add-IsDistinct x set d = elim (Bool-cases (contains x set)) [
  | inl h ↦ rw h d
  | inr h ↦ rw h (concat-IsDistinct x set h d)
]

pub add_all-IsDistinct : (set xs : List Text) → IsDistinct set → IsDistinct (add_all set xs)
unfolding add_all
add_all-IsDistinct set [] d = d
add_all-IsDistinct set (x ∷ xs) d =
    add_all-IsDistinct (set_add x set) xs (set_add-IsDistinct x set d)

pub contains-insert_sorted :
    (a x : Text) (xs : List Text) → contains a (insert_sorted x xs) ≡ (same a x || contains a xs)
unfolding insert_sorted
contains-insert_sorted a x [] = refl
contains-insert_sorted a x (y ∷ ys) = ground (arith, contains-insert_sorted a x ys)

pub contains-sort_texts : (a : Text) (xs : List Text) → contains a (sort_texts xs) ≡ contains a xs
unfolding sort_texts
contains-sort_texts a [] = refl
contains-sort_texts a (x ∷ xs) =
    ground (arith, contains-insert_sorted a x (sort_texts xs), contains-sort_texts a xs)

-- What is below the head of a sorted list is below all of it.
All-less :
    (x y : Text) (ys : List Text)
    → less x y ≡ true
    → All (λ z. less y z ≡ true) ys
    → All (λ z. less x z ≡ true) ys
All-less x y [] h k = tt
All-less x y (z ∷ zs) h k = (less_trans x y z h k.0, All-less x y zs h k.1)

All-insert_sorted :
    (z x : Text) (xs : List Text)
    → less z x ≡ true
    → All (λ y. less z y ≡ true) xs
    → All (λ y. less z y ≡ true) (insert_sorted x xs)
unfolding insert_sorted
All-insert_sorted z x [] h k = (h, tt)
All-insert_sorted z x (y ∷ ys) h k = elim (Bool-cases (less y x)) [
  | inl l ↦ rw l (k.0, All-insert_sorted z x ys h k.1)
  | inr l ↦ rw l (h, k)
]

insert_sorted-IsSorted :
    (x : Text) (xs : List Text)
    → contains x xs ≡ false
    → IsSorted xs
    → IsSorted (insert_sorted x xs)
unfolding insert_sorted
insert_sorted-IsSorted x [] h s = (tt, tt)
insert_sorted-IsSorted x (y ∷ ys) h s = elim (Bool-cases (less y x)) [
  | inl l ↦ rw l (All-insert_sorted y x ys l s.0, insert_sorted-IsSorted x ys (ground arith) s.1)
  | inr l ↦
      let below : less x y ≡ true = ground (arith, less_total y x, same_comm x y) in
      rw l ((below, All-less x y ys below s.0), s)
]

pub sort_texts-IsSorted : (xs : List Text) → IsDistinct xs → IsSorted (sort_texts xs)
unfolding sort_texts
sort_texts-IsSorted [] d = tt
sort_texts-IsSorted (x ∷ xs) d =
    insert_sorted-IsSorted x (sort_texts xs) (contains-sort_texts x xs ∙ d.0)
      (sort_texts-IsSorted xs d.1)

not-contains_of_below :
    (x : Text) (ys : List Text) → All (λ y. less x y ≡ true) ys → contains x ys ≡ false
not-contains_of_below x [] h = refl
not-contains_of_below x (y ∷ ys) h = ground (arith, ne_of_less x y, not-contains_of_below x ys h.1)

less_of_contains :
    (x a : Text) (ys : List Text)
    → All (λ y. less x y ≡ true) ys
    → contains a ys ≡ true
    → less x a ≡ true
less_of_contains x a [] h k = absurd (cc)
less_of_contains x a (y ∷ ys) h k = ground (arith, same_iff a y, less_of_contains x a ys h.1)

-- The heads of two sorted lists with the same elements are the same.
head_unique :
    (x y : Text) (xs ys : List Text)
    → IsSorted (x ∷ xs)
    → IsSorted (y ∷ ys)
    → contains x (y ∷ ys) ≡ true
    → contains y (x ∷ xs) ≡ true
    → same x y ≡ true
head_unique x y xs ys s t h k =
    ground (
      arith,
      less_of_contains y x ys t.0,
      less_of_contains x y xs s.0,
      less_asymm x y,
      same_comm x y,
    )

-- A sorted list is determined by its elements.
pub IsSorted-ext :
    (xs ys : List Text)
    → IsSorted xs
    → IsSorted ys
    → ((a : Text) → contains a xs ≡ contains a ys)
    → xs ≡ ys
IsSorted-ext [] [] s t h = refl
IsSorted-ext [] (y ∷ ys) s t h = absurd (ground (arith, h y, same_refl y))
IsSorted-ext (x ∷ xs) [] s t h = absurd (ground (arith, h x, same_refl x))
IsSorted-ext (x ∷ xs) (y ∷ ys) s t h =
    let e : x ≡ y = same-eq x y (
      head_unique x y xs ys s t (ground (arith, h x, same_refl x))
        (ground (arith, h y, same_refl y))) in
    ap₂ ◌∷◌ e (IsSorted-ext xs ys s.1 t.1 (λ a. tails a (Bool-cases (same a x)) e))
  where
    tails :
        (a : Text) → (same a x ≡ true) ⊎ (same a x ≡ false) → x ≡ y → contains a xs ≡ contains a ys
    tails a (inl p) e =
        ground (arith, same_iff a x, not-contains_of_below x xs s.0, not-contains_of_below y ys t.0)
    tails a (inr p) e = ground (arith, h a)

pub IsSorted-IsDistinct : (xs : List Text) → IsSorted xs → IsDistinct xs
IsSorted-IsDistinct [] s = tt
IsSorted-IsDistinct (x ∷ xs) s = (not-contains_of_below x xs s.0, IsSorted-IsDistinct xs s.1)

-- sort.Strings leaves a sorted list as it is.
pub sort_texts_of_IsSorted : (xs : List Text) → IsSorted xs → sort_texts xs ≡ xs
sort_texts_of_IsSorted xs s =
    IsSorted-ext (sort_texts xs) xs (sort_texts-IsSorted xs (IsSorted-IsDistinct xs s)) s
      (λ a. contains-sort_texts a xs)
