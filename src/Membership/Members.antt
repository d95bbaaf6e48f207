-- ===== src/Membership/Members.antt =====
-- normalizeMembers: which names it keeps, and that the map's iteration order does not show.
use p2pos.Common.{
  ◌≡◌, refl, sym, ap, true, false, not, ◌&&◌, ◌||◌, List, [], ◌∷◌, map, arith, Bool-cases, inl, inr,
  ◌∙◌,
}
use p2pos.Text.{Text, same, is_blank, trim_space, contains}
use p2pos.Text.Order.{same_iff, same_refl}
use p2pos.Text.Sorted.{
  set_add, sort_texts, IsSorted, IsDistinct, contains-set_add, contains-sort_texts,
  set_add-IsDistinct, sort_texts-IsSorted, IsSorted-ext,
}
use p2pos.Text.Trim.{trim_space_idem}
use p2pos.Membership.{unique_members, normalize_members}

-- What a blank name would add is blank.
blank_same : (a b : Text) → is_blank b ≡ true → same a b ≡ is_blank a
unfolding same
blank_same [] [] h = refl
blank_same [] (y ∷ b) h = cc
blank_same (x ∷ a) [] h = refl
blank_same (x ∷ a) (y ∷ b) h = cc

contains-unique_members :
    (a : Text) (uniq names : List Text)
    → contains a (unique_members uniq names)
      ≡ (contains a uniq || not (is_blank a) && contains a (map trim_space names))
unfolding unique_members
contains-unique_members a uniq [] = ground arith
contains-unique_members a uniq (raw ∷ rest) = elim (Bool-cases (is_blank (trim_space raw))) [
  | inl h ↦
      rw h (contains-unique_members a uniq rest ∙ ground (arith, blank_same a (trim_space raw) h))
  | inr h ↦ rw h (
      contains-unique_members a (set_add (trim_space raw) uniq) rest
      ∙ ground (arith, contains-set_add a (trim_space raw) uniq, same_iff a (trim_space raw)))
]

unique_members-IsDistinct :
    (uniq names : List Text) → IsDistinct uniq → IsDistinct (unique_members uniq names)
unfolding unique_members
unique_members-IsDistinct uniq [] d = d
unique_members-IsDistinct uniq (raw ∷ rest) d = elim (Bool-cases (is_blank (trim_space raw))) [
  | inl h ↦ rw h (unique_members-IsDistinct uniq rest d)
  | inr h ↦ rw h (
      unique_members-IsDistinct (set_add (trim_space raw) uniq) rest
        (set_add-IsDistinct (trim_space raw) uniq d))
]

-- The normalized list holds exactly the names that are not blank, with their outer spaces gone.
pub contains-normalize_members :
    (a : Text) (names : List Text)
    → contains a (normalize_members names) ≡ (not (is_blank a) && contains a (map trim_space names))
unfolding normalize_members
contains-normalize_members a names =
    contains-sort_texts a (unique_members [] names) ∙ contains-unique_members a [] names

-- The normalized list ascends strictly, so no name stands in it twice.
pub normalize_members-IsSorted : (names : List Text) → IsSorted (normalize_members names)
unfolding normalize_members
normalize_members-IsSorted names =
    sort_texts-IsSorted (unique_members [] names) (unique_members-IsDistinct [] names tt)

-- Two lists that hold the same trimmed names, in any order and as often as they like, have one
-- normal form. Blank names do not count.
pub normalize_members-ext :
    (xs ys : List Text)
    → ((a : Text)
        → is_blank a ≡ false
        → contains a (map trim_space xs) ≡ contains a (map trim_space ys))
    → normalize_members xs ≡ normalize_members ys
normalize_members-ext xs ys h =
    IsSorted-ext (normalize_members xs) (normalize_members ys) (normalize_members-IsSorted xs)
      (normalize_members-IsSorted ys)
      (λ a. elim (Bool-cases (is_blank a)) [
        | inl p ↦ ground (arith, contains-normalize_members a xs, contains-normalize_members a ys)
        | inr p ↦
            ground (arith, contains-normalize_members a xs, contains-normalize_members a ys, h a p)
      ])

-- The iteration order of the map `uniq` is not visible: sorting the keys in any order gives the
-- same list.
pub sort-order_free :
    (names keys : List Text)
    → IsDistinct keys
    → ((a : Text) → contains a keys ≡ contains a (unique_members [] names))
    → sort_texts keys ≡ normalize_members names
unfolding normalize_members
sort-order_free names keys d h =
    IsSorted-ext (sort_texts keys) (normalize_members names) (sort_texts-IsSorted keys d)
      (normalize_members-IsSorted names)
      (λ a.
        contains-sort_texts a keys ∙ h a ∙ sym (contains-sort_texts a (unique_members [] names)))

pub trimmed_of_contains :
    (a : Text) (xs : List Text) → contains a (map trim_space xs) ≡ true → trim_space a ≡ a
trimmed_of_contains a [] h = cc
trimmed_of_contains a (x ∷ xs) h = elim (Bool-cases (same a (trim_space x))) [
  | inl e ↦ let p = (same_iff a (trim_space x)).0 e in ap trim_space p ∙ trim_space_idem x ∙ sym p
  | inr e ↦ trimmed_of_contains a xs (ground arith)
]

pub map-trim_fixed :
    (xs : List Text)
    → ((a : Text) → contains a xs ≡ true → trim_space a ≡ a)
    → map trim_space xs ≡ xs
map-trim_fixed [] h = refl
map-trim_fixed (x ∷ xs) h =
    cc (h x (ground (arith, same_refl x)), map-trim_fixed xs (λ a k. h a (ground arith)))

pub map-trim-normalize_members :
    (names : List Text) → map trim_space (normalize_members names) ≡ normalize_members names
map-trim-normalize_members names =
    map-trim_fixed (normalize_members names)
      λ a h. trimmed_of_contains a names (ground (arith, contains-normalize_members a names))

-- Normalizing twice is normalizing once.
pub normalize_members_idem :
    (names : List Text) → normalize_members (normalize_members names) ≡ normalize_members names
normalize_members_idem names = normalize_members-ext (normalize_members names) names λ a p.
    ap (contains a) (map-trim-normalize_members names)
    ∙ ground (arith, contains-normalize_members a names)
