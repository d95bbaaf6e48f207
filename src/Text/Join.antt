-- ===== src/Text/Join.antt =====
-- strings.Join by one character can be taken apart if no part contains it.
use p2pos.Text.{has_char, Text, join}
use p2pos.Common.{refl, ap₂, arith, ◌∙◌, ◌||◌, false, ap, ◌++◌, ◌≡◌, [], ◌∷◌, All, ◌==◌, List, ℕ}

pub has_char-append : (c : ℕ) (x y : Text) → has_char c (x ++ y) ≡ (has_char c x || has_char c y)
has_char-append c [] y = refl
has_char-append c (a ∷ x) y = ground (arith, has_char-append c x y)

cons-eq : {a b : ℕ} {x y : Text} → a ∷ x ≡ b ∷ y → (a ≡ b) × (x ≡ y)
cons-eq h = (cc, cc)

-- A text is cut in one way at the first place of a character.
pub cut_unique :
    (c : ℕ) (x y r s : Text)
    → has_char c x ≡ false
    → has_char c y ≡ false
    → x ++ c ∷ r ≡ y ++ c ∷ s
    → (x ≡ y) × (r ≡ s)
cut_unique c [] [] r s h k e = (refl, (cons-eq e).1)
cut_unique c [] (b ∷ y) r s h k e = absurd (ground (arith, (cons-eq e).0))
cut_unique c (a ∷ x) [] r s h k e = absurd (ground (arith, (cons-eq e).0))
cut_unique c (a ∷ x) (b ∷ y) r s h k e =
    let (p, q) = cut_unique c x y r s (ground arith) (ground arith) (cons-eq e).1 in
    (ap₂ ◌∷◌ (cons-eq e).0 p, q)

abbrev pub AreFree : ℕ → List Text → Type 0
AreFree c = All (λ x. has_char c x ≡ false)

pub join-inj :
    (c : ℕ) (x y : Text) (xs ys : List Text)
    → AreFree c (x ∷ xs)
    → AreFree c (y ∷ ys)
    → join (c ∷ []) (x ∷ xs) ≡ join (c ∷ []) (y ∷ ys)
    → x ∷ xs ≡ y ∷ ys
unfolding join
join-inj c x y [] [] h k e = ap (λ t. t ∷ []) e
join-inj c x y [] (y' ∷ ys) h k e =
    absurd (ground (arith, ap (has_char c) e, has_char-append c y (c ∷ join (c ∷ []) (y' ∷ ys))))
join-inj c x y (x' ∷ xs) [] h k e =
    absurd (ground (arith, ap (has_char c) e, has_char-append c x (c ∷ join (c ∷ []) (x' ∷ xs))))
join-inj c x y (x' ∷ xs) (y' ∷ ys) h k e =
    let (p, q) = cut_unique c x y (join (c ∷ []) (x' ∷ xs)) (join (c ∷ []) (y' ∷ ys)) h.0 k.0 e in
    ap₂ ◌∷◌ p (join-inj c x' y' xs ys h.1 k.1 q)

-- A joined text contains what its parts or the separator contain.
pub has_char-join :
    (c sep : ℕ) (xs : List Text)
    → (sep == c) ≡ false
    → AreFree c xs
    → has_char c (join (sep ∷ []) xs) ≡ false
unfolding join
has_char-join c sep [] h k = refl
has_char-join c sep (x ∷ []) h k = k.0
has_char-join c sep (x ∷ y ∷ xs) h k =
    has_char-append c x (sep ∷ join (sep ∷ []) (y ∷ xs))
    ∙ ground (arith, has_char-join c sep (y ∷ xs) h k.1)
