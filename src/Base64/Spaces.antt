-- ===== src/Base64/Spaces.antt =====
-- The text of bytes has no spaces, so TrimSpace leaves it as it is.
use p2pos.Base64.{digit, Bytes, encode}
use p2pos.Text.{trim_left, trim_right, trim_space, is_space, Text}
use p2pos.Common.{[], ◌%◌, ◌/◌, ◌*◌, ◌+◌, ◌∷◌, ◌≡◌, ℕ, arith, All, refl, false}

abbrev pub HasNoSpace : Text → Type 0
HasNoSpace = All (λ c. is_space c ≡ false)

trim_right_of_no_space : (s : Text) → HasNoSpace s → trim_right s ≡ s
unfolding trim_right
trim_right_of_no_space [] h = refl
trim_right_of_no_space (c ∷ s) h = ground (arith, trim_right_of_no_space s h.1)

pub trim_space_of_no_space : (s : Text) → HasNoSpace s → trim_space s ≡ s
unfolding trim_space trim_left
trim_space_of_no_space [] h = refl
trim_space_of_no_space (c ∷ s) h = rw h.0 (trim_right_of_no_space (c ∷ s) h)

digit_clean : (v : ℕ) → is_space (digit v) ≡ false
unfolding digit is_space
digit_clean v = ground arith

encode-HasNoSpace : (bs : Bytes) → HasNoSpace (encode bs)
unfolding encode is_space
encode-HasNoSpace [] = tt
encode-HasNoSpace (a ∷ []) = (digit_clean (a / 4), (digit_clean (a % 4 * 16), (refl, (refl, tt))))
encode-HasNoSpace (a ∷ b ∷ []) = (
  digit_clean (a / 4),
  (digit_clean (a % 4 * 16 + b / 16), (digit_clean (b % 16 * 4), (refl, tt))),
)
encode-HasNoSpace (a ∷ b ∷ c ∷ rest) = (
  digit_clean (a / 4),
  (
    digit_clean (a % 4 * 16 + b / 16),
    (digit_clean (b % 16 * 4 + c / 64), (digit_clean (c % 64), encode-HasNoSpace rest)),
  ),
)

pub trim_space-encode : (bs : Bytes) → trim_space (encode bs) ≡ encode bs
trim_space-encode bs = trim_space_of_no_space (encode bs) (encode-HasNoSpace bs)
