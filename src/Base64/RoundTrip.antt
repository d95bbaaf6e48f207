-- ===== src/Base64/RoundTrip.antt =====
-- What EncodeToString writes, DecodeString reads back.
use p2pos.Text.{trim_left, Text, trim_right, trim_space, is_space}
use p2pos.Common.{
  ◌≢◌, false, ℕ, ◌+◌, ◌*◌, ◌/◌, ◌%◌, ◌<◌, ◌≡◌, refl, Bool, true, not, ◌||◌, [], ◌∷◌, Option, some,
  none, ◌==◌, All, keep, arith, ap, ap₂, ◌∙◌,
}
use p2pos.Base64.{
  Bytes, digit, value, pad, encode, decode, quantum, decode_digits, join_quantum, ends,
}

abbrev pub IsBytes : Bytes → Type 0
IsBytes = All (λ b. b < 256)

value-digit : (v : ℕ) → v < 64 → value (digit v) ≡ some v
unfolding value digit
value-digit v h = ground arith

value-pad : value pad ≡ none
unfolding value
value-pad = refl

abbrev is_kept : ℕ → Bool
is_kept c = not (c == 10 || c == 13)

digit-is_kept : (v : ℕ) → is_kept (digit v) ≡ true
unfolding digit
digit-is_kept v = ground arith

keep-encode : (bs : Bytes) → keep is_kept (encode bs) ≡ encode bs
unfolding encode keep
keep-encode [] = refl
keep-encode (a ∷ []) = rw (digit-is_kept (a / 4), digit-is_kept (a % 4 * 16)) refl
keep-encode (a ∷ b ∷ []) =
    rw (digit-is_kept (a / 4), digit-is_kept (a % 4 * 16 + b / 16), digit-is_kept (b % 16 * 4)) refl
keep-encode (a ∷ b ∷ c ∷ rest) =
    rw
      (
        digit-is_kept (a / 4),
        digit-is_kept (a % 4 * 16 + b / 16),
        digit-is_kept (b % 16 * 4 + c / 64),
        digit-is_kept (c % 64),
        keep-encode rest,
      )
      refl

-- Two, three and four digits, by the values that they stand for.
quantum_one :
    (p q : ℕ)
    → p < 64
    → q < 64
    → quantum (digit p) (digit q) pad pad true ≡ some ((p * 4 + q / 16) ∷ [])
unfolding quantum
quantum_one p q hp hq = ground (arith, value-digit p hp, value-digit q hq, value-pad)

quantum_two :
    (p q r : ℕ)
    → p < 64
    → q < 64
    → r < 64
    → quantum (digit p) (digit q) (digit r) pad true
      ≡ some ((p * 4 + q / 16) ∷ (q % 16 * 16 + r / 4) ∷ [])
unfolding quantum
quantum_two p q r hp hq hr =
    ground (arith, value-digit p hp, value-digit q hq, value-digit r hr, value-pad)

quantum_three :
    (p q r s : ℕ) (last : Bool)
    → p < 64
    → q < 64
    → r < 64
    → s < 64
    → quantum (digit p) (digit q) (digit r) (digit s) last
      ≡ some ((p * 4 + q / 16) ∷ (q % 16 * 16 + r / 4) ∷ (r % 4 * 64 + s) ∷ [])
unfolding quantum
quantum_three p q r s last hp hq hr hs =
    ground (arith, value-digit p hp, value-digit q hq, value-digit r hr, value-digit s hs)

three :
    {x y z a b c : ℕ} (rest : Bytes)
    → x ≡ a
    → y ≡ b
    → z ≡ c
    → ◌≡◌ {A = Option Bytes} (some (x ∷ y ∷ z ∷ rest)) (some (a ∷ b ∷ c ∷ rest))
three rest p q r = cc

decode_digits-encode : (bs : Bytes) → IsBytes bs → decode_digits (encode bs) ≡ some bs
unfolding decode_digits encode join_quantum
decode_digits-encode [] h = refl
decode_digits-encode (a ∷ []) h =
    rw (quantum_one (a / 4) (a % 4 * 16) (omega arith) (omega arith))
      (ap (λ x. some (x ∷ [])) (omega arith))
decode_digits-encode (a ∷ b ∷ []) h =
    rw
      (quantum_two (a / 4) (a % 4 * 16 + b / 16) (b % 16 * 4) (omega arith) (omega arith)
        (omega arith))
      (ap₂ (λ x y. some (x ∷ y ∷ [])) (omega arith) (omega arith))
decode_digits-encode (a ∷ b ∷ c ∷ rest) h =
    rw
      (
        quantum_three (a / 4) (a % 4 * 16 + b / 16) (b % 16 * 4 + c / 64) (c % 64)
            (ends (encode rest)) (omega arith) (omega arith) (omega arith) (omega arith),
        decode_digits-encode rest h.1.1.1,
      )
      (three rest (omega arith) (omega arith) (omega arith))

pub decode-encode : (bs : Bytes) → IsBytes bs → decode (encode bs) ≡ some bs
unfolding decode
decode-encode bs h = ap decode_digits (keep-encode bs) ∙ decode_digits-encode bs h

digit-not-space : (v : ℕ) → is_space (digit v) ≡ false
unfolding digit is_space
digit-not-space v = ground arith

trim_right-ne-nil : (c : ℕ) (s : Text) → is_space c ≡ false → trim_right (c ∷ s) ≢ []
unfolding trim_right
trim_right-ne-nil c s h = ground arith

trim_space-ne-nil : (c : ℕ) (s : Text) → is_space c ≡ false → trim_space (c ∷ s) ≢ []
unfolding trim_space trim_left
trim_space-ne-nil c s h = rw h (trim_right-ne-nil c s h)

-- The text of bytes is not blank.
pub trim_space-encode_ne-nil : (bs : Bytes) → bs ≢ [] → trim_space (encode bs) ≢ []
unfolding encode
trim_space-encode_ne-nil [] h = absurd (h refl)
trim_space-encode_ne-nil (a ∷ []) h = trim_space-ne-nil _ _ (digit-not-space (a / 4))
trim_space-encode_ne-nil (a ∷ b ∷ []) h = trim_space-ne-nil _ _ (digit-not-space (a / 4))
trim_space-encode_ne-nil (a ∷ b ∷ c ∷ rest) h = trim_space-ne-nil _ _ (digit-not-space (a / 4))
