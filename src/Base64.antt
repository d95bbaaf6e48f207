-- ===== src/Base64.antt =====
-- base64.StdEncoding of the Go library: EncodeToString and DecodeString.
pub mod RoundTrip
pub mod Spaces
use p2pos.Common.{
  ℕ, ◌+◌, ◌-◌, ◌*◌, ◌/◌, ◌%◌, Bool, true, false, ◌&&◌, ◌||◌, not, List, [], ◌∷◌, ◌++◌, Option, none,
  some, if◌then◌else◌, leb, ◌==◌, ltb, keep,
}
use p2pos.Text.{Text}

abbrev pub Bytes : Type 0
Bytes = List ℕ

-- The digit for a value below 64.
unfoldable pub digit : ℕ → ℕ
digit v =
    if ltb v 26
    then v + 65
    else if ltb v 52
    then v + 71
    else if ltb v 62
    then v - 4
    else if v == 62
    then b'+'
    else b'/'

-- The value of a digit.
unfoldable pub value : ℕ → Option ℕ
value c =
    if leb 65 c && leb c 90
    then some (c - 65)
    else if leb 97 c && leb c 122
    then some (c - 71)
    else if leb 48 c && leb c 57
    then some (c + 4)
    else if c == b'+'
    then some 62
    else if c == b'/'
    then some 63
    else none

abbrev pub pad : ℕ
pad = 61

unfoldable pub encode : Bytes → Text
unfolding digit
encode [] = []
encode (a ∷ []) = digit (a / 4) ∷ digit (a % 4 * 16) ∷ pad ∷ pad ∷ []
encode (a ∷ b ∷ []) = digit (a / 4) ∷ digit (a % 4 * 16 + b / 16) ∷ digit (b % 16 * 4) ∷ pad ∷ []
encode (a ∷ b ∷ c ∷ rest) =
    digit (a / 4)
    ∷ digit (a % 4 * 16 + b / 16)
    ∷ digit (b % 16 * 4 + c / 64)
    ∷ digit (c % 64)
    ∷ encode rest

-- One quantum of four digits; padding is taken only where nothing follows.
unfoldable pub quantum : ℕ → ℕ → ℕ → ℕ → Bool → Option Bytes
quantum w x y z last = elim (value w) [
  | none ↦ none
  | some p ↦ elim (value x) [
    | none ↦ none
    | some q ↦ elim (value y) [
      | none ↦ if y == pad && z == pad && last then some ((p * 4 + q / 16) ∷ []) else none
      | some r ↦ elim (value z) [
        | none ↦
            if z == pad && last then some ((p * 4 + q / 16) ∷ (q % 16 * 16 + r / 4) ∷ []) else none
        | some s ↦ some ((p * 4 + q / 16) ∷ (q % 16 * 16 + r / 4) ∷ (r % 4 * 64 + s) ∷ [])
      ]
    ]
  ]
]

join_quantum : Option Bytes → Option Bytes → Option Bytes
join_quantum none _ = none
join_quantum (some a) none = none
join_quantum (some a) (some b) = some (a ++ b)

abbrev ends : Text → Bool
ends [] = true
ends (c ∷ s) = false

unfoldable pub decode_digits : Text → Option Bytes
unfolding quantum join_quantum
decode_digits [] = some []
decode_digits (w ∷ x ∷ y ∷ z ∷ rest) =
    join_quantum (quantum w x y z (ends rest)) (decode_digits rest)
decode_digits _ = none

-- The decoder skips line breaks wherever they stand.
unfoldable pub decode : Text → Option Bytes
unfolding decode_digits value
decode s = decode_digits (keep (λ c. not (c == 10 || c == 13)) s)
