-- ===== src/Update/Version.antt =====
-- internal/update/update.go, parseVersion and compareVersion: versions YYYYMMDD-HHMM[-dev].
pub mod Ranking
use p2pos.Text.{codes, same, is_blank, trim_space, less, Text}
use p2pos.Common.{
  [], ◌*◌, ◌-◌, ◌+◌, ◌∷◌, zero, true, ◌&&◌, suc, false, same_bool, some, none, leb, Option, not,
  Bool, Ordering, ℕ, ◌==◌, if◌then◌else◌, ltb,
}
use mathlib.Core.Option

pub record ParsedVersion : Type 0 where
  pub day : ℕ
  pub minute : ℕ
  pub is_dev : Bool

abbrev pub is_digit : ℕ → Bool
is_digit c = leb b'0' c && leb c b'9'

-- \d{n} at the start of a text: its value, and the rest.
unfoldable pub take_digits : ℕ → ℕ → Text → Option (ℕ × Text)
take_digits zero acc s = some (acc, s)
take_digits (suc n) acc [] = none
take_digits (suc n) acc (c ∷ s) =
    let rest = take_digits n (acc * 10 + (c - b'0')) s in if is_digit c then rest else none

-- (-dev)?$
unfoldable pub dev_suffix : Text → Option Bool
dev_suffix s = if is_blank s then some false else if same s (codes "-dev") then some true else none

-- The part behind the day: -(\d{4})(-dev)?$
unfoldable pub parse_minute : ℕ → Text → Option ParsedVersion
parse_minute day [] = none
parse_minute day (c ∷ s) = if not (c == b'-') then none else elim (take_digits 4 0 s) [
  | none ↦ none
  | some (minute, rest) ↦
      Option.map (λ is_dev. record { day = day; minute = minute; is_dev = is_dev })
        (dev_suffix rest)
]

-- The field `ok` of the source says that there is a value. Atoi cannot fail on eight digits.
unfoldable pub parse_version : Text → Option ParsedVersion
parse_version v = elim (take_digits 8 0 (trim_space v)) [
  | none ↦ none
  | some (day, rest) ↦ parse_minute day rest
]

-- -1, 0 and 1 of the source
unfoldable pub compare_parsed : ParsedVersion → ParsedVersion → Ordering
compare_parsed a b =
    if not (a.day == b.day)
    then if ltb a.day b.day then Ordering.lt else Ordering.gt
    else if not (a.minute == b.minute)
    then if ltb a.minute b.minute then Ordering.lt else Ordering.gt
    else if same_bool a.is_dev b.is_dev
    then Ordering.eq
    else if a.is_dev
    then Ordering.lt
    else Ordering.gt

unfoldable pub compare_text : Text → Text → Ordering
compare_text a b = if less a b then Ordering.lt else if less b a then Ordering.gt else Ordering.eq

unfoldable pub compare_version : Text → Text → Ordering
compare_version a b = elim (parse_version a) [
  | none ↦ compare_text a b
  | some pa ↦ elim (parse_version b) [ none ↦ compare_text a b | some pb ↦ compare_parsed pa pb ]
]
