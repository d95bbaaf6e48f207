-- ===== src/Update/Version/Ranking.antt =====
-- The order of versions: by time, and at one time a release stands above its -dev build.
use p2pos.Update.Version.{
  is_digit, parse_version, compare_version, ParsedVersion, compare_parsed, take_digits,
  parse_minute,
}
use p2pos.Text.{trim_space, Text}
use p2pos.Common.{
  Bool-cases, ◌≤◌, ◌-◌, ◌^◌, compare, Option-cases, [], ◌<◌, ◌*◌, ◌+◌, ◌∷◌, ◌≡◌, if◌then◌else◌, ℕ,
  arith, inr, inl, some, suc, zero,
}
use native.Mathlib.Nat.{pow-suc}

-- A number that says where a parsed version stands.
unfoldable pub rank : ParsedVersion → ℕ
rank v = (v.day * 10000 + v.minute) * 2 + (if v.is_dev then 0 else 1)

-- One more digit at the end of a number.
widen : (acc d p v : ℕ) → d ≤ 9 → v < (acc * 10 + d + 1) * p → v < (acc + 1) * (p * 10)
widen acc d p v h k = grind arith

take_digits-bound :
    (n acc : ℕ) (s rest : Text) (v : ℕ)
    → take_digits n acc s ≡ some (v, rest)
    → v < (acc + 1) * 10 ^ n
unfolding take_digits
take_digits-bound zero acc s rest v h = ground arith
take_digits-bound (suc n) acc [] rest v h = absurd (cc)
take_digits-bound (suc n) acc (c ∷ s) rest v h = elim (Bool-cases (is_digit c)) [
  | inl d ↦ rw pow-suc (
      widen acc (c - b'0') (10 ^ n) v (ground arith)
        (take_digits-bound n (acc * 10 + (c - b'0')) s rest v (rw d at h)))
  | inr d ↦ absurd (cc (rw d at h))
]

four_digits : (s rest : Text) (v : ℕ) → take_digits 4 0 s ≡ some (v, rest) → v < 10000
four_digits s rest v h = take_digits-bound 4 0 s rest v h

parse_minute-minute :
    (day : ℕ) (s : Text) (v : ParsedVersion) → parse_minute day s ≡ some v → v.minute < 10000
unfolding parse_minute
parse_minute-minute day [] v h = absurd (cc)
parse_minute-minute day (c ∷ s) v h = elim (Option-cases (take_digits 4 0 s)) [
  | inl e ↦ absurd (ground arith)
  | inr ((m, rest), e) ↦ ground (arith, four_digits s rest m e)
]

pub parse_version-minute :
    (t : Text) (v : ParsedVersion) → parse_version t ≡ some v → v.minute < 10000
unfolding parse_version
parse_version-minute t v h = elim (Option-cases (take_digits 8 0 (trim_space t))) [
  | inl e ↦ absurd (cc (rw (parse_version, e) at h))
  | inr ((d, rest), e) ↦ parse_minute-minute d rest v (rw (parse_version, e) at h)
]

compare_parsed-rank :
    (a b : ParsedVersion)
    → a.minute < 10000
    → b.minute < 10000
    → compare_parsed a b ≡ compare (rank a) (rank b)
unfolding compare_parsed rank
compare_parsed-rank a b h k = ground arith

-- On versions of the format, compareVersion compares by time, and takes a release to be newer than
-- the -dev build of the same minute: it is the order of the ranks.
pub compare_version-rank :
    (a b : Text) (u v : ParsedVersion)
    → parse_version a ≡ some u
    → parse_version b ≡ some v
    → compare_version a b ≡ compare (rank u) (rank v)
unfolding compare_version
compare_version-rank a b u v p q =
    rw (compare_version, p, q)
      (compare_parsed-rank u v (parse_version-minute a u p) (parse_version-minute b v q))
