-- ===== src/Time.antt =====
-- time.Time as an instant. A number counts nanoseconds from a day before the year 0, which no
-- timestamp of the program precedes (RFC 3339 has the years 0 to 9999, and offsets below a day);
-- Go's zero time, the start of the year 1, is 367 days later. A value's zone shows nowhere: the
-- program calls UTC() before it compares or prints.
use p2pos.Common.{◌<◌, ◌≤◌, ◌*◌, ℕ, Bool, ltb, ◌==◌}

abbrev pub Time : Type 0
Time = ℕ

abbrev pub second : ℕ
second = 1_000_000_000

-- time.Time{}
abbrev pub zero_time : Time
zero_time = 31_708_800_000_000_000

-- The days of the years 0 to 9999, of which year 0 begins at day 1: the instants that in UTC have a
-- year of four digits. Another one is printed too, but not read back.
abbrev pub IsPrintable : Time → Type 0
IsPrintable t = (86_400 * second ≤ t) × (t < 3_652_426 * 86_400 * second)

-- t.IsZero()
abbrev pub is_zero : Time → Bool
is_zero t = t == zero_time

-- t.After(u)
abbrev pub after : Time → Time → Bool
after t u = ltb u t

-- t.Before(u)
abbrev pub before : Time → Time → Bool
before t u = ltb t u
