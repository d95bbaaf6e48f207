-- ===== src/Database/Migration/Rebuilt.antt =====
-- The table after a rebuild.
use p2pos.Text.Order.{same_iff}
use p2pos.Text.{is_blank, same, contains, Text}
use p2pos.Database.{DbError, Faults, statement_failed}
use p2pos.Time.{Time}
use p2pos.Common.{
  subst, sym, Option-cases, Bool-cases, map, [], ◌⊎◌, ◌||◌, ◌&&◌, ◌∙◌, ◌∷◌, ◌≡◌, List, not, ap,
  arith, is_empty, err, ok, refl, inr, inl, false, true,
}
use p2pos.Text.Sorted.{IsDistinct}
use p2pos.Database.Migration.{
  failing_statement, new_columns, no_flags, note_column, id_of, rebuild, move_addrs, Flags,
  read_columns, copy_rows, upsert_row, copied_row, needs_rebuild, migrate_peer_schema, Row, Schema,
}

abbrev pub row_ids : List Row → List Text
row_ids = map id_of

contains-upsert_row :
    (a : Text) (r : Row) (rows : List Row)
    → contains a (row_ids (upsert_row r rows)) ≡ (same a (id_of r) || contains a (row_ids rows))
unfolding upsert_row
contains-upsert_row a r [] = refl
contains-upsert_row a r (q ∷ rest) =
    ground (arith, contains-upsert_row a r rest, same_iff (id_of q) (id_of r))

upsert_row-IsDistinct :
    (r : Row) (rows : List Row)
    → IsDistinct (row_ids rows)
    → IsDistinct (row_ids (upsert_row r rows))
unfolding upsert_row
upsert_row-IsDistinct r [] d = (refl, tt)
upsert_row-IsDistinct r (q ∷ rest) d = elim (Bool-cases (same (id_of q) (id_of r))) [
  | inl e ↦ rw e (rw ((same_iff (id_of q) (id_of r)).0 e) at d)
  | inr e ↦
      rw e (
        contains-upsert_row (id_of q) r rest ∙ ground (arith, d.0),
        upsert_row-IsDistinct r rest d.1,
      )
]

copied_row-id : (f : Flags) (now : Time) (r : Row) → id_of (copied_row f now r) ≡ id_of r
unfolding copied_row
copied_row-id f now r = refl

copy_rows-IsDistinct :
    (f : Flags) (now : Time) (copied rows : List Row)
    → IsDistinct (row_ids copied)
    → IsDistinct (row_ids (copy_rows f now copied rows))
unfolding copy_rows
copy_rows-IsDistinct f now copied [] d = d
copy_rows-IsDistinct f now copied (r ∷ rest) d = elim (Bool-cases (is_blank (id_of r))) [
  | inl h ↦ rw h (copy_rows-IsDistinct f now copied rest d)
  | inr h ↦ rw h (
      copy_rows-IsDistinct f now (upsert_row (copied_row f now r) copied) rest
        (upsert_row-IsDistinct (copied_row f now r) copied d))
]

contains-copy_rows :
    (a : Text) (f : Flags) (now : Time) (copied rows : List Row)
    → contains a (row_ids (copy_rows f now copied rows))
      ≡ (contains a (row_ids copied) || not (is_blank a) && contains a (row_ids rows))
unfolding copy_rows
contains-copy_rows a f now copied [] = ground arith
contains-copy_rows a f now copied (r ∷ rest) = elim (Bool-cases (is_blank (id_of r))) [
  | inl h ↦ rw h (contains-copy_rows a f now copied rest ∙ ground (arith, same_iff a (id_of r)))
  | inr h ↦ rw h (
      contains-copy_rows a f now (upsert_row (copied_row f now r) copied) rest
      ∙ ground (
        arith,
        contains-upsert_row a (copied_row f now r) copied,
        copied_row-id f now r,
        same_iff a (id_of r),
      ))
]

-- The present form needs no rebuild and has no column to drop.
new_columns_done :
    (needs_rebuild (read_columns no_flags new_columns) ≡ false)
    × ((read_columns no_flags new_columns).has_addrs ≡ false)
unfolding needs_rebuild read_columns note_column same
new_columns_done = (refl, refl)

migrated_again :
    (faults : Faults) (now : Time) (s : Schema)
    → s.columns ≡ new_columns
    → faults 0 ≡ false
    → migrate_peer_schema faults now s ≡ (s, ok tt)
unfolding migrate_peer_schema move_addrs
migrated_again faults now s columns read =
    let rebuilt : needs_rebuild (read_columns no_flags s.columns) ≡ false =
      ap (λ c. needs_rebuild (read_columns no_flags c)) columns ∙ new_columns_done.0 in
    let dropped : (read_columns no_flags s.columns).has_addrs ≡ false =
      ap (λ c. (read_columns no_flags c).has_addrs) columns ∙ new_columns_done.1 in
    let filled : is_empty s.columns ≡ false = ap is_empty columns in
    simp (migrate_peer_schema, move_addrs, read, filled, rebuilt, dropped)

abbrev rebuilt : Time → Schema → Schema
rebuilt now s = record {
  columns = new_columns;
  rows = copy_rows (read_columns no_flags s.columns) now [] s.rows;
}

migrate_peer_schema_cases :
    (faults : Faults) (now : Time) (s : Schema)
    → needs_rebuild (read_columns no_flags s.columns) ≡ true
    → is_empty s.columns ≡ false
    → ((e : DbError) × (migrate_peer_schema faults now s ≡ (s, err e)))
      ⊎ (migrate_peer_schema faults now s ≡ (rebuilt now s, ok tt))
unfolding migrate_peer_schema rebuild
migrate_peer_schema_cases faults now s old filled = elim (Bool-cases (faults 0)) [
  | inl h ↦ simp (migrate_peer_schema, h) (inl (statement_failed 0, refl))
  | inr read ↦ elim (Option-cases (failing_statement faults s)) [
    | inr (n, fails) ↦
        simp (migrate_peer_schema, rebuild, read, old, filled, fails)
          (inl (statement_failed n, refl))
    | inl works ↦ inr (simp (migrate_peer_schema, rebuild, read, old, filled, works))
  ]
]

-- A table in the present form, with one row for each id of the old one and no row without an id;
-- another migration finds nothing to do.
pub record IsRebuilt (s next : Schema) : Type 0 where
  pub columns : next.columns ≡ new_columns
  pub distinct : IsDistinct (row_ids next.rows)
  pub same_ids :
      (a : Text)
      → contains a (row_ids next.rows) ≡ (not (is_blank a) && contains a (row_ids s.rows))
  pub finished :
      (faults : Faults) (now : Time)
      → faults 0 ≡ false
      → migrate_peer_schema faults now next ≡ (next, ok tt)

rebuilt-IsRebuilt : (now : Time) (s : Schema) → IsRebuilt s (rebuilt now s)
rebuilt-IsRebuilt now s = record {
  columns = refl;
  distinct = copy_rows-IsDistinct (read_columns no_flags s.columns) now [] s.rows tt;
  same_ids = λ a. contains-copy_rows a (read_columns no_flags s.columns) now [] s.rows;
  finished = λ faults later_now fine. migrated_again faults later_now (rebuilt now s) refl fine;
}

-- A table that needs it is rebuilt as a whole or, with an error, stays as it is.
pub rebuilds :
    (faults : Faults) (now : Time) (s : Schema)
    → needs_rebuild (read_columns no_flags s.columns) ≡ true
    → is_empty s.columns ≡ false
    → ((e : DbError) × (migrate_peer_schema faults now s ≡ (s, err e)))
      ⊎ (((migrate_peer_schema faults now s).1 ≡ ok tt)
          × IsRebuilt s (migrate_peer_schema faults now s).0)
rebuilds faults now s old filled = elim (migrate_peer_schema_cases faults now s old filled) [
  | inl failed ↦ inl failed
  | inr made ↦
      inr (ap (λ x. x.1) made, subst (λ x. IsRebuilt s x.0) (sym made) (rebuilt-IsRebuilt now s))
]
