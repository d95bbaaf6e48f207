-- ===== src/Database/Migration/Outcomes.antt =====
-- Every outcome of migratePeerSchema, with a rebuild and without.
use p2pos.Database.Migration.Columns.{
  has_primary, needs_rebuild-read_columns, names, both-read_columns,
}
use p2pos.Text.Order.{same_comm}
use p2pos.Database.Migration.{
  no_flags, coalesce, needs_rebuild, move_addrs, read_columns, Row, fill_addr, Schema, Column,
  drop_addrs, migrate_peer_schema,
}
use p2pos.Database.{DbError, Faults, statement_failed}
use p2pos.Time.{Time}
use p2pos.Text.{same, codes, is_blank, contains, Text}
use p2pos.Common.{
  ◌||◌, ◌∙◌, Bool, Bool-cases, map, [], ◌⊎◌, ◌&&◌, ◌∷◌, ◌≡◌, if◌then◌else◌, List, not, subst, sym,
  ap, arith, is_empty, keep, err, ok, refl, inr, inl, false, true, none,
}
use p2pos.Database.Migration.Rebuilt.{rebuilds, row_ids, IsRebuilt}

-- The address that a row has, in the column of now or else in the one of before.
abbrev pub either_addr : Row → Text
either_addr r =
    if is_blank (coalesce r.last_remote_addr [])
    then coalesce r.addrs []
    else coalesce r.last_remote_addr []

abbrev pub remote_addrs : List Row → List Text
remote_addrs = map (λ r. coalesce r.last_remote_addr [])

-- The table `next` has lost the column `addrs`, and its rows have the peers of before and an address
-- wherever there was one in either column.
pub record IsMoved (s next : Schema) : Type 0 where
  pub dropped : contains (codes "addrs") (map (λ c. c.name) next.columns) ≡ false
  pub same_rows : row_ids next.rows ≡ row_ids s.rows
  pub addresses : remote_addrs next.rows ≡ map either_addr s.rows

contains-keep :
    (columns : List Column)
    → contains
        (codes "addrs")
        (map (λ c. c.name) (keep (λ c. not (same c.name (codes "addrs"))) columns))
      ≡ false
unfolding keep
contains-keep [] = refl
contains-keep (c ∷ rest) = ground (arith, contains-keep rest, same_comm c.name (codes "addrs"))

row_ids-moved :
    (rows : List Row)
    → row_ids (map {A = Row} (λ r. record r { addrs = none }) (map fill_addr rows)) ≡ row_ids rows
unfolding fill_addr
row_ids-moved [] = refl
row_ids-moved (r ∷ rest) = ground (arith, row_ids-moved rest)

remote_addrs-moved :
    (rows : List Row)
    → remote_addrs (map {A = Row} (λ r. record r { addrs = none }) (map fill_addr rows))
      ≡ map either_addr rows
unfolding fill_addr
remote_addrs-moved [] = refl
remote_addrs-moved (r ∷ rest) = ground (arith, remote_addrs-moved rest)

drop_addrs-IsMoved :
    (s : Schema) → IsMoved s (drop_addrs (record s { rows = map fill_addr s.rows }))
unfolding drop_addrs
drop_addrs-IsMoved s = record {
  dropped = contains-keep s.columns;
  same_rows = row_ids-moved s.rows;
  addresses = remote_addrs-moved s.rows;
}

-- Both columns of the address are there.
abbrev pub HasBoth : Schema → Type 0
HasBoth s =
    (contains (codes "addrs") (names s.columns)
      && contains (codes "last_remote_addr") (names s.columns))
    ≡ true

-- The table has a column `id`, or `peer_id` is not its primary key.
abbrev pub is_old : Schema → Bool
is_old s = contains (codes "id") (names s.columns) || not (has_primary s.columns)

moves :
    (faults : Faults) (now : Time) (s : Schema)
    → needs_rebuild (read_columns no_flags s.columns) ≡ false
    → is_empty s.columns ≡ false
    → ((e : DbError) × (migrate_peer_schema faults now s ≡ (s, err e)))
      ⊎ ((HasBoth s
            × ((e : DbError) × (migrate_peer_schema faults now s
                  ≡ (record s { rows = map fill_addr s.rows }, err e))))
          ⊎ ((HasBoth s
                × ((migrate_peer_schema faults now s).1 ≡ ok tt)
                × IsMoved s (migrate_peer_schema faults now s).0)
              ⊎ ((HasBoth s → ⊥) × (migrate_peer_schema faults now s ≡ (s, ok tt)))))
unfolding migrate_peer_schema move_addrs
moves faults now s present filled =
    let f = read_columns no_flags s.columns in
    let flags = both-read_columns s.columns in
    elim (Bool-cases (faults 0)) [
      | inl h ↦ inl (statement_failed 0, rw (migrate_peer_schema, h) refl)
      | inr read ↦ elim (Bool-cases (f.has_addrs && f.has_last_remote_addr)) [
        | inr lacks ↦ inr (
            inr (
              inr (
                λ both. absurd (cc (flags, lacks, both)),
                simp (migrate_peer_schema, move_addrs, read, filled, present, lacks),
              )))
        | inl both ↦ elim (Bool-cases (faults 1)) [
          | inl h ↦ inl (
            statement_failed 1,
            simp (migrate_peer_schema, move_addrs, read, filled, present, both, h),
          )
          | inr wrote ↦ elim (Bool-cases (faults 2)) [
            | inl h ↦ inr (
                inl (
                  sym flags ∙ both,
                  (
                    statement_failed 2,
                    simp (migrate_peer_schema, move_addrs, read, filled, present, both, wrote, h),
                  ),
                ))
            | inr done_too ↦
                let ran : migrate_peer_schema faults now s
                    ≡ (drop_addrs (record s { rows = map fill_addr s.rows }), ok tt) =
                  simp (
                    migrate_peer_schema, move_addrs, read, filled, present, both, wrote, done_too,
                  ) in
                inr (
                  inr (
                    inl (
                      sym flags ∙ both,
                      ap (λ x. x.1) ran,
                      subst (λ x. IsMoved s x.0) (sym ran) (drop_addrs-IsMoved s),
                    )))
          ]
        ]
      ]
    ]

-- Every migration of a table that is there. One with a column `id`, or without `peer_id` as its
-- primary key, is rebuilt as a whole or, with an error, stays as it is; a rebuilt table has the
-- present columns, one row for each id of the old one and no row without an id, and a second
-- migration finds nothing to do. Of any other table with both columns of the address, `addrs` is
-- dropped, and its addresses stand in the other column for the same peers; or there is an error,
-- and the table is as it was or has the addresses moved with `addrs` still there. A table with
-- neither need stays as it is, with or without an error.
pub migrate_peer_schema_outcomes :
    (faults : Faults) (now : Time) (s : Schema)
    → is_empty s.columns ≡ false
    → (is_old s ≡ true
        → ((e : DbError) × (migrate_peer_schema faults now s ≡ (s, err e)))
          ⊎ (((migrate_peer_schema faults now s).1 ≡ ok tt)
              × IsRebuilt s (migrate_peer_schema faults now s).0))
      × (is_old s ≡ false
          → ((e : DbError) × (migrate_peer_schema faults now s ≡ (s, err e)))
            ⊎ ((HasBoth s
                  × ((e : DbError) × (migrate_peer_schema faults now s
                        ≡ (record s { rows = map fill_addr s.rows }, err e))))
                ⊎ ((HasBoth s
                      × ((migrate_peer_schema faults now s).1 ≡ ok tt)
                      × IsMoved s (migrate_peer_schema faults now s).0)
                    ⊎ ((HasBoth s → ⊥) × (migrate_peer_schema faults now s ≡ (s, ok tt))))))
migrate_peer_schema_outcomes faults now s filled = (
  λ old. rebuilds faults now s (needs_rebuild-read_columns s.columns ∙ old) filled,
  λ present. moves faults now s (needs_rebuild-read_columns s.columns ∙ present) filled,
)
