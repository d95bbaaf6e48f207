-- ===== src/Database/Migration.antt =====
-- internal/database/database.go: migratePeerSchema, which brings the table `peers` of an older
-- version into the present form. A row has a value for every column that the code names, and none
-- for NULL; a column that the table has not is not read.
pub mod Columns
pub mod Rebuilt
pub mod Outcomes
use p2pos.Text.{codes, same, is_blank, contains, Text}
use p2pos.Common.{
  map, [], ◌==◌, ◌||◌, ◌&&◌, ◌∷◌, if◌then◌else◌, Result, Bool, Option, List, ℕ, not, is_empty, keep,
  err, ok, false, true, some, none,
}
use p2pos.Database.{Faults, DbError, statement_failed}
use p2pos.Time.{Time}

-- sqliteTableColumn
pub record Column : Type 0 where
  pub name : Text
  pub pk : ℕ

pub record Row : Type 0 where
  pub peer_id : Option Text
  pub last_remote_addr : Option Text
  pub addrs : Option Text
  pub last_seen_at : Option Time
  pub last_ping_rtt_us : Option ℕ
  pub last_ping_ok : Option Bool
  pub last_ping_at : Option Time
  pub reachability : Option Text
  pub observed_by : Option Text

pub record Schema : Type 0 where
  pub columns : List Column
  pub rows : List Row

-- The flags of the loop over the columns.
pub record Flags : Type 0 where
  pub has_id : Bool
  pub has_addrs : Bool
  pub has_last_remote_addr : Bool
  pub has_last_seen_at : Bool
  pub has_last_ping_rtt_ms : Bool
  pub has_last_ping_ok : Bool
  pub has_last_ping_at : Bool
  pub has_reachability : Bool
  pub has_observed_by : Bool
  pub peer_id_is_primary : Bool

abbrev pub no_flags : Flags
no_flags = record {
  has_id = false;
  has_addrs = false;
  has_last_remote_addr = false;
  has_last_seen_at = false;
  has_last_ping_rtt_ms = false;
  has_last_ping_ok = false;
  has_last_ping_at = false;
  has_reachability = false;
  has_observed_by = false;
  peer_id_is_primary = false;
}

unfoldable pub note_column : Column → Flags → Flags
note_column col f =
    if same col.name (codes "id")
    then record f { has_id = true }
    else if same col.name (codes "addrs")
    then record f { has_addrs = true }
    else if same col.name (codes "last_remote_addr")
    then record f { has_last_remote_addr = true }
    else if same col.name (codes "last_seen_at")
    then record f { has_last_seen_at = true }
    else if same col.name (codes "last_ping_rtt_ms")
    then record f { has_last_ping_rtt_ms = true }
    else if same col.name (codes "last_ping_ok")
    then record f { has_last_ping_ok = true }
    else if same col.name (codes "last_ping_at")
    then record f { has_last_ping_at = true }
    else if same col.name (codes "reachability")
    then record f { has_reachability = true }
    else if same col.name (codes "observed_by")
    then record f { has_observed_by = true }
    else if same col.name (codes "peer_id") && col.pk == 1
    then record f { peer_id_is_primary = true }
    else f

unfoldable pub read_columns : Flags → List Column → Flags
read_columns f [] = f
read_columns f (col ∷ rest) = read_columns (note_column col f) rest

-- COALESCE(v, default)
abbrev pub coalesce {ℓ} : {A : Type ℓ} → Option A → A → A
coalesce none d = d
coalesce (some a) d = a

-- The expression sourceAddrExpr for a row.
unfoldable pub source_addr : Flags → Row → Text
source_addr f r =
    let remote = coalesce r.last_remote_addr [] in
    let old = coalesce r.addrs [] in
    if f.has_last_remote_addr && f.has_addrs
    then if not (is_blank remote) then remote else old
    else if f.has_last_remote_addr
    then remote
    else if f.has_addrs
    then old
    else []

-- What the SELECT makes of a row; CURRENT_TIMESTAMP is `now`.
unfoldable pub copied_row : Flags → Time → Row → Row
copied_row f now r = record {
  peer_id = r.peer_id;
  last_remote_addr = some (source_addr f r);
  addrs = none;
  last_seen_at = if f.has_last_seen_at then r.last_seen_at else some now;
  last_ping_rtt_us = if f.has_last_ping_rtt_ms then r.last_ping_rtt_us else none;
  last_ping_ok = if f.has_last_ping_ok then r.last_ping_ok else some false;
  last_ping_at = if f.has_last_ping_at then r.last_ping_at else none;
  reachability =
      some
        (if f.has_reachability then coalesce r.reachability (codes "unknown") else codes "offline");
  observed_by = some (if f.has_observed_by then coalesce r.observed_by [] else []);
}

abbrev pub id_of : Row → Text
id_of r = coalesce r.peer_id []

-- INSERT … ON CONFLICT(peer_id) DO UPDATE, which sets every other column
unfoldable pub upsert_row : Row → List Row → List Row
upsert_row r [] = r ∷ []
upsert_row r (q ∷ rest) =
    let kept = upsert_row r rest in if same (id_of q) (id_of r) then r ∷ rest else q ∷ kept

-- The statement copySQL, on the rows of `peers_new` and those of `peers`.
unfoldable pub copy_rows : Flags → Time → List Row → List Row → List Row
copy_rows f now copied [] = copied
copy_rows f now copied (r ∷ rest) =
    copy_rows f now (if is_blank (id_of r) then copied else upsert_row (copied_row f now r) copied)
      rest

-- The columns of `peers_new`.
abbrev pub new_columns : List Column
new_columns =
    record { name = codes "peer_id"; pk = 1 }
    ∷ record { name = codes "last_remote_addr"; pk = 0 }
    ∷ record { name = codes "last_seen_at"; pk = 0 }
    ∷ record { name = codes "last_ping_rtt_ms"; pk = 0 }
    ∷ record { name = codes "last_ping_ok"; pk = 0 }
    ∷ record { name = codes "last_ping_at"; pk = 0 }
    ∷ record { name = codes "reachability"; pk = 0 }
    ∷ record { name = codes "observed_by"; pk = 0 }
    ∷ []

-- Whether one of the statements of the transaction fails, and which first. The copy fails also if
-- there is no column `peer_id`.
unfoldable pub failing_statement : Faults → Schema → Option ℕ
failing_statement faults s =
    if faults 1
    then some 1
    else if faults 2 || not (contains (codes "peer_id") (map (λ c. c.name) s.columns))
    then some 2
    else if faults 3
    then some 3
    else if faults 4
    then some 4
    else if faults 5
    then some 5
    else none

-- The transaction that rebuilds the table: an error takes back what was done.
unfoldable pub rebuild : Faults → Flags → Time → Schema → Schema × Result DbError (Unit {0})
rebuild faults f now s = elim (failing_statement faults s) [
  | some n ↦ (s, err (statement_failed n))
  | none ↦ (record { columns = new_columns; rows = copy_rows f now [] s.rows }, ok tt)
]

-- UPDATE peers SET last_remote_addr = addrs WHERE …
unfoldable pub fill_addr : Row → Row
fill_addr r =
    if is_blank (coalesce r.last_remote_addr []) && not (is_blank (coalesce r.addrs []))
    then record r { last_remote_addr = r.addrs }
    else r

unfoldable pub drop_addrs : Schema → Schema
drop_addrs s = record {
  columns = keep (λ c. not (same c.name (codes "addrs"))) s.columns;
  rows = map {A = Row} (λ r. record r { addrs = none }) s.rows;
}

-- The branch without a rebuild; its two statements are no transaction.
unfoldable pub move_addrs : Faults → Flags → Schema → Schema × Result DbError (Unit {0})
move_addrs faults f s =
    if not (f.has_addrs && f.has_last_remote_addr)
    then (s, ok tt)
    else if faults 1
    then (s, err (statement_failed 1))
    else let filled = record s { rows = map fill_addr s.rows } in
      if faults 2 then (filled, err (statement_failed 2)) else (drop_addrs filled, ok tt)

unfoldable pub needs_rebuild : Flags → Bool
needs_rebuild f = f.has_id || not f.peer_id_is_primary

-- migratePeerSchema; a table that is not there has no columns.
unfoldable pub migrate_peer_schema : Faults → Time → Schema → Schema × Result DbError (Unit {0})
migrate_peer_schema faults now s =
    let f = read_columns no_flags s.columns in
    if faults 0
    then (s, err (statement_failed 0))
    else if is_empty s.columns
    then (s, ok tt)
    else if needs_rebuild f
    then rebuild faults f now s
    else move_addrs faults f s
