-- ===== src/Database/Migration/Columns.antt =====
-- The flags of migratePeerSchema say which columns the table has.
use p2pos.Text.{codes, contains, same, Text}
use p2pos.Database.Migration.{no_flags, needs_rebuild, Flags, read_columns, Column, note_column}
use p2pos.Common.{
  ℕ, not, Bool-cases, map, [], ◌==◌, ◌||◌, ◌&&◌, ◌∙◌, ◌∷◌, ◌≡◌, Bool, List, ap, arith, refl, inr,
  inl, false, true,
}
use p2pos.Text.Order.{same_comm, same_iff}

abbrev pub names : List Column → List Text
names = map (λ c. c.name)

-- The column `peer_id` is the first of the primary key.
abbrev pub has_primary : List Column → Bool
has_primary [] = false
has_primary (c ∷ rest) = (same c.name (codes "peer_id") && c.pk == 1) || has_primary rest

note_column-has_id :
    (c : Column) (f : Flags) → (note_column c f).has_id ≡ (same c.name (codes "id") || f.has_id)
unfolding note_column
note_column-has_id c f = ground arith

note_column-has_addrs :
    (c : Column) (f : Flags)
    → (note_column c f).has_addrs ≡ (same c.name (codes "addrs") || f.has_addrs)
unfolding note_column
note_column-has_addrs c f =
    ground (arith, same_iff c.name (codes "id"), same_iff c.name (codes "addrs"))

note_column-has_last_remote_addr :
    (c : Column) (f : Flags)
    → (note_column c f).has_last_remote_addr
      ≡ (same c.name (codes "last_remote_addr") || f.has_last_remote_addr)
unfolding note_column
note_column-has_last_remote_addr c f = ground (
  arith,
  same_iff c.name (codes "id"),
  same_iff c.name (codes "addrs"),
  same_iff c.name (codes "last_remote_addr"),
)

note_peer_id :
    (k : ℕ) (f : Flags)
    → (note_column (record { name = codes "peer_id"; pk = k }) f).peer_id_is_primary
      ≡ (k == 1 || f.peer_id_is_primary)
unfolding note_column same
note_peer_id k f = ground arith

note_column_primary :
    (c : Column) (f : Flags)
    → same c.name (codes "peer_id") ≡ true
    → (note_column c f).peer_id_is_primary ≡ (c.pk == 1 || f.peer_id_is_primary)
note_column_primary c f h =
    ap (λ t. (note_column (record { name = t; pk = c.pk }) f).peer_id_is_primary)
      ((same_iff c.name (codes "peer_id")).0 h)
    ∙ note_peer_id c.pk f

note_column-peer_id_is_primary :
    (c : Column) (f : Flags)
    → (note_column c f).peer_id_is_primary
      ≡ ((same c.name (codes "peer_id") && c.pk == 1) || f.peer_id_is_primary)
unfolding note_column
note_column-peer_id_is_primary c f = elim (Bool-cases (same c.name (codes "peer_id"))) [
  | inl h ↦ note_column_primary c f h ∙ rw h refl
  | inr h ↦ ground arith
]

has_id-read_columns :
    (columns : List Column) (f : Flags)
    → (read_columns f columns).has_id ≡ (contains (codes "id") (names columns) || f.has_id)
unfolding read_columns
has_id-read_columns [] f = refl
has_id-read_columns (c ∷ rest) f =
    has_id-read_columns rest (note_column c f)
    ∙ ground (arith, note_column-has_id c f, same_comm c.name (codes "id"))

has_addrs-read_columns :
    (columns : List Column) (f : Flags)
    → (read_columns f columns).has_addrs ≡ (contains (codes "addrs") (names columns) || f.has_addrs)
unfolding read_columns
has_addrs-read_columns [] f = refl
has_addrs-read_columns (c ∷ rest) f =
    has_addrs-read_columns rest (note_column c f)
    ∙ ground (arith, note_column-has_addrs c f, same_comm c.name (codes "addrs"))

has_last_remote_addr-read_columns :
    (columns : List Column) (f : Flags)
    → (read_columns f columns).has_last_remote_addr
      ≡ (contains (codes "last_remote_addr") (names columns) || f.has_last_remote_addr)
unfolding read_columns
has_last_remote_addr-read_columns [] f = refl
has_last_remote_addr-read_columns (c ∷ rest) f =
    has_last_remote_addr-read_columns rest (note_column c f)
    ∙ ground
        (arith, note_column-has_last_remote_addr c f, same_comm c.name (codes "last_remote_addr"))

peer_id_is_primary-read_columns :
    (columns : List Column) (f : Flags)
    → (read_columns f columns).peer_id_is_primary ≡ (has_primary columns || f.peer_id_is_primary)
unfolding read_columns
peer_id_is_primary-read_columns [] f = refl
peer_id_is_primary-read_columns (c ∷ rest) f =
    peer_id_is_primary-read_columns rest (note_column c f)
    ∙ ground (arith, note_column-peer_id_is_primary c f)

-- A table is rebuilt if it has a column `id`, or if `peer_id` is not its primary key.
pub needs_rebuild-read_columns :
    (columns : List Column)
    → needs_rebuild (read_columns no_flags columns)
      ≡ (contains (codes "id") (names columns) || not (has_primary columns))
unfolding needs_rebuild
needs_rebuild-read_columns columns =
    ground (
      arith,
      has_id-read_columns columns no_flags,
      peer_id_is_primary-read_columns columns no_flags,
    )

pub both-read_columns :
    (columns : List Column)
    → ((read_columns no_flags columns).has_addrs
        && (read_columns no_flags columns).has_last_remote_addr)
      ≡ (contains (codes "addrs") (names columns)
          && contains (codes "last_remote_addr") (names columns))
both-read_columns columns = ground (
  arith,
  has_addrs-read_columns columns no_flags,
  has_last_remote_addr-read_columns columns no_flags,
)
