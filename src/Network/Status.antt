-- ===== src/Network/Status.antt =====
-- internal/network/status.go: the cluster's status, merged from what the peers report.
pub mod Newest
pub mod Named
pub mod Queries
pub mod Local
use p2pos.Time.{after, Time}
use p2pos.Text.{less, same, is_blank, Text}
use p2pos.Common.{[], ◌∷◌, if◌then◌else◌, Bool, Option, List, some, none}

-- status.Record
pub record Record : Type 0 where
  pub peer_id : Text
  pub last_remote_addr : Text
  pub last_seen_at : Time
  pub reachability : Text
  pub observed_by : Text

-- recordIsNewer
abbrev pub record_is_newer : Record → Record → Bool
record_is_newer a b = after a.last_seen_at b.last_seen_at

-- `merged[key]`
unfoldable pub record_of : Text → List Record → Option Record
record_of key [] = none
record_of key (r ∷ rest) =
    let other = record_of key rest in if same key r.peer_id then some r else other

-- `merged[rec.PeerID] = rec`
unfoldable pub put_record : Record → List Record → List Record
put_record r [] = r ∷ []
put_record r (q ∷ rest) =
    let later = put_record r rest in if same r.peer_id q.peer_id then r ∷ rest else q ∷ later

-- one turn of the first loop of mergeStatusRecords
unfoldable pub merge_record : List Record → Record → List Record
merge_record merged r = if is_blank r.peer_id then merged else elim (record_of r.peer_id merged) [
  | none ↦ put_record r merged
  | some prev ↦ if record_is_newer r prev then put_record r merged else merged
]

unfoldable pub merge_from : List Record → List Record → List Record
merge_from merged [] = merged
merge_from merged (r ∷ rest) = merge_from (merge_record merged r) rest

-- sort.Slice by peer id
unfoldable pub insert_record : Record → List Record → List Record
insert_record r [] = r ∷ []
insert_record r (q ∷ rest) =
    let later = insert_record r rest in if less q.peer_id r.peer_id then q ∷ later else r ∷ q ∷ rest

unfoldable pub sort_records : List Record → List Record
unfolding insert_record
sort_records [] = []
sort_records (r ∷ rest) = insert_record r (sort_records rest)

unfoldable pub merge_status_records : List Record → List Record
merge_status_records given = sort_records (merge_from [] given)
