-- ===== src/Database.antt =====
-- internal/database/database.go: the repository over the table `peers`. A table is the list of its
-- rows in the order of their insertion, and a statement is a function on it; any statement may fail
-- instead.
pub mod Transactions
pub mod Members
pub mod Syncing
pub mod Updates
pub mod Merging
pub mod Migration
use p2pos.Text.Sorted.{sort_texts}
use p2pos.Time.{after, is_zero, Time}
use p2pos.Text.{is_blank, same, codes, less, trim_space, contains, Text}
use p2pos.Common.{
  ◌>>◌, map, [], ◌>>=◌, ◌+◌, ◌||◌, ◌&&◌, ◌++◌, ◌∷◌, if◌then◌else◌, Result, Bool, Option, List, ℕ,
  not, is_empty, keep, err, ok, false, some, none,
}

pub record Peer : Type 0 where
  pub peer_id : Text
  pub last_remote_addr : Text
  pub last_seen_at : Time
  -- in microseconds; the source divides by 1000 into a float
  pub last_ping_rtt_us : Option ℕ
  pub last_ping_ok : Bool
  pub last_ping_at : Option Time
  pub reachability : Text
  pub observed_by : Text

abbrev pub Table : Type 0
Table = List Peer

pub data DbError : Type 0 where
  statement_failed : ℕ → DbError

-- Which statements of a call fail, by their number from 0.
abbrev pub Faults : Type 0
Faults = ℕ → Bool

-- The statement number n of a call.
abbrev pub execute : Faults → ℕ → (Table → Table) → Table → Result DbError Table
execute faults n f t = if faults n then err (statement_failed n) else ok (f t)

-- DB.Transaction: an error takes back what was done.
unfoldable pub transaction :
    (Table → Result DbError Table) → Table → Table × Result DbError (Unit {0})
transaction body t = elim (body t) [ ok t' ↦ (t', ok tt) | err e ↦ (t, err e) ]

abbrev pub ids : Table → List Text
ids = map (λ p. p.peer_id)

-- SELECT … WHERE peer_id = ? LIMIT 1
unfoldable pub find_peer : Text → Table → Option Peer
find_peer id [] = none
find_peer id (p ∷ t) = if same p.peer_id id then some p else find_peer id t

-- UPDATE … WHERE peer_id = ?
unfoldable pub update_where : Text → (Peer → Peer) → Table → Table
update_where id f [] = []
update_where id f (p ∷ t) = (if same p.peer_id id then f p else p) ∷ update_where id f t

-- DELETE … WHERE peer_id NOT IN ?
unfoldable pub delete_others : List Text → Table → Table
delete_others kept = keep (λ p. contains p.peer_id kept)

-- INSERT … ON CONFLICT (peer_id) DO NOTHING
unfoldable pub insert_peer : Peer → Table → Table
insert_peer p t = if contains p.peer_id (ids t) then t else t ++ p ∷ []

-- The loop of normalizePeerIDs: `seen` and `out` hold the same names.
unfoldable pub unique_ids : List Text → List Text → List Text
unique_ids out [] = out
unique_ids out (v ∷ rest) =
    let id = trim_space v in
    unique_ids (if is_blank id then out else if contains id out then out else out ++ id ∷ []) rest

unfoldable pub normalize_peer_ids : List Text → List Text
normalize_peer_ids names = if is_empty names then [] else sort_texts (unique_ids [] names)

-- The rows in the order of their ids.
unfoldable pub insert_by_id : Peer → Table → Table
insert_by_id p [] = p ∷ []
insert_by_id p (q ∷ t) =
    let rest = insert_by_id p t in if less q.peer_id p.peer_id then q ∷ rest else p ∷ q ∷ t

-- ORDER BY peer_id asc
unfoldable pub order_by_id : Table → Table
order_by_id [] = []
order_by_id (p ∷ t) = insert_by_id p (order_by_id t)

unfoldable pub list_member_ids : Faults → Table → Result DbError (List Text)
list_member_ids faults t =
    if faults 0 then err (statement_failed 0) else ok (normalize_peer_ids (ids (order_by_id t)))

unfoldable pub list_peer_statuses : Faults → Table → Result DbError (List Peer)
list_peer_statuses faults t = if faults 0 then err (statement_failed 0) else ok (order_by_id t)

-- The row that SyncMembers makes for a new member.
abbrev pub new_member : Time → Text → Peer
new_member now id = record {
  peer_id = id;
  last_remote_addr = [];
  last_seen_at = now;
  last_ping_rtt_us = none;
  last_ping_ok = false;
  last_ping_at = none;
  reachability = codes "offline";
  observed_by = [];
}

-- The loop of SyncMembers over the ids, from statement number n on.
unfoldable pub insert_members : Faults → ℕ → Time → List Text → Table → Result DbError Table
insert_members faults n now [] t = ok t
insert_members faults n now (id ∷ rest) t = do
  t' ← execute faults n (insert_peer (new_member now id)) t
  insert_members faults (n + 1) now rest t'

unfoldable pub sync_body : Faults → Time → List Text → Table → Result DbError Table
sync_body faults now members t = if is_empty members then execute faults 0 (λ _. []) t else (do
  t' ← execute faults 0 (delete_others members) t
  insert_members faults 1 now members t')

unfoldable pub sync_members : Faults → Time → List Text → Table → Table × Result DbError (Unit {0})
sync_members faults now members = transaction (sync_body faults now (normalize_peer_ids members))

unfoldable pub upsert_last_seen :
    Faults → Time → Text → Text → Text → Text → Table → Table × Result DbError (Unit {0})
upsert_last_seen faults now peer_id remote_addr observed_by reachability = transaction (
    execute faults 0 (
      update_where peer_id λ p. record p {
        last_remote_addr = remote_addr;
        last_seen_at = now;
        reachability = reachability;
        observed_by = observed_by;
      }))

-- `rtt` counts microseconds.
unfoldable pub update_ping_result :
    Faults → Time → Text → Text → Bool → ℕ → Table → Table × Result DbError (Unit {0})
update_ping_result faults now peer_id observed_by fine rtt = transaction (
    execute faults 0 (
      update_where peer_id λ p. record p {
        last_ping_ok = fine;
        last_ping_at = some now;
        last_ping_rtt_us = if fine then some rtt else none;
        observed_by = observed_by;
        reachability = if fine then codes "online" else codes "offline";
        last_seen_at = now;
      }))

unfoldable pub update_reachability :
    Faults → Time → Text → Text → Text → Table → Table × Result DbError (Unit {0})
update_reachability faults now peer_id observed_by reachability = transaction (
    execute faults 0 (
      update_where peer_id λ p. record p {
        reachability = reachability;
        observed_by = observed_by;
        last_seen_at = now;
      }))

-- events.PeerStateObserved
pub record PeerStateObserved : Type 0 where
  pub peer_id : Text
  pub remote_addr : Text
  pub last_seen_at : Time
  pub reachability : Text
  pub observed_by : Text
  pub observed_at : Time

unfoldable pub normalize_reachability : Text → Text
normalize_reachability v =
    if same v (codes "online") || same v (codes "connected") || same v (codes "self")
    then codes "online"
    else codes "offline"

unfoldable pub peer_updated_at : Peer → Time
peer_updated_at p = elim p.last_ping_at [
  | some at ↦ if is_zero at then p.last_seen_at else at
  | none ↦ p.last_seen_at
]

-- The row `incoming` of MergeObservedState.
unfoldable pub incoming_peer : Time → PeerStateObserved → Peer
incoming_peer now state = record {
  peer_id = state.peer_id;
  last_remote_addr = state.remote_addr;
  last_seen_at = if is_zero state.last_seen_at then now else state.last_seen_at;
  last_ping_rtt_us = none;
  last_ping_ok = false;
  last_ping_at = none;
  reachability =
      let r = normalize_reachability state.reachability in
      if is_blank r then codes "offline" else r;
  observed_by = state.observed_by;
}

-- incomingUpdated.After(existingUpdated)
unfoldable pub is_newer : PeerStateObserved → Peer → Peer → Bool
is_newer state incoming existing =
    after (if is_zero state.observed_at then peer_updated_at incoming else state.observed_at)
      (peer_updated_at existing)

-- existing.LastRemoteAddr == "" && incoming.LastRemoteAddr != ""
abbrev pub fills_addr : Peer → Peer → Bool
fills_addr incoming existing =
    is_blank existing.last_remote_addr && not (is_blank incoming.last_remote_addr)

-- The existing row after the entries of `updates` are written to it.
unfoldable pub merge_peer : PeerStateObserved → Peer → Peer → Peer
merge_peer state incoming existing =
    let filled =
      if fills_addr incoming existing
      then record existing { last_remote_addr = incoming.last_remote_addr }
      else existing in
    if not (is_newer state incoming existing) then filled else record filled {
      last_seen_at = incoming.last_seen_at;
      last_ping_ok = false;
      last_ping_at = none;
      last_ping_rtt_us = none;
      observed_by = incoming.observed_by;
      reachability =
          if not (same existing.reachability (codes "online"))
            && not (same existing.reachability (codes "self"))
          then incoming.reachability
          else existing.reachability;
      last_remote_addr =
          if not (is_blank incoming.last_remote_addr)
          then incoming.last_remote_addr
          else filled.last_remote_addr;
    }

-- What MergeObservedState does once it has found the row; without updates it sends no statement.
unfoldable pub merge_found : Faults → PeerStateObserved → Peer → Peer → Table → Result DbError Table
merge_found faults state incoming existing t =
    if same existing.reachability (codes "self")
    then ok t
    else if not (fills_addr incoming existing || is_newer state incoming existing)
    then ok t
    else execute faults 1 (update_where state.peer_id (λ _. merge_peer state incoming existing)) t

unfoldable pub merge_body : Faults → Time → PeerStateObserved → Table → Result DbError Table
merge_body faults now state t =
    if faults 0 then err (statement_failed 0) else elim (find_peer state.peer_id t) [
      | none ↦ ok t
      | some existing ↦ merge_found faults state (incoming_peer now state) existing t
    ]

unfoldable pub merge_observed_state :
    Faults → Time → PeerStateObserved → Table → Table × Result DbError (Unit {0})
merge_observed_state faults now state t =
    if is_blank state.peer_id then (t, ok tt) else transaction (merge_body faults now state) t
