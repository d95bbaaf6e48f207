-- ===== src/Network/Status/Local.antt =====
-- internal/status/service.go, and localStatus and FetchStatus of internal/network/status.go: the
-- status of the node itself, and the request to another.
use p2pos.Text.{codes, same, is_blank, Text}
use p2pos.Common.{
  [], ◌>>=◌, ◌>>◌, ◌>>=◌, ◌∷◌, if◌then◌else◌, Result, Bool, Option, List, not, or_err, require, ok,
}
use p2pos.Network.Status.{Record}
use p2pos.Database.{Peer, Table, Faults, DbError, list_peer_statuses}

abbrev pub record_of_peer : Peer → Record
record_of_peer p = record {
  peer_id = p.peer_id;
  last_remote_addr = p.last_remote_addr;
  last_seen_at = p.last_seen_at;
  reachability = p.reachability;
  observed_by = p.observed_by;
}

-- The loop of Service.Snapshot.
unfoldable pub status_records : List Peer → List Record
status_records [] = []
status_records (p ∷ rest) = record_of_peer p ∷ status_records rest

-- Service.Snapshot; `has_repo` is false for a nil service or repository.
unfoldable pub service_snapshot : Bool → Faults → Table → Result DbError (List Record)
service_snapshot has_repo faults t =
    if not has_repo
    then ok []
    else (do peers ← list_peer_statuses faults t; ok (status_records peers))

-- Node.localStatus; without a provider there are no records.
unfoldable pub local_status : Bool → Bool → Faults → Table → Result DbError (List Record)
local_status has_provider has_repo faults t =
    if not has_provider then ok [] else service_snapshot has_repo faults t

-- statusResponse
pub record StatusResponse : Type 0 where
  pub peers : List Record
  pub error : Text

pub data FetchError : Type 0 where
  stream_failed encode_failed decode_failed : FetchError
  reported : Text → FetchError

-- The scope that FetchStatus sends.
unfoldable pub sent_scope : Text → Text
sent_scope scope = if same scope (codes "cluster") then scope else codes "local"

-- FetchStatus; `answer` is what the peer answers to a scope, if a stream opens, the request is
-- written and the response decodes.
unfoldable pub fetch_status :
    Bool → Bool → (Text → Option StatusResponse) → Text → Result FetchError (List Record)
fetch_status opens encodes answer scope = do
  require opens stream_failed
  require encodes encode_failed
  resp ← or_err (answer (sent_scope scope)) decode_failed
  require (is_blank resp.error) (reported resp.error)
  ok resp.peers
