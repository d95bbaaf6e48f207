-- ===== src/Network/Heartbeat.antt =====
-- internal/network/heartbeat.go: the signed heartbeats that members send one another.
pub mod Fresh
use p2pos.Base64
use p2pos.Membership.{current_snapshot}
use p2pos.Network.Node.{
  publish_heartbeat, can_use_business_protocols, node_is_member, Effect, Peers, Node,
}
use p2pos.Env.{Env}
use p2pos.Time.{before, after, second, Time}
use p2pos.Text.{contains, same, codes, is_blank, join, Text}
use p2pos.Common.{
  [], ◌>>=◌, ◌>>◌, ◌>>=◌, ◌*◌, ◌+◌, ◌||◌, ◌&&◌, ◌∷◌, if◌then◌else◌, Result, Option, List, ℕ, not,
  or_err, require, err, ok, some, none,
}

-- heartbeatWindow, 5 minutes
abbrev pub heartbeat_window : ℕ
heartbeat_window = 300 * second

pub record HeartbeatMessage : Type 0 where
  pub cluster_id : Text
  pub peer_id : Text
  pub timestamp : Text
  pub sig : Text

pub data HeartbeatError : Type 0 where
  missing_fields not_a_member heartbeat_cluster_mismatch invalid_timestamp : HeartbeatError
  out_of_window invalid_signature_encoding invalid_peer_id extract_key_failed : HeartbeatError
  heartbeat_signature_invalid private_key_not_initialized heartbeat_sign_failed : HeartbeatError

-- What a send comes to: the message is out, the peer does not speak the protocol, or it failed
-- otherwise.
pub data Sending : Type 0 where
  sent unsupported failed : Sending

module _ (env : Env) where
  open env use {PrivKey, sign, verify, decode_peer, extract_public, format_nano, parse_nano}

  unfoldable pub node_cluster_id : Node env → Text
  node_cluster_id n = elim n.membership [
    | none ↦ []
    | some manager ↦ (current_snapshot env manager).cluster_id
  ]

  unfoldable pub canonical_heartbeat : Text → Text → Time → Text
  canonical_heartbeat cluster peer ts = join (codes "|") (cluster ∷ peer ∷ format_nano ts ∷ [])

  unfoldable pub validate_heartbeat :
      Node env → Time → HeartbeatMessage → Result HeartbeatError (Unit {0})
  validate_heartbeat n now msg = do
    require (not (is_blank msg.peer_id || is_blank msg.sig || is_blank msg.timestamp))
        missing_fields
    require (node_is_member env n msg.peer_id) not_a_member
    let cluster = node_cluster_id n
    require (is_blank cluster || is_blank msg.cluster_id || same msg.cluster_id cluster)
        heartbeat_cluster_mismatch
    ts ← or_err (parse_nano msg.timestamp) invalid_timestamp
    require (not (after ts (now + heartbeat_window) || before (ts + heartbeat_window) now))
        out_of_window
    sig_bytes ← or_err (Base64.decode msg.sig) invalid_signature_encoding
    id ← or_err (decode_peer msg.peer_id) invalid_peer_id
    pub_key ← or_err (extract_public id) extract_key_failed
    valid ←
        or_err (verify pub_key (canonical_heartbeat cluster msg.peer_id ts) sig_bytes)
          heartbeat_signature_invalid
    require valid heartbeat_signature_invalid

  -- The stream handler, on a message that is decoded, or `none` where that failed.
  unfoldable pub on_heartbeat : Node env → Time → Text → Option HeartbeatMessage → List Effect
  on_heartbeat n now remote_addr none = []
  on_heartbeat n now remote_addr (some msg) =
      if not (can_use_business_protocols env n) then [] else elim (validate_heartbeat n now msg) [
        | err e ↦ []
        | ok _ ↦ if n.has_bus then publish_heartbeat msg.peer_id remote_addr ∷ [] else []
      ]

  -- The message that BroadcastHeartbeat builds.
  unfoldable pub heartbeat_message : Node env → Time → Result HeartbeatError HeartbeatMessage
  heartbeat_message n now = do
    key ← or_err n.priv_key private_key_not_initialized
    let cluster = node_cluster_id n
    sig ← or_err (sign key (canonical_heartbeat cluster n.local_id now)) heartbeat_sign_failed
    ok (record {
      cluster_id = cluster;
      peer_id = n.local_id;
      timestamp = format_nano now;
      sig = Base64.encode sig;
    })

  -- The loop of BroadcastHeartbeat: the peers that are sent the message, and the node after the
  -- answers. `send` is the transport.
  unfoldable pub send_to_members :
      (Text → HeartbeatMessage → Sending)
      → HeartbeatMessage
      → Peers
      → Node env
      → Node env × List Text
  send_to_members send msg [] n = (n, [])
  send_to_members send msg ((pid, connected) ∷ rest) n =
      let tries = node_is_member env n pid && not (contains pid n.heartbeat_unsupported) in
      let next =
        if tries
        then elim (send pid msg) [
          | unsupported ↦ record n { heartbeat_unsupported = pid ∷ n.heartbeat_unsupported }
          | sent ↦ n
          | failed ↦ n
        ]
        else n in
      let (last, others) = send_to_members send msg rest next in
      (last, if tries then pid ∷ others else others)

  unfoldable pub broadcast_heartbeat :
      (Text → HeartbeatMessage → Sending)
      → Peers
      → Time
      → Node env
      → (Node env × List Text) × Result HeartbeatError (Unit {0})
  broadcast_heartbeat send peers now n =
      if not (can_use_business_protocols env n)
      then ((n, []), ok tt)
      else elim (heartbeat_message n now) [
        | err e ↦ ((n, []), err e)
        | ok msg ↦ (send_to_members send msg peers n, ok tt)
      ]
