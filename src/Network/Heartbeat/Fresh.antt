-- ===== src/Network/Heartbeat/Fresh.antt =====
-- What an accepted heartbeat says, and that a member's heartbeat is accepted.
use p2pos.Base64.RoundTrip.{trim_space-encode_ne-nil, decode-encode}
use p2pos.Text.Order.{same_refl}
use p2pos.Text.{trim_right, trim_left, trim_space, same}
use p2pos.Base64
use p2pos.Network.Heartbeat.{
  heartbeat_message, node_cluster_id, canonical_heartbeat, validate_heartbeat, heartbeat_window,
  HeartbeatMessage,
}
use p2pos.Network.Node.{node_is_member, Node}
use p2pos.Env.{NanoLaws, SignLaws, Env}
use p2pos.Time.{IsPrintable, Time}
use p2pos.Common.{subst, sym, ap, [], ◌≢◌, arith, ok, ◌≤◌, ◌+◌, ◌≡◌, List, ℕ, true, some}

module _ (env : Env) where
  -- The message comes from a member, is signed with the member's own key for the cluster, and is at
  -- most 5 minutes away from `now`.
  pub record IsFresh (n : Node env) (now : Time) (msg : HeartbeatMessage) : Type 0 where
    pub from_member : node_is_member env n msg.peer_id ≡ true
    pub timed :
        (ts : Time) × (env.parse_nano msg.timestamp ≡ some ts)
        × (ts ≤ now + heartbeat_window)
        × (now ≤ ts + heartbeat_window)
        × ((id : env.PeerKey) × (key : env.PubKey) × (sig_bytes : List ℕ) × (env.decode_peer
                msg.peer_id
              ≡ some id)
            × (env.extract_public id ≡ some key)
            × (Base64.decode msg.sig ≡ some sig_bytes)
            × (env.verify key
                  (canonical_heartbeat env (node_cluster_id env n) msg.peer_id ts)
                  sig_bytes
                ≡ some true))

  -- Every heartbeat that is accepted comes from a member, bears that member's own signature for this
  -- cluster, and has a timestamp at most 5 minutes away from the clock.
  pub validate_heartbeat-IsFresh :
      (n : Node env) (now : Time) (msg : HeartbeatMessage)
      → validate_heartbeat env n now msg ≡ ok tt
      → IsFresh n now msg
  unfolding validate_heartbeat
  validate_heartbeat-IsFresh n now msg h = ground arith

  heartbeat_message_parts :
      (n : Node env) (now : Time) (key : env.PrivKey) (msg : HeartbeatMessage)
      → heartbeat_message env n now ≡ ok msg
      → n.priv_key ≡ some key
      → (sig : List ℕ) × (env.sign key
            (canonical_heartbeat env (node_cluster_id env n) n.local_id now)
          ≡ some sig)
        × (msg ≡ record {
          cluster_id = node_cluster_id env n;
          peer_id = n.local_id;
          timestamp = env.format_nano now;
          sig = Base64.encode sig;
        })
  unfolding heartbeat_message
  heartbeat_message_parts n now key msg h k = ground arith

  -- The checks of validateHeartbeat, one by one.
  validate_of_parts :
      (n : Node env) (now ts : Time) (msg : HeartbeatMessage) (id : env.PeerKey) (key : env.PubKey)
      (sig : List ℕ)
      → msg.peer_id ≢ []
      → msg.sig ≢ []
      → msg.timestamp ≢ []
      → node_is_member env n msg.peer_id ≡ true
      → same msg.cluster_id (node_cluster_id env n) ≡ true
      → env.parse_nano msg.timestamp ≡ some ts
      → ts ≤ now + heartbeat_window
      → now ≤ ts + heartbeat_window
      → Base64.decode msg.sig ≡ some sig
      → env.decode_peer msg.peer_id ≡ some id
      → env.extract_public id ≡ some key
      → env.verify key (canonical_heartbeat env (node_cluster_id env n) msg.peer_id ts) sig
        ≡ some true
      → validate_heartbeat env n now msg ≡ ok tt
  unfolding validate_heartbeat
  validate_of_parts n now ts msg id key sig p g f m c t lo hi s d e v = ground arith

  encode-ne-nil : (sig : List ℕ) → sig ≢ [] → Base64.encode sig ≢ []
  unfolding trim_space trim_left trim_right
  encode-ne-nil sig h e = trim_space-encode_ne-nil sig h (ap trim_space e)

  module _ (signing : SignLaws env) (nano : NanoLaws env) where
    -- The heartbeat that a node with its own key builds is accepted by every node of the same cluster
    -- that has it as a member and whose clock is at most 5 minutes away. The sender's clock shows a
    -- year of four digits.
    pub validate_heartbeat-heartbeat_message :
        (sender receiver : Node env) (now later : Time) (key : env.PrivKey) (id : env.PeerKey)
        (msg : HeartbeatMessage)
        → IsPrintable now
        → heartbeat_message env sender now ≡ ok msg
        → sender.priv_key ≡ some key
        → env.decode_peer sender.local_id ≡ some id
        → env.extract_public id ≡ some (env.public_of key)
        → sender.local_id ≢ []
        → node_is_member env receiver sender.local_id ≡ true
        → node_cluster_id env receiver ≡ node_cluster_id env sender
        → now ≤ later + heartbeat_window
        → later ≤ now + heartbeat_window
        → validate_heartbeat env receiver later msg ≡ ok tt
    validate_heartbeat-heartbeat_message sender receiver now later key id msg shown h k d e named
          member cluster lo hi =
        let payload = canonical_heartbeat env (node_cluster_id env sender) sender.local_id now in
        let (sig, made, same_msg) = heartbeat_message_parts sender now key msg h k in
        let built : HeartbeatMessage = record {
          cluster_id = node_cluster_id env sender;
          peer_id = sender.local_id;
          timestamp = env.format_nano now;
          sig = Base64.encode sig;
        } in
        subst (λ m. validate_heartbeat env receiver later m ≡ ok tt) (sym same_msg)
          (validate_of_parts receiver later now built id (env.public_of key) sig named
            (encode-ne-nil sig (signing.sign-ne-nil key payload sig made)) (nano.format-ne-nil now)
            member (rw cluster (same_refl (node_cluster_id env sender)))
            (nano.parse-format now shown) lo hi
            (decode-encode sig (signing.sign-IsBytes key payload sig made)) d e
            (rw cluster (signing.verify-sign key payload sig made)))
