-- ===== src/Network/Push/Pull.antt =====
-- internal/network/membership.go: the handler that answers with a node's snapshot, the request for one, and
-- what SyncMembership makes of the answers. And pushSnapshot of membership_push.go, the other side of a push.
pub mod Newest
use p2pos.Network.Node.{Node}
use p2pos.Env.{Env}
use p2pos.Time.{zero_time}
use p2pos.Text.{codes, is_blank, Text}
use p2pos.Common.{
  [], ◌>>=◌, ◌>>◌, ◌>>=◌, if◌then◌else◌, Result, Bool, Option, not, or_err, require, true, some,
  none,
}
use p2pos.Membership.{Snapshot, no_proof}
use p2pos.Network.Push.{membership_snapshot}

abbrev pub no_snapshot : Snapshot
no_snapshot = record {
  cluster_id = [];
  issued_at = zero_time;
  issuer_peer_id = [];
  members = [];
  admin_proof = no_proof;
  sig = [];
}

-- membershipResponse
pub record MembershipResponse : Type 0 where
  pub snapshot : Snapshot
  pub error : Text

-- membershipPushResponse
pub record PushResponse : Type 0 where
  pub applied : Bool
  pub error : Text

-- fetchMembershipSnapshot, by whether the stream opens, and what is decoded from it
unfoldable pub fetch_membership_snapshot : Bool → Option MembershipResponse → Option Snapshot
fetch_membership_snapshot opens answer = if not opens then none else elim answer [
  | none ↦ none
  | some resp ↦ if is_blank resp.error then some resp.snapshot else none
]

pub data PushFailure : Type 0 where
  push_stream_failed push_encode_failed push_decode_failed : PushFailure
  push_rejected : Text → PushFailure

-- pushSnapshot
unfoldable pub push_snapshot : Bool → Bool → Option PushResponse → Result PushFailure (Unit {0})
push_snapshot opens encodes answer = do
  require opens push_stream_failed
  require encodes push_encode_failed
  resp ← or_err answer push_decode_failed
  require resp.applied
      (push_rejected (if is_blank resp.error then codes "push rejected" else resp.error))

module _ (env : Env) where
  -- The stream handler of registerMembershipHandler.
  unfoldable pub membership_response : Node env → MembershipResponse
  membership_response n = elim (membership_snapshot env n) [
    | none ↦ record { snapshot = no_snapshot; error = codes "membership not initialized" }
    | some s ↦ record { snapshot = s; error = [] }
  ]

  -- What SyncMembership gets from a node: `opens` says whether the stream to it opens, and
  -- `decodes` whether its response comes through and is decoded.
  unfoldable pub pulled : Bool → Bool → Node env → Option Snapshot
  pulled opens decodes n =
      fetch_membership_snapshot opens (if decodes then some (membership_response n) else none)
