-- ===== src/Network/Push.antt =====
-- internal/network/membership.go, membership_push.go and membership_apply.go: snapshots of the
-- members, pulled from peers, pushed by them and passed on.
pub mod Fanout
pub mod Pull
pub mod Gossip
pub mod Newer
pub mod Relayed
pub mod Spread
use p2pos.App.Shutdown.{others}
use p2pos.Network.Node.{
  notify_membership_applied, push_to, evaluate_runtime_state, can_write_admin, Effect, Node, Peers,
}
use p2pos.Membership.{
  sign_snapshot, apply, validate_admin_proof, current_snapshot, Manager, Snapshot,
}
use p2pos.Env.{Env}
use p2pos.Time.{after, Time}
use p2pos.Text.{is_blank, same, Text}
use p2pos.Common.{
  [], ◌>>=◌, ◌>>◌, ◌>>=◌, ◌||◌, ◌++◌, ◌∷◌, if◌then◌else◌, Result, Option, List, not, wrap, or_err,
  err, ok, some, none,
}
use p2pos.Membership

-- Why a push is refused.
pub data PushError : Type 0 where
  decode_failed membership_not_initialized node_not_healthy proof_not_configured : PushError
  refused : Membership.Error → PushError

-- fanoutSnapshot
unfoldable pub fanout_snapshot : Text → Snapshot → Peers → List Effect
fanout_snapshot source s [] = []
fanout_snapshot source s ((pid, connected) ∷ rest) =
    let others = fanout_snapshot source s rest in
    if same pid source then others else push_to pid s ∷ others

-- the loop of PublishMembershipSnapshot
unfoldable pub push_to_all : Snapshot → Peers → List Effect
push_to_all s [] = []
push_to_all s ((pid, connected) ∷ rest) = push_to pid s ∷ push_to_all s rest

module _ (env : Env) where
  -- membershipSnapshot
  unfoldable pub membership_snapshot : Node env → Option Snapshot
  membership_snapshot n = elim n.membership [
    | none ↦ none
    | some manager ↦ some (current_snapshot env manager)
  ]

  -- The manager after Apply, and what the node is told if the snapshot is newer.
  unfoldable pub notify_if_newer : Node env → Manager env → Manager env → List Effect
  notify_if_newer n old new =
      if after (current_snapshot env new).issued_at (current_snapshot env old).issued_at
      then notify_membership_applied env n (current_snapshot env new)
      else []

  -- `if stream.Conn() != nil && ... == snapshot.IssuerPeerID`
  unfoldable pub relay : Peers → Option Text → Snapshot → List Effect
  relay peers none s = []
  relay peers (some remote) s =
      if same remote s.issuer_peer_id then fanout_snapshot remote s peers else []

  -- The stream handler of registerMembershipPushHandler, on the decoded snapshot, or `none` where
  -- that failed; `remote` is the peer at the other end of the stream's connection.
  unfoldable pub on_membership_push :
      Peers
      → Time
      → Option Text
      → Option Snapshot
      → Node env
      → (Node env × List Effect) × Result PushError (Unit {0})
  on_membership_push peers now remote none n = ((n, []), err decode_failed)
  on_membership_push peers now remote (some s) n = elim n.membership [
    | none ↦ ((n, []), err membership_not_initialized)
    | some manager ↦
        let new = (apply env manager now s).0 in
        elim (apply env manager now s).1 [
          | err e ↦ ((record n { membership = some new }, []), err (refused e))
          | ok _ ↦ (
            (
              evaluate_runtime_state env peers (record n { membership = some new }),
              notify_if_newer n manager new ++ relay peers remote s,
            ),
            ok tt,
          )
        ]
  ]

  -- PublishMembershipSnapshot; the source reads the clock three times.
  unfoldable pub signed_snapshot :
      Node env → Manager env → Time → Time → List Text → Result PushError Snapshot
  signed_snapshot n manager checked_at issued_at members = do
    proof ← or_err n.admin_proof proof_not_configured
    wrap refused (validate_admin_proof env manager checked_at proof proof.peer_id)
    wrap refused (
        sign_snapshot env n.priv_key (record {
          cluster_id = (current_snapshot env manager).cluster_id;
          issued_at = issued_at;
          issuer_peer_id = n.local_id;
          members = members;
          admin_proof = proof;
          sig = [];
        }))

  unfoldable pub publish_with :
      Peers
      → Time
      → Manager env
      → Result PushError Snapshot
      → Node env
      → (Node env × List Effect) × Result PushError (Unit {0})
  publish_with peers now manager (err e) n = ((n, []), err e)
  publish_with peers now manager (ok s) n =
      let new = (apply env manager now s).0 in
      elim (apply env manager now s).1 [
        | err e ↦ ((record n { membership = some new }, []), err (refused e))
        | ok _ ↦ (
          (
            record n { membership = some new },
            notify_membership_applied env n (current_snapshot env new) ++ push_to_all s peers,
          ),
          ok tt,
        )
      ]

  unfoldable pub publish_membership_snapshot :
      Peers
      → Time
      → Time
      → Time
      → List Text
      → Node env
      → (Node env × List Effect) × Result PushError (Unit {0})
  publish_membership_snapshot peers checked_at issued_at now members n =
      if not (can_write_admin env n) then ((n, []), err node_not_healthy) else elim n.membership [
        | none ↦ ((n, []), err membership_not_initialized)
        | some manager ↦
            publish_with peers now manager (signed_snapshot n manager checked_at issued_at members)
              n
      ]

  -- The loop of SyncMembership over the answers of the peers, each with what the clock says when
  -- Apply reads it; `none` is a fetch that failed.
  unfoldable pub sync_answers :
      Node env → List (Time × Option Snapshot) → Manager env → Manager env × List Effect
  sync_answers n [] manager = (manager, [])
  sync_answers n ((now, none) ∷ rest) manager = sync_answers n rest manager
  sync_answers n ((now, some s) ∷ rest) manager =
      let skips = is_blank s.sig || is_blank s.issuer_peer_id in
      let new = if skips then manager else (apply env manager now s).0 in
      let told = if skips then [] else notify_if_newer n manager new in
      let (last, later) = sync_answers n rest new in (last, told ++ later)

  unfoldable pub sync_membership :
      Peers → List (Time × Option Snapshot) → Node env → Node env × List Effect
  sync_membership peers answers n = elim n.membership [
    | none ↦ (n, [])
    | some manager ↦
        let (last, told) = sync_answers n answers manager in
        (evaluate_runtime_state env peers (record n { membership = some last }), told)
  ]
