-- ===== src/Network/Node.antt =====
-- internal/network/node.go, runtime_state.go and tracker.go: the node's state, who may connect, and
-- the runtime state that follows from the members and the connections.
pub mod Quorum
pub mod Admission
use p2pos.Env.{Env}
use p2pos.Text.{same, Text}
use p2pos.Common.{
  [], ◌==◌, ◌*◌, ◌+◌, ◌&&◌, ◌++◌, ◌∷◌, if◌then◌else◌, Bool, Option, List, ℕ, not, ltb, keep, length,
  false, true, some, none,
}
use p2pos.Membership.{AdminProof, Snapshot, Manager, is_member, current_snapshot}
use p2pos.Membership

pub data RuntimeState : Type 0 where
  unconfigured : RuntimeState
  degraded : RuntimeState
  healthy : RuntimeState

-- peerstore.AddrInfo
pub record AddrInfo : Type 0 where
  pub id : Text
  pub addrs : List Text

-- The map of a Tracker, by peer id.
abbrev pub Tracker : Type 0
Tracker = List AddrInfo

unfoldable pub remove_peer : Text → Tracker → Tracker
remove_peer id = keep (λ p. not (same p.id id))

unfoldable pub upsert_peer : AddrInfo → Tracker → Tracker
upsert_peer p t = remove_peer p.id t ++ p ∷ []

-- What a node does to the world beside its own state, in the order in which it does it.
pub data Effect : Type 0 where
  publish_connected : Text → Text → Effect
  publish_disconnected : Text → Text → Effect
  publish_heartbeat : Text → Text → Effect
  close_conn : Text → Effect
  notify_applied : Snapshot → Effect
  push_to : Text → Snapshot → Effect

-- What the host answers for a peer of `Network().Peers()`: its id, and whether it is connected.
abbrev pub Peers : Type 0
Peers = List (Text × Bool)

unfoldable without : Text → List Text → List Text
without id = keep (λ x. not (same x id))

module _ (env : Env) where
  pub record Node : Type 0 where
    pub local_id : Text
    pub priv_key : Option env.PrivKey
    pub membership : Option (Manager env)
    pub admin_proof : Option AdminProof
    pub state : RuntimeState
    pub tracker : Tracker
    pub heartbeat_unsupported : List Text
    pub status_unsupported : List Text
    -- `n.bus != nil` and `n.onMembershipApplied != nil`
    pub has_bus : Bool
    pub has_applied_handler : Bool

  abbrev pub is_unconfigured : RuntimeState → Bool
  is_unconfigured unconfigured = true
  is_unconfigured degraded = false
  is_unconfigured healthy = false

  abbrev pub is_healthy : RuntimeState → Bool
  is_healthy unconfigured = false
  is_healthy degraded = false
  is_healthy healthy = true

  unfoldable pub can_use_business_protocols : Node → Bool
  can_use_business_protocols n = not (is_unconfigured n.state)

  unfoldable pub can_write_admin : Node → Bool
  can_write_admin n = is_healthy n.state

  unfoldable pub node_is_member : Node → Text → Bool
  node_is_member n peer_id = elim n.membership [
    | none ↦ false
    | some manager ↦ is_member env manager peer_id
  ]

  unfoldable pub allow_peer : Node → Text → Bool
  allow_peer n peer_id = if is_unconfigured n.state then true else node_is_member n peer_id

  -- The loop of evaluateRuntimeState.
  unfoldable pub count_online : Manager env → ℕ → Peers → ℕ
  count_online manager online [] = online
  count_online manager online ((pid, connected) ∷ rest) =
      count_online manager (if connected && is_member env manager pid then online + 1 else online)
        rest

  unfoldable pub runtime_state : Text → Option (Manager env) → Peers → RuntimeState
  runtime_state local_id none peers = unconfigured
  runtime_state local_id (some manager) peers =
      let member_count = length (current_snapshot env manager).members in
      if not (is_member env manager local_id)
      then unconfigured
      else if member_count == 0
      then unconfigured
      else if ltb member_count (count_online manager 1 peers * 2)
      then healthy
      else degraded

  -- setRuntimeState only logs beside the assignment.
  unfoldable pub evaluate_runtime_state : Peers → Node → Node
  evaluate_runtime_state peers n = record n { state = runtime_state n.local_id n.membership peers }

  unfoldable pub set_membership_manager : Peers → Manager env → Node → Node
  set_membership_manager peers manager n =
      evaluate_runtime_state peers (record n { membership = some manager })

  unfoldable pub set_admin_proof : AdminProof → Node → Node
  set_admin_proof proof n = record n { admin_proof = some proof }

  unfoldable pub set_membership_applied_handler : Node → Node
  set_membership_applied_handler n = record n { has_applied_handler = true }

  unfoldable pub notify_membership_applied : Node → Snapshot → List Effect
  notify_membership_applied n s = if n.has_applied_handler then notify_applied s ∷ [] else []

  abbrev when_bus : Node → Effect → List Effect
  when_bus n e = if n.has_bus then e ∷ [] else []

  unfoldable pub forget_protocols : Text → Node → Node
  unfolding without
  forget_protocols remote n = record n {
    heartbeat_unsupported = without remote n.heartbeat_unsupported;
    status_unsupported = without remote n.status_unsupported;
  }

  -- ConnectedF of registerConnectionNotifications
  unfoldable pub on_connected : Peers → Text → Text → Node → Node × List Effect
  on_connected peers remote addr given =
      let n = forget_protocols remote given in
      if not (allow_peer n remote) then (n, close_conn remote ∷ []) else (
        evaluate_runtime_state peers (record n {
          tracker = upsert_peer (record { id = remote; addrs = addr ∷ [] }) n.tracker;
        }),
        when_bus n (publish_connected remote addr),
      )

  -- DisconnectedF; `conns` counts the connections to the peer that are left.
  unfoldable pub on_disconnected : Peers → ℕ → Text → Text → Node → Node × List Effect
  on_disconnected peers conns remote addr given =
      let n =
        if conns == 0 then record given { tracker = remove_peer remote given.tracker } else given in
      if not (allow_peer n remote)
      then (evaluate_runtime_state peers n, [])
      else (evaluate_runtime_state peers n, when_bus n (publish_disconnected remote addr))
