-- ===== src/App/Setup.antt =====
-- internal/app/runtime.go: setupMembership, which gives a node that starts the members of its table
-- and the admin proof of its configuration, and the handler that writes a snapshot to the table.
pub mod Stored
pub mod Restart
pub mod Authority
use p2pos.Network.Node.{
  set_membership_applied_handler, set_membership_manager, Peers, set_admin_proof, Node,
}
use p2pos.Database.{sync_members, list_member_ids, Table, DbError, Faults}
use p2pos.Common.{◌>>=◌, ◌>>◌, ◌>>=◌, Result, Option, wrap, require, ok, some, none}
use p2pos.Config.{ConfigError, Store, get, admin_proof_of}
use p2pos.Membership
use p2pos.Membership.{Manager, AdminProof, Snapshot, new_manager, validate_admin_proof}
use p2pos.Env.{Env}
use p2pos.Time.{Time}
use p2pos.Text.{Text, same}

pub data SetupError : Type 0 where
  members_not_listed : DbError → SetupError
  manager_refused : Membership.Error → SetupError
  proof_unreadable : ConfigError → SetupError
  proof_of_other_peer : SetupError
  proof_refused : Membership.Error → SetupError

-- The handler that setupMembership sets; an error is only logged.
unfoldable pub on_applied : Faults → Time → Snapshot → Table → Table
on_applied faults now s t = (sync_members faults now s.members t).0

module _ (env : Env) where
  -- The admin proof of the configuration, if it is there and fits the node.
  unfoldable pub checked_proof :
      Time → Text → Store env → Manager env → Result SetupError (Option AdminProof)
  checked_proof now local s manager = do
    found ← wrap proof_unreadable (admin_proof_of env s)
    elim found [
      | none ↦ ok none
      | some proof ↦ do
        require (same proof.peer_id local) proof_of_other_peer
        wrap proof_refused (validate_admin_proof env manager now proof proof.peer_id)
        ok (some proof)
    ]

  unfoldable pub with_proof : Option AdminProof → Node env → Node env
  with_proof none n = n
  with_proof (some proof) n = set_admin_proof env proof n

  -- `peers` is what the host answers when the manager is set.
  unfoldable pub setup_membership :
      Faults → Time → Peers → Store env → Table → Node env → Result SetupError (Node env)
  setup_membership faults now peers s t n = do
    let current = get env s
    stored_members ← wrap members_not_listed (list_member_ids faults t)
    manager ←
        wrap manager_refused
          (new_manager env current.cluster_id current.system_pub_key n.local_id stored_members)
    proof ← checked_proof now n.local_id s manager
    ok (
        set_membership_manager env peers manager
          (set_membership_applied_handler env (with_proof proof n)))
