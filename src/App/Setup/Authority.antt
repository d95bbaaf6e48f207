-- ===== src/App/Setup/Authority.antt =====
-- The admin proof of a node that has started.
use p2pos.Text.Order.{same_iff}
use p2pos.App.Setup.Restart.{ready-membership, setup_membership_parts, ready}
use p2pos.Config.{admin_proof_of, Store}
use p2pos.Database.{Table, Faults}
use p2pos.Membership.Authority.{check_admin_proof-IsAdmin, IsAdmin}
use p2pos.App.Setup.{setup_membership, with_proof, checked_proof}
use p2pos.Network.Node.{
  runtime_state, set_membership_applied_handler, set_admin_proof, Node, Peers,
  evaluate_runtime_state, set_membership_manager,
}
use p2pos.Env.{Env}
use p2pos.Time.{Time}
use p2pos.Text.{same, Text}
use p2pos.Common.{
  Bool-cases, Result-cases, Option-cases, ◌∙◌, ◌≡◌, Option, subst, sym, ap, ok, refl, inr, inl,
  some, none,
}
use p2pos.Membership.{Manager, AdminProof, validate_admin_proof}

module _ (env : Env) where
  validate_admin_proof-IsAdmin :
      (m : Manager env) (now : Time) (proof : AdminProof) (issuer : Text)
      → validate_admin_proof env m now proof issuer ≡ ok tt
      → (key : env.PubKey) × (m.system_pub ≡ some key)
        × IsAdmin env key m.cluster_id now proof issuer
  unfolding validate_admin_proof
  validate_admin_proof-IsAdmin m now proof issuer h = elim (Option-cases m.system_pub) [
    | inl e ↦ absurd (cc (simp (validate_admin_proof, e) at h))
    | inr (key, e) ↦ (
      key,
      e,
      check_admin_proof-IsAdmin env key m.cluster_id now proof issuer
          (simp (validate_admin_proof, e) at h),
    )
  ]

  checked_proof-IsAdmin :
      (now : Time) (local : Text) (s : Store env) (m : Manager env) (proof : AdminProof)
      → checked_proof env now local s m ≡ ok (some proof)
      → (key : env.PubKey) × (m.system_pub ≡ some key)
        × (proof.peer_id ≡ local)
        × IsAdmin env key m.cluster_id now proof local
  unfolding checked_proof
  checked_proof-IsAdmin now local s m proof h = elim (Result-cases (admin_proof_of env s)) [
    | inr (e, failed) ↦ absurd (cc (rw failed at h))
    | inl (found, e) ↦ elim (Option-cases found) [
      | inl unset ↦ absurd (cc (rw (e, unset) at h))
      | inr (p, set) ↦ elim (Bool-cases (same p.peer_id local)) [
        | inr other ↦ absurd (cc (simp (checked_proof, e, set, other) at h))
        | inl own ↦ elim (Result-cases (validate_admin_proof env m now p p.peer_id)) [
          | inr (refusal, bad) ↦ absurd (cc (simp (checked_proof, e, set, own, bad) at h))
          | inl (_, valid) ↦
              let is_p : p ≡ proof = cc (simp (checked_proof, e, set, own, valid) at h) in
              let name = (same_iff p.peer_id local).0 own in
              let (key, has_key, admin) = validate_admin_proof-IsAdmin m now p p.peer_id valid in
              (
                key,
                has_key,
                subst (λ q. q.peer_id ≡ local) is_p name,
                subst (λ q. IsAdmin env key m.cluster_id now q local) is_p
                    (subst (λ i. IsAdmin env key m.cluster_id now p i) name admin),
              )
        ]
      ]
    ]
  ]

  ready-fields :
      (peers : Peers) (m : Manager env) (proof : AdminProof) (found : Option AdminProof)
      (n : Node env)
      → n.admin_proof ≡ none
      → (ready env peers m found n).admin_proof ≡ some proof
      → (found ≡ some proof)
        × ((ready env peers m found n).state ≡ runtime_state env n.local_id (some m) peers)
  unfolding set_membership_manager evaluate_runtime_state with_proof set_admin_proof
      set_membership_applied_handler
  ready-fields peers m proof none n fresh h = absurd (cc)
  ready-fields peers m proof (some p) n fresh h = (h, refl)

  -- The admin proof that a node presents after a start has been checked: it names the node
  -- itself, and, under the system key, gives it authority at the time of the start.
  pub setup_membership-IsAdmin :
      (faults : Faults) (now : Time) (peers : Peers) (s : Store env) (t : Table) (n next : Node env)
      (proof : AdminProof)
      → n.admin_proof ≡ none
      → setup_membership env faults now peers s t n ≡ ok next
      → next.admin_proof ≡ some proof
      → (m : Manager env) × (key : env.PubKey) × (next.membership ≡ some m)
        × (m.system_pub ≡ some key)
        × (proof.peer_id ≡ n.local_id)
        × (IsAdmin env key m.cluster_id now proof n.local_id)
        × (next.state ≡ runtime_state env n.local_id (some m) peers)
  setup_membership-IsAdmin faults now peers s t n next proof fresh h held =
      let (names, m, found, _, _, checked, e) =
        setup_membership_parts env faults now peers s t n next h in
      let (is_proof, state) =
        ready-fields peers m proof found n fresh (ap (λ x. x.admin_proof) (sym e) ∙ held) in
      let (key, has_key, name, admin) =
        checked_proof-IsAdmin now n.local_id s m proof (checked ∙ ap ok is_proof) in
      (
        m,
        key,
        ap (λ x. x.membership) e ∙ ready-membership env peers m found n,
        has_key,
        name,
        admin,
        ap (λ x. x.state) e ∙ state,
      )
