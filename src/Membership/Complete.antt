-- ===== src/Membership/Complete.antt =====
-- Manager.Apply decides exactly: a snapshot is accepted if and only if it is valid, and an accepted
-- one is stored if and only if it is newer.
use p2pos.Text.Sorted.{contains-add_all}
use p2pos.Text.Order.{same_iff}
use p2pos.Membership.Applying.{normal}
use p2pos.Membership.Authority.{validate_snapshot-IsValid, IsAdmin, IsSigned, IsValid}
use p2pos.Membership.{
  AdminProof, Snapshot, store_newer, Manager, apply, verify_snapshot_signature, check_admin_proof,
  check_authority, validate_snapshot,
}
use p2pos.Env.{Env}
use p2pos.Time.{after, is_zero, before, Time}
use p2pos.Common.{
  lt→ltb, [], Result-cases, Option-cases, ◌⊎◌, ◌<◌, ◌≤◌, ◌||◌, ◌≡◌, not, arith, is_empty, err, ok,
  refl, inr, inl, true,
}
use p2pos.Membership.{Error}
use p2pos.Text.{is_blank, Text, trim_space, codes, contains}

module _ (env : Env) where
  check_admin_proof_of_IsAdmin :
      (key : env.PubKey) (cluster : Text) (now : Time) (proof : AdminProof) (issuer : Text)
      → IsAdmin env key cluster now proof issuer
      → check_admin_proof env key cluster now proof issuer ≡ ok tt
  unfolding check_admin_proof
  check_admin_proof_of_IsAdmin key cluster now proof issuer a =
      let (sig, decoded, verified) = a.signed in
      let in_force : not (before now proof.valid_from || after now proof.valid_to) ≡ true =
        ground (arith, a.started, a.not_ended) in
      simp (
        check_admin_proof,
        (same_iff proof.role (codes "admin")).1 a.role,
        (same_iff proof.cluster_id cluster).1 a.cluster_id,
        (same_iff proof.peer_id issuer).1 a.peer_id,
        in_force,
        decoded,
        verified,
      )

  verify_snapshot_signature_of_IsSigned :
      (s : Snapshot) → IsSigned env s → verify_snapshot_signature env s ≡ ok tt
  unfolding verify_snapshot_signature
  verify_snapshot_signature_of_IsSigned s h =
      let (id, key, sig, found, extracted, decoded, verified) = h.signed in
      simp (verify_snapshot_signature, found, extracted, decoded, verified)

  check_authority_of_IsValid :
      (m : Manager env) (now : Time) (s : Snapshot)
      → IsValid env m now s
      → check_authority env m now s ≡ ok tt
  unfolding check_authority
  check_authority_of_IsValid m now s v = elim (Option-cases m.system_pub) [
    | inl h ↦ simp (check_authority, h)
    | inr (key, h) ↦
        simp (check_authority, h)
          (check_admin_proof_of_IsAdmin key m.cluster_id now s.admin_proof s.issuer_peer_id
            (v.authorised key h))
  ]

  validate_snapshot_of_IsValid :
      (m : Manager env) (now : Time) (s : Snapshot)
      → IsValid env m now s
      → validate_snapshot env m now s ≡ ok tt
  unfolding validate_snapshot
  validate_snapshot_of_IsValid m now s v =
      let dated : not (is_zero s.issued_at) ≡ true = ground (arith, v.issued) in
      let populated : not (is_empty s.members) ≡ true = ground (arith, v.populated) in
      let has_issuer : not (is_blank (trim_space s.issuer_peer_id)) ≡ true =
        ground (arith, v.has_issuer) in
      let has_sig : not (is_blank (trim_space s.sig)) ≡ true = ground (arith, v.has_sig) in
      simp (
        validate_snapshot,
        (same_iff (trim_space s.cluster_id) m.cluster_id).1 v.cluster,
        dated,
        populated,
        has_issuer,
        has_sig,
        check_authority_of_IsValid m now s v,
        verify_snapshot_signature_of_IsSigned s v.signed,
      )

  -- Apply accepts a snapshot exactly if it is valid: of this cluster, dated, with members, an issuer
  -- and the issuer's signature, and with an admin proof in force if the manager has a system key. An
  -- accepted one that is newer is stored in normal form, with its members as the member set; an
  -- accepted one that is not newer, and a refused one, leave the manager as it is.
  pub apply_decides :
      (m : Manager env) (now : Time) (s : Snapshot)
      → (IsValid env m now (normal s)
          × ((apply env m now s).1 ≡ ok tt)
          × ((m.snapshot.issued_at < s.issued_at)
              → ((apply env m now s).0.snapshot ≡ normal s)
                × ((a : Text)
                    → contains a (apply env m now s).0.member_set ≡ contains a (normal s).members))
          × ((s.issued_at ≤ m.snapshot.issued_at) → (apply env m now s).0 ≡ m))
        ⊎ ((¬ IsValid env m now (normal s)) × ((e : Error) × (apply env m now s ≡ (m, err e))))
  unfolding apply store_newer
  apply_decides m now s = elim (Result-cases (validate_snapshot env m now (normal s))) [
    | inl (_, h) ↦ inl (
      validate_snapshot-IsValid env m now (normal s) h,
      rw (apply, h) refl,
      λ newer. (
        rw (apply, h) (ground arith),
        λ a. rw (apply, h, lt→ltb _ _ newer) (contains-add_all a [] (normal s).members),
      ),
      λ older. rw (apply, h) (ground arith),
    )
    | inr (e, h) ↦ inr (
      λ v. absurd (cc (rw (validate_snapshot_of_IsValid m now (normal s) v) at h)),
      (e, rw (apply, h) refl),
    )
  ]
