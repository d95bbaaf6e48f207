-- ===== src/Membership/Authority.antt =====
-- Who may change the member list: what a snapshot that Apply stores has been checked for.
use p2pos.Common.{◌≡◌, ◌≢◌, true, inl, inr, ok, ◌≤◌, ◌<◌, some, [], arith}
use p2pos.Text.{Text, trim_space, codes}
use p2pos.Text.Order.{same_iff}
use p2pos.Time.{Time, zero_time}
use p2pos.Base64.{Bytes}
use p2pos.Base64
use p2pos.Env.{Env}
use p2pos.Membership.Applying.{normal, apply_outcomes}
use p2pos.Membership.{
  AdminProof, Snapshot, Manager, canonical_admin_proof, canonical_snapshot, check_admin_proof,
  check_authority, verify_snapshot_signature, validate_snapshot, apply,
}

module _ (env : Env) where
  open env use {PubKey, decode_peer, extract_public, verify}

  -- An admin proof that the holder of `key` gave to `issuer` for this cluster, in force at `now`.
  pub record IsAdmin (key : PubKey) (cluster : Text) (now : Time) (proof : AdminProof)
      (issuer : Text) : Type 0 where
    pub role : proof.role ≡ codes "admin"
    pub cluster_id : proof.cluster_id ≡ cluster
    pub peer_id : proof.peer_id ≡ issuer
    pub started : proof.valid_from ≤ now
    pub not_ended : now ≤ proof.valid_to
    pub signed :
        (sig : Bytes) × (Base64.decode proof.sig ≡ some sig)
        × (verify key (canonical_admin_proof env proof) sig ≡ some true)

  -- The snapshot's signature is the issuer's own.
  pub record IsSigned (s : Snapshot) : Type 0 where
    pub signed :
        (id : env.PeerKey) × (key : PubKey) × (sig : Bytes) × (decode_peer s.issuer_peer_id
          ≡ some id)
        × (extract_public id ≡ some key)
        × (Base64.decode s.sig ≡ some sig)
        × (verify key (canonical_snapshot env s) sig ≡ some true)

  pub check_admin_proof-IsAdmin :
      (key : PubKey) (cluster : Text) (now : Time) (proof : AdminProof) (issuer : Text)
      → check_admin_proof env key cluster now proof issuer ≡ ok tt
      → IsAdmin key cluster now proof issuer
  unfolding check_admin_proof
  check_admin_proof-IsAdmin key cluster now proof issuer h = ground (
    arith,
    same_iff proof.role (codes "admin"),
    same_iff proof.cluster_id cluster,
    same_iff proof.peer_id issuer,
  )

  pub verify_snapshot_signature-IsSigned :
      (s : Snapshot) → verify_snapshot_signature env s ≡ ok tt → IsSigned s
  unfolding verify_snapshot_signature
  verify_snapshot_signature-IsSigned s h = ground arith

  -- What a snapshot has been checked for.
  pub record IsValid (m : Manager env) (now : Time) (s : Snapshot) : Type 0 where
    pub cluster : trim_space s.cluster_id ≡ m.cluster_id
    pub issued : s.issued_at ≢ zero_time
    pub populated : s.members ≢ []
    pub has_issuer : trim_space s.issuer_peer_id ≢ []
    pub has_sig : trim_space s.sig ≢ []
    pub authorised :
        (key : PubKey)
        → m.system_pub ≡ some key
        → IsAdmin key m.cluster_id now s.admin_proof s.issuer_peer_id
    pub signed : IsSigned s

  check_authority-IsAdmin :
      (m : Manager env) (now : Time) (s : Snapshot) (key : PubKey)
      → check_authority env m now s ≡ ok tt
      → m.system_pub ≡ some key
      → IsAdmin key m.cluster_id now s.admin_proof s.issuer_peer_id
  unfolding check_authority
  check_authority-IsAdmin m now s key h e =
      check_admin_proof-IsAdmin key m.cluster_id now s.admin_proof s.issuer_peer_id (rw e at h)

  validate_snapshot_parts :
      (m : Manager env) (now : Time) (s : Snapshot)
      → validate_snapshot env m now s ≡ ok tt
      → (trim_space s.cluster_id ≡ m.cluster_id)
        × (s.issued_at ≢ zero_time)
        × (s.members ≢ [])
        × (trim_space s.issuer_peer_id ≢ [])
        × (trim_space s.sig ≢ [])
        × (check_authority env m now s ≡ ok tt)
        × (verify_snapshot_signature env s ≡ ok tt)
  unfolding validate_snapshot
  validate_snapshot_parts m now s h =
      ground (arith, same_iff (trim_space s.cluster_id) m.cluster_id)

  pub validate_snapshot-IsValid :
      (m : Manager env) (now : Time) (s : Snapshot)
      → validate_snapshot env m now s ≡ ok tt
      → IsValid m now s
  validate_snapshot-IsValid m now s h =
      let (c, i, p, f, g, a, v) = validate_snapshot_parts m now s h in
      record {
        cluster = c;
        issued = i;
        populated = p;
        has_issuer = f;
        has_sig = g;
        authorised = λ key e. check_authority-IsAdmin m now s key a e;
        signed = verify_snapshot_signature-IsSigned s v;
      }

  -- Whenever Apply changes the manager, the snapshot that it stores is of this cluster, newer than
  -- the old one and not empty, bears its issuer's signature, and, if the manager has a system key,
  -- carries an admin proof for the issuer that the system key signed and that is in force.
  pub apply-IsValid :
      (m : Manager env) (now : Time) (s : Snapshot)
      → (apply env m now s).0 ≢ m
      → ((apply env m now s).0.snapshot ≡ normal s)
        × (m.snapshot.issued_at < s.issued_at)
        × IsValid m now (normal s)
  apply-IsValid m now s changed = elim (apply_outcomes env m now s) [
    | inl same ↦ absurd (changed same.0)
    | inr (stored, newer, valid, _) ↦
        (stored, newer, validate_snapshot-IsValid m now (normal s) valid)
  ]
