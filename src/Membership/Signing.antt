-- ===== src/Membership/Signing.antt =====
-- SignSnapshot: what it refuses, and that its result passes the checks of Apply.
use p2pos.Common.{subst, ◌≡◌, ◌≢◌, refl, sym, ap, false, [], arith, ◌∙◌, ok, ◌<◌, some, is_empty}
use p2pos.Text.{trim_space}
use p2pos.Text.Order.{same_iff}
use p2pos.Time.{Time, is_zero}
use p2pos.Base64.{Bytes}
use p2pos.Base64
use p2pos.Base64.RoundTrip.{decode-encode, trim_space-encode_ne-nil}
use p2pos.Env.{Env, SignLaws}
use p2pos.Membership.{
  Snapshot, Manager, check_authority, validate_snapshot, store_newer, apply,
  verify_snapshot_signature, sign_snapshot, canonical_snapshot, normalize_members,
}
use p2pos.Membership.Applying.{normal}
use p2pos.Membership.Members.{normalize_members_idem}

module _ (env : Env) where
  open env use {PrivKey, PeerKey, public_of, sign, decode_peer, extract_public}

  -- What SignSnapshot returns on success: the snapshot in normal form, under a signature of its
  -- canonical payload.
  pub record IsSealed (key : PrivKey) (given signed : Snapshot) : Type 0 where
    pub sealed :
        (sig : Bytes) × (sign key (canonical_snapshot env (normal given)) ≡ some sig)
        × (signed
            ≡ record given { members = normalize_members given.members; sig = Base64.encode sig })
    pub has_cluster : trim_space given.cluster_id ≢ []
    pub has_issuer : trim_space given.issuer_peer_id ≢ []
    pub issued : is_zero given.issued_at ≡ false
    pub populated : is_empty (normalize_members given.members) ≡ false

  sign_snapshot-IsSealed :
      (key : PrivKey) (given signed : Snapshot)
      → sign_snapshot env (some key) given ≡ ok signed
      → IsSealed key given signed
  unfolding sign_snapshot
  sign_snapshot-IsSealed key given signed h = ground arith

  verify_of_signature :
      (laws : SignLaws env) (key : PrivKey) (id : PeerKey) (s : Snapshot) (sig : Bytes)
      → sign key (canonical_snapshot env s) ≡ some sig
      → decode_peer s.issuer_peer_id ≡ some id
      → extract_public id ≡ some (public_of key)
      → s.sig ≡ Base64.encode sig
      → verify_snapshot_signature env s ≡ ok tt
  unfolding verify_snapshot_signature canonical_snapshot
  verify_of_signature laws key id s sig signed decoded extracted e =
      rw
        (
          decoded,
          extracted,
          e,
          decode-encode sig (laws.sign-IsBytes key (canonical_snapshot env s) sig signed),
          laws.verify-sign key (canonical_snapshot env s) sig signed,
        )
        refl

  canonical_snapshot-normal :
      (s : Snapshot) → canonical_snapshot env (normal s) ≡ canonical_snapshot env s
  unfolding canonical_snapshot
  canonical_snapshot-normal s = rw normalize_members_idem refl

  validate_of_parts :
      (m : Manager env) (now : Time) (s : Snapshot)
      → trim_space s.cluster_id ≡ m.cluster_id
      → is_zero s.issued_at ≡ false
      → is_empty s.members ≡ false
      → trim_space s.issuer_peer_id ≢ []
      → trim_space s.sig ≢ []
      → check_authority env m now s ≡ ok tt
      → verify_snapshot_signature env s ≡ ok tt
      → validate_snapshot env m now s ≡ ok tt
  unfolding validate_snapshot
  validate_of_parts m now s c i p f g a v =
      ground (arith, same_iff (trim_space s.cluster_id) m.cluster_id)

  sealed-validate :
      (laws : SignLaws env) (key : PrivKey) (id : PeerKey) (m : Manager env) (now : Time)
      (given : Snapshot) (sig : Bytes)
      → sign key (canonical_snapshot env (normal given)) ≡ some sig
      → IsSealed key given
          (record given { members = normalize_members given.members; sig = Base64.encode sig })
      → decode_peer given.issuer_peer_id ≡ some id
      → extract_public id ≡ some (public_of key)
      → trim_space given.cluster_id ≡ m.cluster_id
      → check_authority env m now given ≡ ok tt
      → validate_snapshot env m now
          (record given { members = normalize_members given.members; sig = Base64.encode sig })
        ≡ ok tt
  unfolding canonical_snapshot check_authority
  sealed-validate laws key id m now given sig signed sealed decoded extracted cluster authority =
      let s = record given { members = normalize_members given.members; sig = Base64.encode sig } in
      validate_of_parts m now s cluster sealed.issued sealed.populated sealed.has_issuer
        (trim_space-encode_ne-nil sig
          (laws.sign-ne-nil key (canonical_snapshot env (normal given)) sig signed))
        authority (verify_of_signature laws key id s sig signed decoded extracted refl)

  store_newer-snapshot :
      (m : Manager env) (s : Snapshot)
      → m.snapshot.issued_at < s.issued_at
      → (store_newer env m s).snapshot ≡ s
  unfolding store_newer
  store_newer-snapshot m s newer = ground arith

  pub apply_of_valid :
      (m : Manager env) (now : Time) (s : Snapshot)
      → validate_snapshot env m now (normal s) ≡ ok tt
      → ((apply env m now s).1 ≡ ok tt)
        × (m.snapshot.issued_at < s.issued_at → (apply env m now s).0.snapshot ≡ normal s)
  unfolding apply
  apply_of_valid m now s h = rw (apply, h) (refl, store_newer-snapshot m (normal s))

  -- A snapshot that SignSnapshot signs with the issuer's key is taken by every manager of its
  -- cluster that accepts the issuer's authority: Apply reports no error, and stores the signed
  -- snapshot if it is newer.
  pub apply-sign_snapshot :
      (laws : SignLaws env) (key : PrivKey) (id : PeerKey) (m : Manager env) (now : Time)
      (given signed : Snapshot)
      → decode_peer given.issuer_peer_id ≡ some id
      → extract_public id ≡ some (public_of key)
      → trim_space given.cluster_id ≡ m.cluster_id
      → check_authority env m now given ≡ ok tt
      → sign_snapshot env (some key) given ≡ ok signed
      → ((apply env m now signed).1 ≡ ok tt)
        × (m.snapshot.issued_at < given.issued_at → (apply env m now signed).0.snapshot ≡ signed)
  apply-sign_snapshot laws key id m now given signed decoded extracted cluster authority h =
      let sealed = sign_snapshot-IsSealed key given signed h in
      let (sig, made, e) = sealed.sealed in
      let valid =
        sealed-validate laws key id m now given sig made (rw e at sealed) decoded extracted cluster
          authority in
      let fixed : normal signed ≡ signed =
        ap normal e
        ∙ ap (λ ms. record given { members = ms; sig = Base64.encode sig })
            (normalize_members_idem given.members)
        ∙ sym e in
      let (fine, stored) =
        apply_of_valid m now signed
          (subst (λ s. validate_snapshot env m now s ≡ ok tt) (sym (fixed ∙ e)) valid) in
      (fine, λ newer. stored (rw e newer) ∙ fixed)
