-- ===== src/Tests/Cluster.antt =====
-- Runs of the theorems on the membership.
use p2pos.Membership.Complete.{apply_decides}
use p2pos.Membership.Signing.{apply-sign_snapshot}
use p2pos.Membership.Authority.{apply-IsValid, IsValid}
use p2pos.Base64.RoundTrip.{decode-encode}
use p2pos.Tests.Toy.{
  toy_signing, m0-IsConsistent, toy_nano, s1, m0, toy, s0, bob, alice, draft0, now0,
}
use p2pos.Membership.Applying.{apply-IsConsistent, normal, IsConsistent}
use p2pos.Text.Sorted.{add_all, set_add, insert_sorted, sort_texts}
use p2pos.Membership.Convergence.{deliver-perm, AreIssued, deliver}
use p2pos.Membership.Canonical.{comma_ambiguous, canonical_snapshot-inj, IsPlain}
use p2pos.Time.{Time}
use p2pos.Text.{
  join, less, same, is_space, codes, is_blank, trim_right, trim_left, trim_space, contains, Text,
}
use p2pos.Common.{
  ◌≤◌, map, [], ◌==◌, ◌⊎◌, ◌<◌, ◌∷◌, ◌≢◌, ◌≡◌, if◌then◌else◌, ap, arith, keep, err, ok, refl, false,
  true, some,
}
use p2pos.Membership.{
  sign_snapshot, canonical_admin_proof, canonical_snapshot, unique_members, store_newer,
  check_admin_proof, verify_snapshot_signature, check_authority, validate_snapshot, Snapshot, apply,
  normalize_members, Error,
}
use p2pos.Base64
use p2pos.Base64.{decode_digits, quantum, value, encode, decode, digit}
use mathlib.Core.List.{Permᴰ}

program : Unit {0}
unfolding apply validate_snapshot check_authority check_admin_proof verify_snapshot_signature
    store_newer normalize_members unique_members sort_texts insert_sorted set_add add_all trim_space
    trim_left trim_right is_space same less encode digit value quantum decode_digits decode keep
    join canonical_snapshot canonical_admin_proof sign_snapshot
program = tt

apply-changes : (apply toy m0 now0 s0).0 ≢ m0
unfolding program
apply-changes e = absurd (cc (ap (λ m. m.snapshot.issued_at) e))

apply-IsValid_example :
    ((apply toy m0 now0 s0).0.snapshot ≡ normal s0)
    × (m0.snapshot.issued_at < s0.issued_at)
    × IsValid toy m0 now0 (normal s0)
apply-IsValid_example = apply-IsValid toy m0 now0 s0 apply-changes

apply_decides_example :
    (IsValid toy m0 now0 (normal s0)
      × ((apply toy m0 now0 s0).1 ≡ ok tt)
      × ((m0.snapshot.issued_at < s0.issued_at)
          → ((apply toy m0 now0 s0).0.snapshot ≡ normal s0)
            × ((a : Text)
                → contains a (apply toy m0 now0 s0).0.member_set ≡ contains a (normal s0).members))
      × ((s0.issued_at ≤ m0.snapshot.issued_at) → (apply toy m0 now0 s0).0 ≡ m0))
    ⊎ ((¬ IsValid toy m0 now0 (normal s0)) × ((e : Error) × (apply toy m0 now0 s0 ≡ (m0, err e))))
apply_decides_example = apply_decides toy m0 now0 s0

apply-IsConsistent_example : IsConsistent toy (apply toy m0 now0 s0).0
apply-IsConsistent_example = apply-IsConsistent toy m0 now0 s0 m0-IsConsistent

abbrev issued : Time → Snapshot
issued t = if t == now0 then normal s0 else normal s1

both_issued : AreIssued toy m0 issued ((now0, s0) ∷ (now0, s1) ∷ [])
unfolding program
both_issued = ((refl, refl), ((refl, refl), tt))

deliver-perm_example :
    deliver toy m0 ((now0, s0) ∷ (now0, s1) ∷ []) ≡ deliver toy m0 ((now0, s1) ∷ (now0, s0) ∷ [])
deliver-perm_example = deliver-perm toy m0 issued (Permᴰ.swap refl refl) both_issued

abbrev s2 : Snapshot
s2 = record draft0 { members = alice ∷ bob ∷ []; sig = Base64.encode (1 ∷ []) }

apply-sign_snapshot_example :
    ((apply toy m0 now0 s2).1 ≡ ok tt)
    × (m0.snapshot.issued_at < draft0.issued_at → (apply toy m0 now0 s2).0.snapshot ≡ s2)
unfolding program
apply-sign_snapshot_example =
    apply-sign_snapshot toy toy_signing true alice m0 now0 draft0 s2 refl refl refl refl refl

s0-IsPlain : IsPlain toy s0
unfolding program
s0-IsPlain = record {
  cluster = refl;
  issuer = refl;
  no_bars = (refl, (refl, tt));
  no_commas = (refl, (refl, tt));
  populated = λ e. absurd (cc);
}

abbrev s3 : Snapshot
s3 = record s0 { members = alice ∷ bob ∷ alice ∷ [] }

s3-IsPlain : IsPlain toy s3
unfolding program
s3-IsPlain = record {
  cluster = refl;
  issuer = refl;
  no_bars = (refl, (refl, tt));
  no_commas = (refl, (refl, tt));
  populated = λ e. absurd (cc);
}

canonical_snapshot-inj_example :
    (s0.cluster_id ≡ s3.cluster_id)
    × (s0.issued_at ≡ s3.issued_at)
    × (s0.issuer_peer_id ≡ s3.issuer_peer_id)
    × (normalize_members s0.members ≡ normalize_members s3.members)
unfolding program
canonical_snapshot-inj_example =
    canonical_snapshot-inj toy toy_nano s0 s3 s0-IsPlain s3-IsPlain refl

abbrev s4 : Snapshot
s4 = record s0 { members = codes "alice,bob" ∷ [] }

comma_ambiguous_example :
    (normalize_members s0.members ≢ normalize_members s4.members)
    × (verify_snapshot_signature toy s4 ≡ verify_snapshot_signature toy s0)
unfolding program
comma_ambiguous_example = comma_ambiguous toy s0 s4 alice bob refl refl refl refl refl refl

same_names :
    (x : Text)
    → is_blank x ≡ false
    → contains x (map trim_space (alice ∷ bob ∷ []))
      ≡ contains x (map trim_space (bob ∷ codes " alice" ∷ bob ∷ []))
unfolding trim_space trim_left trim_right is_space
same_names x h = ground arith

decode-encode_example : decode (encode (7 ∷ 255 ∷ [])) ≡ some (7 ∷ 255 ∷ [])
decode-encode_example = decode-encode (7 ∷ 255 ∷ []) (omega arith, (omega arith, tt))
