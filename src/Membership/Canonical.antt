-- ===== src/Membership/Canonical.antt =====
-- What a signature over canonicalSnapshot binds, and what it leaves open.
use mathlib.Core.List.{append_assoc}
use p2pos.Text.Join.{has_char-join, join-inj, AreFree}
use p2pos.Text.{codes, join, has_char, Text}
use p2pos.Membership.{verify_snapshot_signature, normalize_members, canonical_snapshot, Snapshot}
use p2pos.Common.{refl, arith, ◌++◌, [], false, ◌∷◌, ◌≡◌, ◌≢◌, List}
use p2pos.Env.{NanoLaws, Env}

module _ (env : Env) where
  -- No separator stands in the parts of the payload, and there are members.
  pub record IsPlain (s : Snapshot) : Type 0 where
    pub cluster : has_char b'|' s.cluster_id ≡ false
    pub issuer : has_char b'|' s.issuer_peer_id ≡ false
    pub no_bars : AreFree b'|' (normalize_members s.members)
    pub no_commas : AreFree b',' (normalize_members s.members)
    pub populated : normalize_members s.members ≢ []

  parts : Snapshot → Text → List Text
  parts s ms = s.cluster_id ∷ env.format_nano s.issued_at ∷ s.issuer_peer_id ∷ ms ∷ []

  joined-inj :
      (xs ys : List Text)
      → xs ≢ []
      → ys ≢ []
      → AreFree b',' xs
      → AreFree b',' ys
      → join (codes ",") xs ≡ join (codes ",") ys
      → xs ≡ ys
  joined-inj [] ys h k f g e = absurd (h refl)
  joined-inj (x ∷ xs) [] h k f g e = absurd (k refl)
  joined-inj (x ∷ xs) (y ∷ ys) h k f g e = join-inj b',' x y xs ys f g e

  -- If no part contains a separator, a payload belongs to one cluster, one time, one issuer and one
  -- normalized member list: a signature says all four.
  pub canonical_snapshot-inj :
      (laws : NanoLaws env) (s t : Snapshot)
      → IsPlain s
      → IsPlain t
      → canonical_snapshot env s ≡ canonical_snapshot env t
      → (s.cluster_id ≡ t.cluster_id)
        × (s.issued_at ≡ t.issued_at)
        × (s.issuer_peer_id ≡ t.issuer_peer_id)
        × (normalize_members s.members ≡ normalize_members t.members)
  unfolding canonical_snapshot parts
  canonical_snapshot-inj laws s t p q e =
      let ms = join (codes ",") (normalize_members s.members) in
      let mt = join (codes ",") (normalize_members t.members) in
      let all : parts s ms ≡ parts t mt =
        join-inj b'|' s.cluster_id t.cluster_id _ _
          (
            p.cluster,
            (
              laws.format-no_bar s.issued_at,
              (
                p.issuer,
                (has_char-join b'|' b',' (normalize_members s.members) refl p.no_bars, tt),
              ),
            ),
          )
          (
            q.cluster,
            (
              laws.format-no_bar t.issued_at,
              (
                q.issuer,
                (has_char-join b'|' b',' (normalize_members t.members) refl q.no_bars, tt),
              ),
            ),
          )
          e in
      let times : env.format_nano s.issued_at ≡ env.format_nano t.issued_at = cc in
      (
        cc,
        laws.format-inj s.issued_at t.issued_at times,
        cc,
        joined-inj _ _ p.populated q.populated p.no_commas q.no_commas (cc),
      )

  canonical_snapshot-comma :
      (s t : Snapshot) (a b : Text)
      → normalize_members s.members ≡ a ∷ b ∷ []
      → normalize_members t.members ≡ (a ++ codes "," ++ b) ∷ []
      → t.cluster_id ≡ s.cluster_id
      → t.issued_at ≡ s.issued_at
      → t.issuer_peer_id ≡ s.issuer_peer_id
      → canonical_snapshot env t ≡ canonical_snapshot env s
  unfolding canonical_snapshot join
  canonical_snapshot-comma s t a b ms mt c i p = simp (ms, mt, c, i, p, append_assoc)

  -- Two names and the one name that joins them by a comma have one payload, so whatever signature
  -- verifies for the members a and b verifies for the single member "a,b" too.
  pub comma_ambiguous :
      (s t : Snapshot) (a b : Text)
      → normalize_members s.members ≡ a ∷ b ∷ []
      → normalize_members t.members ≡ (a ++ codes "," ++ b) ∷ []
      → t.cluster_id ≡ s.cluster_id
      → t.issued_at ≡ s.issued_at
      → t.issuer_peer_id ≡ s.issuer_peer_id
      → t.sig ≡ s.sig
      → (normalize_members s.members ≢ normalize_members t.members)
        × (verify_snapshot_signature env t ≡ verify_snapshot_signature env s)
  unfolding verify_snapshot_signature
  comma_ambiguous s t a b ms mt c i p g =
      (λ e. ground arith, simp (p, g, canonical_snapshot-comma s t a b ms mt c i p))
