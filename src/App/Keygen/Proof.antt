-- ===== src/App/Keygen/Proof.antt =====
-- What the command `keygen` prints for a new system is an admin proof that the cluster accepts.
use p2pos.Text.Order.{same_refl}
use p2pos.Base64.RoundTrip.{decode-encode, trim_space-encode_ne-nil}
use p2pos.Base64.Spaces.{trim_space-encode}
use p2pos.Env.{SignLaws, NanoLaws, KeyLaws, Env}
use p2pos.Time.{IsPrintable, Time}
use p2pos.Text.{is_space, trim_right, trim_left, trim_space, is_blank, join, codes, Text}
use p2pos.Common.{
  ap, ◌∙◌, sym, ◌≤◌, ◌≢◌, ◌++◌, false, true, [], ◌∷◌, ◌≡◌, Option, List, ℕ, arith, ok, refl, some,
}
use p2pos.App.Keygen.Lines.{
  run_keygen_parts, new_system_lines_parts, printed-system_lines, printed, printed_proof,
}
use p2pos.Base64
use p2pos.Membership
use p2pos.Config.{parse_time, parse_admin_proof}
use p2pos.Membership.{
  normalize_members, initial_manager, Manager, check_admin_proof, load_system_key,
  canonical_admin_proof, new_manager, validate_admin_proof,
}
use p2pos.App.Keygen.{node_lines, run_keygen, parse_time_flexible, Options, proof_payload, Line}

-- A text that TrimSpace leaves something of is not empty.
filled_text :
    (t : Text) → trim_space t ≢ [] → (is_blank (trim_space t) ≡ false) × (is_blank t ≡ false)
unfolding trim_space trim_left trim_right
filled_text [] h = absurd (h refl)
filled_text (c ∷ t) h = (ground arith, refl)

admin_trimmed : is_blank (trim_space (codes "admin")) ≡ false
unfolding trim_space trim_left trim_right is_space
admin_trimmed = refl

module _ (env : Env) where
  proof_payload-canonical :
      (p : Membership.AdminProof)
      → p.role ≡ codes "admin"
      → proof_payload env p.cluster_id p.peer_id p.valid_from p.valid_to
        ≡ canonical_admin_proof env p
  unfolding proof_payload canonical_admin_proof join
  proof_payload-canonical p h = rw h refl

  load_system_key-encode :
      (laws : KeyLaws env) (key : env.PubKey) (bytes : List ℕ)
      → env.marshal_public key ≡ some bytes
      → load_system_key env (Base64.encode bytes) ≡ ok (some key)
  unfolding load_system_key
  load_system_key-encode laws key bytes h = ground (
    arith,
    trim_space-encode bytes,
    trim_space-encode_ne-nil bytes (laws.marshal_public-ne-nil key bytes h),
    decode-encode bytes (laws.marshal_public-IsBytes key bytes h),
    laws.unmarshal-marshal_public key bytes h,
  )

  parse_time-format :
      (laws : NanoLaws env) (t : Time)
      → IsPrintable t
      → (is_blank (trim_space (env.format_nano t)) ≡ false)
        × (parse_time env (env.format_nano t) ≡ some t)
  unfolding parse_time
  parse_time-format laws t shown =
      ground (arith, laws.trim-format t, laws.format-ne-nil t, laws.parse-format t shown)

  new_manager-encode :
      (laws : KeyLaws env) (key : env.PubKey) (bytes : List ℕ) (cluster local : Text)
      (names : List Text)
      → env.marshal_public key ≡ some bytes
      → trim_space cluster ≡ cluster
      → cluster ≢ []
      → new_manager env cluster (Base64.encode bytes) local names
        ≡ ok (initial_manager env cluster local (some key) (normalize_members names))
  unfolding new_manager
  new_manager-encode laws key bytes cluster local names made trimmed filled =
      let has_cluster = (filled_text cluster (λ b. filled (sym trimmed ∙ b))).1 in
      simp (new_manager, trimmed, has_cluster, load_system_key-encode laws key bytes made)

  -- The admin proof that the lines describe.
  abbrev issued_proof : Options → Text → Time → Time → List ℕ → Membership.AdminProof
  issued_proof o id valid_from valid_to sig = record {
    cluster_id = o.cluster_id;
    peer_id = id;
    role = codes "admin";
    valid_from = valid_from;
    valid_to = valid_to;
    sig = Base64.encode sig;
  }

  parse_admin_proof-issued :
      (laws : NanoLaws env) (o : Options) (id : Text) (valid_from valid_to : Time) (sig : List ℕ)
      → IsPrintable valid_from
      → IsPrintable valid_to
      → trim_space o.cluster_id ≡ o.cluster_id
      → o.cluster_id ≢ []
      → trim_space id ≢ []
      → trim_space (Base64.encode sig) ≢ []
      → parse_admin_proof env
          (record {
            cluster_id = o.cluster_id;
            peer_id = id;
            role = codes "admin";
            valid_from = env.format_nano valid_from;
            valid_to = env.format_nano valid_to;
            sig = Base64.encode sig;
          })
          o.cluster_id
        ≡ ok (some (issued_proof o id valid_from valid_to sig))
  unfolding parse_admin_proof
  parse_admin_proof-issued laws o id valid_from valid_to sig from to trimmed filled has_id has_sig =
      let (_, read_from) = parse_time-format laws valid_from from in
      let (_, read_to) = parse_time-format laws valid_to to in
      let (i1, i2) = filled_text id has_id in
      let (s1, s2) = filled_text (Base64.encode sig) has_sig in
      let c = (filled_text o.cluster_id (λ e. filled (sym trimmed ∙ e))).0 in
      simp (parse_admin_proof, read_from, read_to, i1, i2, s1, s2, c, admin_trimmed)

  validate_admin_proof-issued :
      (signing : SignLaws env) (m : Manager env) (key : env.PrivKey) (o : Options) (id : Text)
      (valid_from valid_to at : Time) (sig : List ℕ)
      → m.system_pub ≡ some (env.public_of key)
      → m.cluster_id ≡ o.cluster_id
      → env.sign key (proof_payload env o.cluster_id id valid_from valid_to) ≡ some sig
      → valid_from ≤ at
      → at ≤ valid_to
      → validate_admin_proof env m at (issued_proof o id valid_from valid_to sig) id ≡ ok tt
  unfolding validate_admin_proof check_admin_proof
  validate_admin_proof-issued signing m key o id valid_from valid_to at sig k c signed from to =
      ground (
        arith,
        same_refl o.cluster_id,
        same_refl id,
        same_refl (codes "admin"),
        decode-encode sig (signing.sign-IsBytes key _ sig signed),
        signing.verify-sign key _ sig signed,
        proof_payload-canonical (issued_proof o id valid_from valid_to sig) refl,
      )

  -- What a command that makes a new system prints is a key and an admin proof that the cluster
  -- accepts: put into a node's configuration, if the cluster's id has no outer spaces and is not
  -- blank, and the time of the command and the one of the flag have years of four digits in UTC, the key makes a manager, the proof reads back, begins at the time of the command and
  -- ends where the flag says, and passes ValidateAdminProof at every time in between.
  pub run_keygen-validate_admin_proof :
      (signing : SignLaws env) (nano : NanoLaws env) (keys : KeyLaws env) (cid36 : Text → Text)
      (node_key system_key admin_key : Option env.PrivKey) (o : Options) (now : Time)
      (lines : List Line) (local : Text) (names : List Text)
      → IsPrintable now
      → ((t : Time) → parse_time_flexible env o.admin_valid_to ≡ some t → IsPrintable t)
      → o.new_system ≡ true
      → trim_space o.cluster_id ≡ o.cluster_id
      → o.cluster_id ≢ []
      → run_keygen env cid36 node_key system_key admin_key (some o) now ≡ (lines, ok tt)
      → (m : Manager env) × (proof : Membership.AdminProof) × (new_manager env o.cluster_id
            (printed (codes "SYSTEM_PUB_B64") lines)
            local
            names
          ≡ ok m)
        × (parse_admin_proof env (printed_proof lines) o.cluster_id ≡ ok (some proof))
        × (proof.valid_from ≡ now)
        × (parse_time_flexible env o.admin_valid_to ≡ some proof.valid_to)
        × ((at : Time)
            → now ≤ at
            → at ≤ proof.valid_to
            → validate_admin_proof env m at proof (printed (codes "ADMIN_PEER_ID") lines) ≡ ok tt)
  unfolding initial_manager
  run_keygen-validate_admin_proof signing nano keys cid36 node_key system_key admin_key o now lines
        local names starts ends new trimmed filled h =
      let (priv, node_id, last, made, all) =
        run_keygen_parts env cid36 node_key system_key admin_key o now lines new h in
      let (
        sys, key_bytes, pub_bytes, admin_bytes, id, to, sig, admin, pub_made, has_id, until, signed,
        e,
      ) =
        new_system_lines_parts env cid36 node_key system_key admin_key o now last made in
      let (shown_key, shown_id, shown_proof) =
        printed-system_lines env cid36 node_key system_key admin_key o priv node_id
          (Base64.encode key_bytes) (Base64.encode pub_bytes) (Base64.encode admin_bytes) id
          (Base64.encode sig) now to in
      let whole =
        all ∙ ap (λ x. node_lines env cid36 node_key system_key admin_key priv node_id ++ x) e in
      let key_shown = ap (printed (codes "SYSTEM_PUB_B64")) whole ∙ shown_key in
      let id_shown = ap (printed (codes "ADMIN_PEER_ID")) whole ∙ shown_id in
      let proof_shown = ap printed_proof whole ∙ shown_proof in
      let proof = issued_proof o id now to sig in
      let m =
        initial_manager env o.cluster_id local (some (env.public_of sys))
          (normalize_members names) in
      (
        m,
        proof,
        ap (λ k. new_manager env o.cluster_id k local names) key_shown
            ∙ new_manager-encode keys (env.public_of sys) pub_bytes o.cluster_id local names
                pub_made trimmed filled,
        ap (λ r. parse_admin_proof env r o.cluster_id) proof_shown
            ∙ parse_admin_proof-issued nano o id now to sig starts (ends to until) trimmed filled
                (keys.peer_of-filled admin id has_id)
                (trim_space-encode_ne-nil sig (signing.sign-ne-nil sys _ sig signed)),
        refl,
        until,
        λ at from till.
            ap (validate_admin_proof env m at proof) id_shown
            ∙ validate_admin_proof-issued signing m sys o id now to at sig refl refl signed from
                till,
      )
