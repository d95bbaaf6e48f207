-- ===== src/App/Keygen/Lines.antt =====
-- The lines that a successful run of `keygen` prints, and what stands under their names.
use p2pos.Env.{Env}
use p2pos.Time.{Time}
use p2pos.Text.{same, codes, Text}
use p2pos.Common.{
  Result-cases, ◌++◌, true, Option-cases, inr, inl, [], ◌∷◌, ◌≡◌, if◌then◌else◌, Option, List, ℕ,
  ok, refl, some,
}
use p2pos.Base64
use p2pos.Config.{RawProof}
use p2pos.App.Keygen.{
  ensure_node_key, node_lines, run_keygen, system_lines, parse_time_flexible, marshal_pub_b64,
  marshal_priv_b64, Options, proof_payload, new_system_lines, Line,
}

-- The value printed under a name.
unfoldable pub printed : Text → List Line → Text
printed name [] = []
printed name ((key, value) ∷ rest) =
    let later_value = printed name rest in if same key name then value else later_value

-- The configuration's admin_proof, filled in with the lines of its names.
unfoldable pub printed_proof : List Line → RawProof
printed_proof lines = record {
  cluster_id = printed (codes "ADMIN_PROOF_CLUSTER_ID") lines;
  peer_id = printed (codes "ADMIN_PROOF_PEER_ID") lines;
  role = printed (codes "ADMIN_PROOF_ROLE") lines;
  valid_from = printed (codes "ADMIN_PROOF_VALID_FROM") lines;
  valid_to = printed (codes "ADMIN_PROOF_VALID_TO") lines;
  sig = printed (codes "ADMIN_PROOF_SIG") lines;
}

module _ (env : Env) where
  module _ (cid36 : Text → Text) (node_key system_key admin_key : Option env.PrivKey) where
    pub new_system_lines_parts :
        (o : Options) (now : Time) (lines : List Line)
        → new_system_lines env cid36 node_key system_key admin_key o now ≡ ok lines
        → (sys : env.PrivKey) × (key_bytes : List ℕ) × (pub_bytes : List ℕ) × (admin_bytes : List ℕ)
          × (id : Text) × (valid_to : Time) × (sig : List ℕ) × (admin : env.PrivKey)
          × (env.marshal_public (env.public_of sys) ≡ some pub_bytes)
          × (env.peer_of admin ≡ some id)
          × (parse_time_flexible env o.admin_valid_to ≡ some valid_to)
          × (env.sign sys (proof_payload env o.cluster_id id now valid_to) ≡ some sig)
          × (lines
              ≡ system_lines env cid36 node_key system_key admin_key o
                  (Base64.encode key_bytes)
                  (Base64.encode pub_bytes)
                  (Base64.encode admin_bytes)
                  id
                  now
                  valid_to
                  (Base64.encode sig))
    unfolding new_system_lines marshal_priv_b64 marshal_pub_b64
    new_system_lines_parts o now lines h = elim (Option-cases system_key) [
      | inl e ↦ absurd (cc (rw e at h))
      | inr (sys, e1) ↦ elim (Option-cases (env.marshal_private sys)) [
        | inl e ↦ absurd (cc (rw (e1, e) at h))
        | inr (key_bytes, e2) ↦ elim (Option-cases (env.marshal_public (env.public_of sys))) [
          | inl e ↦ absurd (cc (rw (e1, e2, e) at h))
          | inr (pub_bytes, e3) ↦ elim (Option-cases admin_key) [
            | inl e ↦ absurd (cc (rw (e1, e2, e3, e) at h))
            | inr (admin, e4) ↦ elim (Option-cases (env.marshal_private admin)) [
              | inl e ↦ absurd (cc (rw (e1, e2, e3, e4, e) at h))
              | inr (admin_bytes, e5) ↦ elim (Option-cases (env.peer_of admin)) [
                | inl e ↦ absurd (cc (rw (e1, e2, e3, e4, e5, e) at h))
                | inr (id, e6) ↦ elim (Option-cases (parse_time_flexible env o.admin_valid_to)) [
                  | inl e ↦ absurd (cc (rw (e1, e2, e3, e4, e5, e6, e) at h))
                  | inr (valid_to, e7) ↦
                      elim (Option-cases
                        (env.sign sys (proof_payload env o.cluster_id id now valid_to))) [
                          | inl e ↦ absurd (cc (rw (e1, e2, e3, e4, e5, e6, e7, e) at h))
                          | inr (sig, e8) ↦ (
                            sys,
                            key_bytes,
                            pub_bytes,
                            admin_bytes,
                            id,
                            valid_to,
                            sig,
                            admin,
                            e3,
                            e6,
                            e7,
                            e8,
                            cc (rw (e1, e2, e3, e4, e5, e6, e7, e8) at h),
                          )
                        ]
                ]
              ]
            ]
          ]
        ]
      ]
    ]

    pub run_keygen_parts :
        (o : Options) (now : Time) (lines : List Line)
        → o.new_system ≡ true
        → run_keygen env cid36 node_key system_key admin_key (some o) now ≡ (lines, ok tt)
        → (priv : Text) × (id : Text) × (last : List Line) × (new_system_lines env cid36 node_key
              system_key admin_key o now
            ≡ ok last)
          × (lines ≡ node_lines env cid36 node_key system_key admin_key priv id ++ last)
    unfolding run_keygen
    run_keygen_parts o now lines new h =
        elim (Result-cases (ensure_node_key env node_key o.node_priv)) [
          | inr (e, failed) ↦ absurd (cc (simp (run_keygen, failed) at h))
          | inl ((key, priv, id), made) ↦
              elim (Result-cases (new_system_lines env cid36 node_key system_key admin_key o now)) [
                | inr (e, failed) ↦ absurd (cc (simp (run_keygen, made, new, failed) at h))
                | inl (last, e) ↦ (priv, id, last, e, cc (simp (run_keygen, made, new, e) at h))
              ]
        ]

  -- The lines of a run that makes a new system.
  pub printed-system_lines :
      (cid36 : Text → Text) (node_key system_key admin_key : Option env.PrivKey) (o : Options)
      (priv node_id sys_priv sys_pub admin_priv id sig : Text) (from to : Time)
      → let lines =
          node_lines env cid36 node_key system_key admin_key priv node_id
          ++ system_lines env cid36 node_key system_key admin_key o sys_priv sys_pub admin_priv id
              from to sig in
        (printed (codes "SYSTEM_PUB_B64") lines ≡ sys_pub)
        × (printed (codes "ADMIN_PEER_ID") lines ≡ id)
        × (printed_proof lines ≡ record {
          cluster_id = o.cluster_id;
          peer_id = id;
          role = codes "admin";
          valid_from = env.format_nano from;
          valid_to = env.format_nano to;
          sig = sig;
        })
  unfolding printed printed_proof node_lines system_lines same
  printed-system_lines cid36 node_key system_key admin_key o priv node_id sys_priv sys_pub
        admin_priv id sig from to =
      (refl, refl, refl)
