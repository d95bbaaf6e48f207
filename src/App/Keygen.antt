-- ===== src/App/Keygen.antt =====
-- internal/app/keygen.go: the command `keygen`. It prints lines `NAME=value`; a line is the pair of
-- its name and its value.
pub mod Lines
pub mod Proof
use p2pos.Common.{
  first, [], ◌>>=◌, ◌>>◌, ◌>>=◌, ◌++◌, ◌∷◌, if◌then◌else◌, Result, Bool, Option, List, not, or_err,
  err, ok, some, none,
}
use p2pos.Env.{Env}
use p2pos.Base64
use p2pos.Time.{Time}
use p2pos.Text.{Text, codes, same, is_blank}

abbrev pub Line : Type 0
Line = Text × Text

-- The flags, as fs.Parse sets them.
pub record Options : Type 0 where
  pub new_system : Bool
  pub cluster_id : Text
  pub admin_valid_to : Text
  pub node_priv : Text

pub data KeygenError : Type 0 where
  flags_invalid node_key_not_base64 node_key_invalid id_failed : KeygenError
  key_not_generated key_not_marshalled admin_valid_to_invalid payload_not_signed : KeygenError

module _ (env : Env) where
  open env use {PrivKey, PubKey, unmarshal_private, marshal_private, marshal_public, peer_of}

  unfoldable pub marshal_priv_b64 : PrivKey → Result KeygenError Text
  marshal_priv_b64 priv = do
    raw ← or_err (marshal_private priv) key_not_marshalled
    ok (Base64.encode raw)

  unfoldable pub marshal_pub_b64 : PubKey → Result KeygenError Text
  marshal_pub_b64 key = do
    raw ← or_err (marshal_public key) key_not_marshalled
    ok (Base64.encode raw)

  unfoldable pub parse_time_flexible : Text → Option Time
  parse_time_flexible raw = first (env.parse_nano raw) (env.parse_rfc raw)

  -- The node's key, its text and its id; `generated` is what crypto.GenerateEd25519Key returns.
  unfoldable pub ensure_node_key :
      Option PrivKey → Text → Result KeygenError (PrivKey × Text × Text)
  ensure_node_key generated node_priv_b64 =
      if not (is_blank node_priv_b64)
      then (do
        raw ← or_err (Base64.decode node_priv_b64) node_key_not_base64
        priv ← or_err (unmarshal_private raw) node_key_invalid
        id ← or_err (peer_of priv) id_failed
        ok (priv, node_priv_b64, id))
      else (do
        priv ← or_err generated key_not_generated
        b64 ← marshal_priv_b64 priv
        id ← or_err (peer_of priv) id_failed
        ok (priv, b64, id))

  -- The text that the system key signs.
  unfoldable pub proof_payload : Text → Text → Time → Time → Text
  proof_payload cluster_id admin_peer_id valid_from valid_to =
      cluster_id
      ++ (codes "|"
          ++ (admin_peer_id
              ++ (codes "|admin|"
                  ++ (env.format_nano valid_from ++ (codes "|" ++ env.format_nano valid_to)))))

  -- The encoding of an id as a CID in base 36, and the keys that the generator returns, for the
  -- node, for the system and for the administrator.
  module _ (cid36 : Text → Text) (node_key system_key admin_key : Option PrivKey) where
    unfoldable pub node_lines : Text → Text → List Line
    node_lines node_priv_b64 node_peer_id =
        (codes "NODE_PRIV_B64", node_priv_b64)
        ∷ (codes "NODE_PEER_ID", node_peer_id)
        ∷ (codes "NODE_PEER_CID36", cid36 node_peer_id)
        ∷ []

    -- What is printed at the end: the keys, and the admin proof.
    unfoldable pub system_lines :
        Options → Text → Text → Text → Text → Time → Time → Text → List Line
    system_lines o sys_priv sys_pub admin_priv admin_peer_id valid_from valid_to sig =
        (codes "SYSTEM_PRIV_B64", sys_priv)
        ∷ (codes "SYSTEM_PUB_B64", sys_pub)
        ∷ (codes "ADMIN_PRIV_B64", admin_priv)
        ∷ (codes "ADMIN_PEER_ID", admin_peer_id)
        ∷ (codes "ADMIN_PEER_CID36", cid36 admin_peer_id)
        ∷ (codes "ADMIN_PROOF_CLUSTER_ID", o.cluster_id)
        ∷ (codes "ADMIN_PROOF_PEER_ID", admin_peer_id)
        ∷ (codes "ADMIN_PROOF_ROLE", codes "admin")
        ∷ (codes "ADMIN_PROOF_VALID_FROM", env.format_nano valid_from)
        ∷ (codes "ADMIN_PROOF_VALID_TO", env.format_nano valid_to)
        ∷ (codes "ADMIN_PROOF_SIG", sig)
        ∷ []

    -- The part of RunKeygen behind the flag new-system, at the time `now`.
    unfoldable pub new_system_lines : Options → Time → Result KeygenError (List Line)
    new_system_lines o now = do
      sys_key ← or_err system_key key_not_generated
      sys_priv ← marshal_priv_b64 sys_key
      sys_pub ← marshal_pub_b64 (env.public_of sys_key)
      admin ← or_err admin_key key_not_generated
      admin_priv ← marshal_priv_b64 admin
      admin_peer_id ← or_err (peer_of admin) id_failed
      valid_to ← or_err (parse_time_flexible o.admin_valid_to) admin_valid_to_invalid
      sig ←
          or_err (env.sign sys_key (proof_payload o.cluster_id admin_peer_id now valid_to))
            payload_not_signed
      ok (system_lines o sys_priv sys_pub admin_priv admin_peer_id now valid_to (Base64.encode sig))

    -- The lines printed, and the error. Without an option the flags do not parse.
    unfoldable pub run_keygen : Option Options → Time → List Line × Result KeygenError (Unit {0})
    run_keygen none now = ([], err flags_invalid)
    run_keygen (some o) now = elim (ensure_node_key node_key o.node_priv) [
      | err e ↦ ([], err e)
      | ok (priv, b64, id) ↦
          if not o.new_system then (node_lines b64 id, ok tt) else elim (new_system_lines o now) [
            | err e ↦ (node_lines b64 id, err e)
            | ok lines ↦ (node_lines b64 id ++ lines, ok tt)
          ]
    ]
