-- ===== src/Membership.antt =====
-- internal/membership/manager.go: snapshots of the cluster's member list, their signatures, and
-- the manager that holds the newest one.
pub mod Members
pub mod Applying
pub mod Authority
pub mod Complete
pub mod Convergence
pub mod Signing
pub mod Canonical
use p2pos.Common.{
  ◌≡◌, Bool, true, false, not, ◌&&◌, ◌||◌, List, [], ◌∷◌, Option, none, some, if◌then◌else◌,
  is_empty, Result, ok, err, ◌>>=◌, ◌>>◌, require, or_err,
}
use p2pos.Text.{Text, codes, same, is_blank, trim_space, join, contains}
use p2pos.Text.Sorted.{set_add, add_all, sort_texts}
use p2pos.Time.{Time, zero_time, is_zero, after, before}
use p2pos.Base64.{Bytes}
use p2pos.Base64
use p2pos.Env.{Env}

pub record AdminProof : Type 0 where
  pub cluster_id : Text
  pub peer_id : Text
  pub role : Text
  pub valid_from : Time
  pub valid_to : Time
  pub sig : Text

pub record Snapshot : Type 0 where
  pub cluster_id : Text
  pub issued_at : Time
  pub issuer_peer_id : Text
  pub members : List Text
  pub admin_proof : AdminProof
  pub sig : Text

abbrev pub no_proof : AdminProof
no_proof = record {
  cluster_id = [];
  peer_id = [];
  role = [];
  valid_from = zero_time;
  valid_to = zero_time;
  sig = [];
}

-- The errors, by their messages.
pub data Error : Type 0 where
  decode_system_pubkey unmarshal_system_pubkey : Error
  cluster_mismatch issued_at_required members_empty issuer_required signature_required : Error
  pubkey_required role_invalid proof_cluster_mismatch proof_peer_mismatch proof_expired : Error
  decode_proof_sig verify_proof_failed proof_signature_invalid : Error
  key_nil cluster_required sign_failed : Error
  decode_issuer extract_issuer_key decode_snapshot_sig verify_snapshot_failed : Error
  snapshot_signature_invalid : Error

-- The keys of `uniq` after the loop of normalizeMembers over the names.
unfoldable pub unique_members : List Text → List Text → List Text
unique_members uniq [] = uniq
unique_members uniq (raw ∷ rest) =
    let id = trim_space raw in unique_members (if is_blank id then uniq else set_add id uniq) rest

unfoldable pub normalize_members : List Text → List Text
normalize_members names = sort_texts (unique_members [] names)

-- A list is a value here, so a copy of one is the list itself.
abbrev pub clone_snapshot : Snapshot → Snapshot
clone_snapshot s = record s { members = s.members }

module _ (env : Env) where
  open env use {
    PubKey, PrivKey, unmarshal_public, sign, verify, decode_peer, extract_public, format_nano,
  }

  -- The mutex is left out, since a method is one step here; `hasPubKey` says that `system_pub`
  -- holds a key.
  pub record Manager : Type 0 where
    pub cluster_id : Text
    pub local_peer : Text
    pub system_pub : Option PubKey
    pub snapshot : Snapshot
    pub member_set : List Text

  unfoldable pub canonical_admin_proof : AdminProof → Text
  canonical_admin_proof p =
      join (codes "|")
        (p.cluster_id ∷ p.peer_id ∷ p.role ∷ format_nano p.valid_from ∷ format_nano p.valid_to ∷ [])

  unfoldable pub canonical_snapshot : Snapshot → Text
  canonical_snapshot s = join (codes "|") (
      s.cluster_id
      ∷ format_nano s.issued_at
      ∷ s.issuer_peer_id
      ∷ join (codes ",") (normalize_members s.members)
      ∷ [])

  unfoldable pub load_system_key : Text → Result Error (Option PubKey)
  load_system_key system_pub_key =
      let key = trim_space system_pub_key in
      if is_blank key then ok none else do
        raw ← or_err (Base64.decode key) decode_system_pubkey
        pub_key ← or_err (unmarshal_public raw) unmarshal_system_pubkey
        ok (some pub_key)

  -- The manager that NewManager returns.
  unfoldable pub initial_manager : Text → Text → Option PubKey → List Text → Manager
  initial_manager cluster_id local_peer key normalized = record {
    cluster_id = cluster_id;
    local_peer = local_peer;
    system_pub = key;
    snapshot = record {
      cluster_id = cluster_id;
      issued_at = zero_time;
      issuer_peer_id = [];
      members = normalized;
      admin_proof = no_proof;
      sig = [];
    };
    member_set = add_all [] normalized;
  }

  unfoldable pub new_manager : Text → Text → Text → List Text → Result Error Manager
  new_manager cluster system_pub_key local_peer initial_members = do
    let trimmed = trim_space cluster
    let cluster_id = if is_blank trimmed then codes "default" else trimmed
    key ← load_system_key system_pub_key
    ok (initial_manager cluster_id local_peer key (normalize_members initial_members))

  unfoldable pub has_members : Manager → Bool
  has_members m = not (is_empty m.member_set)

  unfoldable pub is_member : Manager → Text → Bool
  is_member m peer_id = contains peer_id m.member_set

  unfoldable pub current_snapshot : Manager → Snapshot
  current_snapshot m = clone_snapshot m.snapshot

  -- validateAdminProof under the system key, at the time `now`
  unfoldable pub check_admin_proof :
      PubKey → Text → Time → AdminProof → Text → Result Error (Unit {0})
  check_admin_proof system_pub cluster now proof issuer = do
    require (same proof.role (codes "admin")) role_invalid
    require (same proof.cluster_id cluster) proof_cluster_mismatch
    require (same proof.peer_id issuer) proof_peer_mismatch
    require (not (before now proof.valid_from || after now proof.valid_to)) proof_expired
    sig_bytes ← or_err (Base64.decode proof.sig) decode_proof_sig
    valid ← or_err (verify system_pub (canonical_admin_proof proof) sig_bytes) verify_proof_failed
    require valid proof_signature_invalid

  unfoldable pub validate_admin_proof : Manager → Time → AdminProof → Text → Result Error (Unit {0})
  validate_admin_proof m now proof issuer = elim m.system_pub [
    | none ↦ err pubkey_required
    | some key ↦ check_admin_proof key m.cluster_id now proof issuer
  ]

  unfoldable pub verify_snapshot_signature : Snapshot → Result Error (Unit {0})
  verify_snapshot_signature s = do
    id ← or_err (decode_peer s.issuer_peer_id) decode_issuer
    pub_key ← or_err (extract_public id) extract_issuer_key
    sig_bytes ← or_err (Base64.decode s.sig) decode_snapshot_sig
    valid ← or_err (verify pub_key (canonical_snapshot s) sig_bytes) verify_snapshot_failed
    require valid snapshot_signature_invalid

  -- the branch of validateSnapshot on `m.hasPubKey`
  unfoldable pub check_authority : Manager → Time → Snapshot → Result Error (Unit {0})
  check_authority m now s = elim m.system_pub [
    | none ↦ ok tt
    | some key ↦ check_admin_proof key m.cluster_id now s.admin_proof s.issuer_peer_id
  ]

  unfoldable pub validate_snapshot : Manager → Time → Snapshot → Result Error (Unit {0})
  validate_snapshot m now s = do
    require (same (trim_space s.cluster_id) m.cluster_id) cluster_mismatch
    require (not (is_zero s.issued_at)) issued_at_required
    require (not (is_empty s.members)) members_empty
    require (not (is_blank (trim_space s.issuer_peer_id))) issuer_required
    require (not (is_blank (trim_space s.sig))) signature_required
    check_authority m now s
    verify_snapshot_signature s

  -- The locked part of Apply, on a snapshot that is normalized and valid.
  unfoldable pub store_newer : Manager → Snapshot → Manager
  store_newer m s =
      if not (after s.issued_at m.snapshot.issued_at)
      then m
      else record m { snapshot = clone_snapshot s; member_set = add_all [] s.members }

  unfoldable pub apply : Manager → Time → Snapshot → Manager × Result Error (Unit {0})
  apply m now given =
      let s = record given { members = normalize_members given.members } in
      elim (validate_snapshot m now s) [ err e ↦ (m, err e) | ok _ ↦ (store_newer m s, ok tt) ]

  -- A signer is missing where the source has a nil key.
  unfoldable pub sign_snapshot : Option PrivKey → Snapshot → Result Error Snapshot
  sign_snapshot signer given = do
    key ← or_err signer key_nil
    require (not (is_blank (trim_space given.cluster_id))) cluster_required
    require (not (is_blank (trim_space given.issuer_peer_id))) issuer_required
    require (not (is_zero given.issued_at)) issued_at_required
    let s = record given { members = normalize_members given.members }
    require (not (is_empty s.members)) members_empty
    sig ← or_err (sign key (canonical_snapshot s)) sign_failed
    ok (record s { sig = Base64.encode sig })
