-- ===== src/Tests/Toy.antt =====
-- A toy world for the witnesses: two keys, one for the peers whose id starts with an a, and one for
-- the others; a signature is the number of the key.
use p2pos.Membership.Applying.{IsConsistent}
use p2pos.Text.Sorted.{set_add, insert_sorted, sort_texts}
use p2pos.Text.Order.{same_refl}
use p2pos.Membership.{no_proof, unique_members, Manager, AdminProof, normalize_members, Snapshot}
use p2pos.Network.Node.{healthy, Node, Peers}
use p2pos.Env.{KeyLaws, Env, SignLaws, NanoLaws}
use p2pos.Time.{zero_time, Time}
use p2pos.Text.{less, is_space, trim_right, trim_left, trim_space, same, has_char, codes, Text}
use p2pos.Common.{
  ◌∙◌, ◌≢◌, [], ◌==◌, ◌-◌, ◌+◌, ◌∷◌, ◌≡◌, Bool, Option, List, ℕ, subst, sym, ap, arith, refl, false,
  true, some, none,
}
use p2pos.Base64
use p2pos.Base64.RoundTrip.{IsBytes}

abbrev bit : Bool → ℕ
bit true = 1
bit false = 0

abbrev starts_with_a : Text → Option Bool
starts_with_a [] = none
starts_with_a (c ∷ rest) = some (c == 97)

abbrev name_of : Bool → Text
name_of true = codes "alice"
name_of false = codes "bob"

abbrev read_bit : Text → Option Bool
read_bit [] = none
read_bit (b ∷ rest) = some (b == 1)

abbrev read_time : Text → Option Time
read_time [] = none
read_time (c ∷ rest) = some (c - 100_000)

abbrev pub toy : Env
toy = record {
  PubKey = Bool;
  PrivKey = Bool;
  PeerKey = Text;
  unmarshal_public = read_bit;
  unmarshal_private = read_bit;
  marshal_private = λ k. some (bit k ∷ []);
  marshal_public = λ k. some (bit k ∷ []);
  peer_of = λ k. some (name_of k);
  public_of = λ k. k;
  sign = λ k m. some (bit k ∷ []);
  verify = λ k m s. some (same s (bit k ∷ []));
  decode_peer = λ t. some t;
  extract_public = starts_with_a;
  format_nano = λ t. (t + 100_000) ∷ [];
  parse_nano = read_time;
  parse_rfc = λ t. none;
}

some-inj : {xs ys : List ℕ} → some xs ≡ some ys → xs ≡ ys
some-inj h = cc

IsBytes-bit : (k : Bool) → IsBytes (bit k ∷ [])
IsBytes-bit true = (omega arith, tt)
IsBytes-bit false = (omega arith, tt)

pub toy_signing : SignLaws toy
toy_signing = record {
  verify-sign = λ k m s h. ap some (subst (λ x. same s x ≡ true) (sym (some-inj h)) (same_refl s));
  sign-IsBytes = λ k m s h. subst IsBytes (some-inj h) (IsBytes-bit k);
  sign-ne-nil = λ k m s h e. absurd (cc);
}

read-write : (t : Time) → read_time ((t + 100_000) ∷ []) ≡ some t
read-write t = ap some (omega arith)

no_bar : (t : Time) → has_char b'|' ((t + 100_000) ∷ []) ≡ false
no_bar t = ground arith

no_space : (t : Time) → trim_space ((t + 100_000) ∷ []) ≡ (t + 100_000) ∷ []
unfolding trim_space trim_left trim_right is_space
no_space t = ground arith

time-inj : {t u : Time} → some t ≡ some u → t ≡ u
time-inj h = cc

pub toy_nano : NanoLaws toy
toy_nano = record {
  parse-format = λ t shown. read-write t;
  format-inj = λ t u e. time-inj (sym (read-write t) ∙ ap read_time e ∙ read-write u);
  format-no_bar = no_bar;
  trim-format = no_space;
  format-ne-nil = λ t e. absurd (cc);
}

read-bit : (k : Bool) → read_bit (bit k ∷ []) ≡ some k
read-bit true = refl
read-bit false = refl

names_filled : (k : Bool) (id : Text) → some (name_of k) ≡ some id → trim_space id ≢ []
unfolding trim_space trim_left trim_right is_space
names_filled true id h e = absurd (cc (rw (← (some-inj h)) at e))
names_filled false id h e = absurd (cc (rw (← (some-inj h)) at e))

pub toy_keys : KeyLaws toy
toy_keys = record {
  unmarshal-marshal = λ k bs h. subst (λ x. read_bit x ≡ some k) (some-inj h) (read-bit k);
  marshal-IsBytes = λ k bs h. subst IsBytes (some-inj h) (IsBytes-bit k);
  marshal-ne-nil = λ k bs h e. absurd (cc);
  unmarshal-marshal_public = λ k bs h. subst (λ x. read_bit x ≡ some k) (some-inj h) (read-bit k);
  marshal_public-IsBytes = λ k bs h. subst IsBytes (some-inj h) (IsBytes-bit k);
  marshal_public-ne-nil = λ k bs h e. absurd (cc);
  peer_of-filled = names_filled;
}

abbrev pub alice : Text
alice = codes "alice"

abbrev pub bob : Text
bob = codes "bob"

abbrev pub now0 : Time
now0 = 31_708_800_000_000_010

abbrev pub proof0 : AdminProof
proof0 = record {
  cluster_id = codes "c";
  peer_id = alice;
  role = codes "admin";
  valid_from = 0;
  valid_to = 31_708_800_000_001_000;
  sig = Base64.encode (1 ∷ []);
}

abbrev pub m0 : Manager toy
m0 = record {
  cluster_id = codes "c";
  local_peer = alice;
  system_pub = some true;
  snapshot = record {
    cluster_id = codes "c";
    issued_at = zero_time;
    issuer_peer_id = [];
    members = alice ∷ bob ∷ [];
    admin_proof = no_proof;
    sig = [];
  };
  member_set = alice ∷ bob ∷ [];
}

-- An unsigned snapshot that alice issues, and the two signed ones that she issues one after the other.
abbrev pub draft0 : Snapshot
draft0 = record {
  cluster_id = codes "c";
  issued_at = now0;
  issuer_peer_id = alice;
  members = bob ∷ alice ∷ [];
  admin_proof = proof0;
  sig = [];
}

abbrev pub s0 : Snapshot
s0 = record draft0 { sig = Base64.encode (1 ∷ []) }

abbrev pub s1 : Snapshot
s1 = record s0 { issued_at = 31_708_800_000_000_020; members = alice ∷ codes "d" ∷ [] }

abbrev pub n0 : Node toy
n0 = record {
  local_id = alice;
  priv_key = some true;
  membership = some m0;
  admin_proof = some proof0;
  state = healthy;
  tracker = [];
  heartbeat_unsupported = [];
  status_unsupported = [];
  has_bus = true;
  has_applied_handler = true;
}

abbrev pub peers0 : Peers
peers0 = (bob, true) ∷ (codes "x", true) ∷ []

pub m0-IsConsistent : IsConsistent toy m0
unfolding normalize_members unique_members sort_texts insert_sorted set_add trim_space trim_left
    trim_right is_space same less
m0-IsConsistent = record { in_normal_form = refl; set_is_members = λ x. refl }
