-- ===== src/Tests/Startup.antt =====
-- Runs of the theorems on the start of a node, the command keygen and the pushes of a cluster.
use p2pos.Network.Push.Relayed.{message_to}
use p2pos.Network.Push.{sync_membership}
use p2pos.Network.Push.Spread.{IsSettled}
use p2pos.App.Keygen.Proof.{run_keygen-validate_admin_proof}
use p2pos.App.Setup.Authority.{setup_membership-IsAdmin}
use p2pos.App.Setup.Restart.{setup_membership-on_applied}
use p2pos.Membership.Authority.{IsAdmin}
use p2pos.App.Keygen.Lines.{printed_proof, printed}
use p2pos.Time.{IsPrintable, Time}
use p2pos.Membership.{
  is_member, Manager, canonical_admin_proof, unique_members, normalize_members, check_admin_proof,
  validate_admin_proof, initial_manager, load_system_key, new_manager,
}
use p2pos.Text.Sorted.{add_all, set_add, insert_sorted, sort_texts}
use p2pos.Text.Order.{same_iff}
use p2pos.Network.Node.{
  runtime_state, evaluate_runtime_state, set_membership_manager, set_membership_applied_handler,
  set_admin_proof, Peers, Node, unconfigured,
}
use p2pos.Text.{
  join, less, is_space, trim_right, contains, trim_left, codes, trim_space, same, Text,
}
use p2pos.Common.{
  ◌++◌, ◌≤◌, ◌+◌, Bool-cases, map, [], ◌∷◌, ◌≡◌, if◌then◌else◌, Result, List, subst, sym, arith,
  keep, err, ok, refl, inr, inl, false, true, some, none,
}
use p2pos.Base64
use mathlib.Core.List.{Memᴰ}
use p2pos.Network.Push.Spread.{pushes_settle, IsSettled}
use p2pos.Network.Push.Pull.Newest.{answer_of, Asked, sync_membership-IsPulled, IsPulled}
use mathlib.Core.List.{Memᴰ}
use p2pos.Network.Push.Spread.{pushes_settle, IsSettled}
use mathlib.Core.List.{Memᴰ}
use p2pos.Base64.{decode_digits, quantum, value, encode, decode, digit}
use p2pos.Membership
use p2pos.Config.{
  parse_time, parse_admin_proof, admin_proof_of, copy_config, Store, default_config, get,
}
use p2pos.Database.{
  insert_peer, delete_others, transaction, insert_members, sync_body, insert_by_id, order_by_id,
  unique_ids, normalize_peer_ids, list_member_ids, sync_members, Faults, Table, Peer,
}
use p2pos.Tests.Toy.{m0, toy, toy_signing, toy_nano, toy_keys, alice, bob, n0, s0, peers0, now0}
use p2pos.App.Setup.{with_proof, checked_proof, setup_membership, SetupError, on_applied}
use p2pos.App.Keygen.{
  parse_time_flexible, marshal_pub_b64, marshal_priv_b64, new_system_lines, ensure_node_key,
  Options, Line, run_keygen,
}
use p2pos.Network.Push.Gossip.{
  handled, deliveries-le-total_cost, total_cost, deliveries, receive_push, AreLinks, Message, Reach,
  Cluster, delivers, here, next,
}

abbrev keygen0 : Options
keygen0 = record {
  new_system = true;
  cluster_id = codes "c";
  admin_valid_to = 31_708_800_000_109_000 ∷ [];
  node_priv = [];
}

abbrev printed0 : List Line
printed0 =
    (run_keygen toy (λ id. id) (some false) (some true) (some true) (some keygen0)
      31_708_800_000_000_020).0

keygen0_runs :
    run_keygen toy
      (λ id. id)
      (some false)
      (some true)
      (some true)
      (some keygen0)
      31_708_800_000_000_020
    ≡ (printed0, ok tt)
unfolding run_keygen ensure_node_key new_system_lines marshal_priv_b64 marshal_pub_b64
    parse_time_flexible
keygen0_runs = refl

keygen0_ends : (t : Time) → parse_time_flexible toy keygen0.admin_valid_to ≡ some t → IsPrintable t
unfolding parse_time_flexible
keygen0_ends t h = (ground arith, ground arith)

trim_c : trim_space (codes "c") ≡ codes "c"
unfolding trim_space trim_left trim_right is_space
trim_c = refl

abbrev store0 : Store toy
store0 = record {
  config = record default_config {
    cluster_id = codes "c";
    system_pub_key = Base64.encode (1 ∷ []);
    admin_proof = record {
      cluster_id = codes "c";
      peer_id = alice;
      role = codes "admin";
      valid_from = 100_005 ∷ [];
      valid_to = 100_500 ∷ [];
      sig = Base64.encode (1 ∷ []);
    };
  };
  node_key = some true;
}

abbrev no_faults : Faults
no_faults n = false

abbrev stored_row : Text → Peer
stored_row id = record {
  peer_id = id;
  last_remote_addr = [];
  last_seen_at = 90;
  last_ping_rtt_us = none;
  last_ping_ok = false;
  last_ping_at = none;
  reachability = codes "offline";
  observed_by = [];
}

abbrev stored0 : Table
stored0 = stored_row bob ∷ stored_row alice ∷ []

abbrev new_node : Node toy
new_node = record n0 { membership = none; admin_proof = none; state = unconfigured }

abbrev node_of : Result SetupError (Node toy) → Node toy
node_of (ok n) = n
node_of (err e) = new_node

abbrev started0 : Node toy
started0 = node_of (setup_membership toy no_faults 50 peers0 store0 stored0 new_node)

setup_runs : Unit {0}
unfolding setup_membership checked_proof with_proof set_admin_proof set_membership_applied_handler
    set_membership_manager evaluate_runtime_state get copy_config list_member_ids normalize_peer_ids
    unique_ids order_by_id insert_by_id sort_texts insert_sorted new_manager load_system_key
    initial_manager admin_proof_of parse_admin_proof parse_time validate_admin_proof
    check_admin_proof normalize_members unique_members set_add add_all trim_space trim_left
    trim_right is_space same less encode digit value quantum decode_digits decode join
    canonical_admin_proof sync_members sync_body insert_members transaction delete_others keep
    insert_peer
setup_runs = tt

setup0 : setup_membership toy no_faults 50 peers0 store0 stored0 new_node ≡ ok started0
unfolding setup_runs
setup0 = refl

written0 : (sync_members no_faults 60 s0.members stored0).1 ≡ ok tt
unfolding setup_runs
written0 = refl

abbrev proof1 : Membership.AdminProof
proof1 = record {
  cluster_id = codes "c";
  peer_id = alice;
  role = codes "admin";
  valid_from = 5;
  valid_to = 500;
  sig = Base64.encode (1 ∷ []);
}

proof_held : started0.admin_proof ≡ some proof1
unfolding setup_runs
proof_held = refl

-- Two nodes that are connected with each other.
abbrev links0 : Text → Peers
links0 id =
    if same id alice then (bob, true) ∷ [] else if same id bob then (alice, true) ∷ [] else []

links0-AreLinks : AreLinks toy links0 1
unfolding same
links0-AreLinks = record { few = λ id. ground arith; outward = λ id. outward_of id }
  where
    outward_of : (id : Text) → contains id (map (λ p. p.0) (links0 id)) ≡ false
    outward_of id = elim (Bool-cases (same id alice)) [
      | inl a ↦
          subst (λ x. contains x (map (λ p. p.0) (links0 x)) ≡ false)
            (sym ((same_iff id alice).0 a)) refl
      | inr a ↦ elim (Bool-cases (same id bob)) [
        | inl b ↦
            subst (λ x. contains x (map (λ p. p.0) (links0 x)) ≡ false)
              (sym ((same_iff id bob).0 b)) refl
        | inr b ↦ rw (a, b) refl
      ]
    ]

abbrev pushed0 : Message
pushed0 = record { source = alice; target = bob; snapshot = s0 }

abbrev cluster0 : Cluster toy links0
cluster0 = record { node = λ id. record n0 { local_id = id }; in_flight = pushed0 ∷ [] }

abbrev run0 : Reach toy links0 cluster0 (receive_push toy links0 now0 [] pushed0 [] cluster0)
run0 = next here (delivers now0 [] pushed0 [] refl refl)

outward0 : same alice bob ≡ false
unfolding same
outward0 = refl

run_keygen-validate_admin_proof_example :
    (m : Manager toy) × (proof : Membership.AdminProof) × (new_manager toy keygen0.cluster_id
        (printed (codes "SYSTEM_PUB_B64") printed0)
        alice
        (bob ∷ [])
      ≡ ok m)
    × (parse_admin_proof toy (printed_proof printed0) keygen0.cluster_id ≡ ok (some proof))
    × (proof.valid_from ≡ 31_708_800_000_000_020)
    × (parse_time_flexible toy keygen0.admin_valid_to ≡ some proof.valid_to)
    × ((at : Time)
        → 31_708_800_000_000_020 ≤ at
        → at ≤ proof.valid_to
        → validate_admin_proof toy m at proof (printed (codes "ADMIN_PEER_ID") printed0) ≡ ok tt)
run_keygen-validate_admin_proof_example =
    run_keygen-validate_admin_proof toy toy_signing toy_nano toy_keys (λ id. id) (some false)
      (some true) (some true) keygen0 31_708_800_000_000_020 printed0 alice (bob ∷ [])
      (omega arith, omega arith) keygen0_ends refl trim_c (λ e. absurd (cc)) keygen0_runs

setup_membership-on_applied_example :
    (restarted : Node toy) × (m : Manager toy) × (setup_membership toy no_faults 50 peers0 store0
        (on_applied no_faults 60 s0 stored0)
        new_node
      ≡ ok restarted)
    × (restarted.membership ≡ some m)
    × (m.snapshot.members ≡ normalize_members s0.members)
    × ((a : Text) → is_member toy m a ≡ contains a (normalize_members s0.members))
setup_membership-on_applied_example =
    setup_membership-on_applied toy no_faults no_faults no_faults 50 60 peers0 store0 stored0
      new_node started0 s0 setup0 written0 refl

setup_membership-IsAdmin_example :
    (m : Manager toy) × (key : toy.PubKey) × (started0.membership ≡ some m)
    × (m.system_pub ≡ some key)
    × (proof1.peer_id ≡ new_node.local_id)
    × (IsAdmin toy key m.cluster_id 50 proof1 new_node.local_id)
    × (started0.state ≡ runtime_state toy new_node.local_id (some m) peers0)
setup_membership-IsAdmin_example =
    setup_membership-IsAdmin toy no_faults 50 peers0 store0 stored0 new_node started0 proof1 refl
      setup0 proof_held

deliveries-le-total_cost_example :
    deliveries toy links0 run0
      + total_cost toy links0 1 (receive_push toy links0 now0 [] pushed0 [] cluster0).in_flight
    ≤ total_cost toy links0 1 cluster0.in_flight
deliveries-le-total_cost_example =
    deliveries-le-total_cost toy links0 1 links0-AreLinks {c = cluster0}
      {d = receive_push toy links0 now0 [] pushed0 [] cluster0} (outward0, tt) run0

pushes_settle_example :
    ((d : Cluster toy links0) × Reach toy links0 cluster0 d × (d.in_flight ≡ []))
    × ((d : Cluster toy links0) (msg : Message)
        → (r : Reach toy links0 cluster0 d) → d.in_flight ≡ []
        → Memᴰ msg cluster0.in_flight
        → IsSettled toy links0 msg r)
    × ((d : Cluster toy links0) (now : Time) (before : List Message) (msg : Message)
          (after : List Message) (pid : Text)
        → d.in_flight ≡ before ++ msg ∷ after
        → (handled toy links0 now msg d).1 ≡ ok tt
        → same msg.source msg.snapshot.issuer_peer_id ≡ true
        → same pid msg.snapshot.issuer_peer_id ≡ false
        → contains pid (map (λ p. p.0) (links0 msg.target)) ≡ true
        → Memᴰ
            (message_to msg.target msg.snapshot pid)
            (receive_push toy links0 now before msg after d).in_flight)
pushes_settle_example = pushes_settle toy links0 1 cluster0 links0-AreLinks (outward0, tt)

abbrev pulled_from : Node toy
pulled_from = record n0 { local_id = bob; membership = some (record m0 { snapshot = s0 }) }

abbrev asked0 : List (Asked toy)
asked0 =
    record { peer = pulled_from; opens = false; decodes = true; at = now0 }
    ∷ record { peer = pulled_from; opens = true; decodes = true; at = now0 + 1 }
    ∷ []

sync_membership-IsPulled_example :
    (last : Manager toy) × ((sync_membership toy peers0
        (map (answer_of toy) asked0)
        n0).0.membership
      ≡ some last)
    × (m0.snapshot.issued_at ≤ last.snapshot.issued_at)
    × ((sync_membership toy peers0 (map (answer_of toy) asked0) n0).0.state
        ≡ runtime_state toy n0.local_id (some last) peers0)
    × ((p : Asked toy) (q : Manager toy)
        → Memᴰ p asked0
        → p.opens ≡ true
        → p.decodes ≡ true
        → p.peer.membership ≡ some q
        → IsPulled toy n0 (map (answer_of toy) asked0) m0 q.snapshot last)
sync_membership-IsPulled_example = sync_membership-IsPulled toy peers0 asked0 n0 m0 refl
