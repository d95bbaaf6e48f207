-- ===== src/Tests/Nodes.antt =====
-- Runs of the theorems on the nodes and their protocols.
use p2pos.Network.Push.Fanout.{
  IsIssued, on_membership_push_outcomes, all_but, publish_membership_snapshot_outcomes,
  pushed_by_issuer, pushes, to_each,
}
use p2pos.Network.Node.Admission.{MayConnect, MayNotConnect, on_connected_outcomes, tracked}
use p2pos.Network.Node.Quorum.{online_members, healthy_not_both}
use p2pos.Network.Listen.Addresses.{build_listen_multiaddrs-wanted, wanted}
use p2pos.Network.Bootstrap.{resolve}
use p2pos.Network.Bootstrap.Resolved.{contains-resolve, all_addresses, any_named, ids_of}
use p2pos.Network.Status.Newest.{Has, peer_ids}
use p2pos.Tests.Toy.{toy_nano, s0, toy_signing, now0, n0, peers0, m0, bob, alice, toy}
use p2pos.Network.Status.Queries.{
  on_status_request-newest, answers, scope_cluster, on_status_request, answered, Answer,
}
use p2pos.Network.Status.{record_of, Record}
use p2pos.Network.Push.{
  refused, signed_snapshot, on_membership_push, publish_membership_snapshot, PushError,
}
use p2pos.Network.Listen.{
  host_addresses, hosts_of, add_hosts, add_listen, add_listens, build_listen_multiaddrs,
}
use p2pos.Membership.Applying.{IsConsistent}
use p2pos.Config.{default_config, Config}
use p2pos.Network.Node.{
  publish_connected, node_is_member, count_online, close_conn, can_write_admin, on_connected,
  healthy, allow_peer, can_use_business_protocols, AddrInfo, runtime_state,
}
use p2pos.Text.Sorted.{insert_sorted, sort_texts, set_add, add_all, IsSorted, IsDistinct}
use p2pos.Text.{
  join, strip_prefix, has_prefix, contains_text, less, is_space, trim_right, trim_left, trim_space,
  same, is_blank, contains, codes, has_char, Text,
}
use p2pos.Common.{
  ◌&&◌, not, map, [], ◌⊎◌, ◌≤◌, ◌||◌, ◌++◌, ◌∷◌, ◌≢◌, ◌≡◌, if◌then◌else◌, Bool, Option, List, arith,
  All, keep, err, ok, refl, false, true, some,
}
use p2pos.Membership.{
  current_snapshot, sign_snapshot, canonical_admin_proof, canonical_snapshot, unique_members,
  normalize_members, Snapshot, store_newer, verify_snapshot_signature, check_admin_proof, is_member,
  check_authority, validate_snapshot, Manager, apply, Error,
}
use p2pos.Network.Heartbeat.{
  canonical_heartbeat, node_cluster_id, heartbeat_message, validate_heartbeat, HeartbeatMessage,
}
use p2pos.Base64
use p2pos.Base64.{decode, decode_digits, quantum, encode, digit, value}
use p2pos.Network.Heartbeat.Fresh.{
  validate_heartbeat-IsFresh, IsFresh, validate_heartbeat-heartbeat_message,
}

program : Unit {0}
unfolding apply validate_snapshot check_authority check_admin_proof verify_snapshot_signature
    store_newer normalize_members unique_members sort_texts insert_sorted set_add add_all trim_space
    trim_left trim_right is_space same less encode digit value quantum decode_digits decode keep
    join canonical_snapshot canonical_admin_proof sign_snapshot runtime_state current_snapshot
    is_member count_online online_members allow_peer node_is_member validate_heartbeat
    heartbeat_message node_cluster_id canonical_heartbeat record_of
program = tt

on_connected_outcomes_example :
    (MayNotConnect toy n0 bob
      × ((on_connected toy peers0 bob (codes "/ip4/1.2.3.4") n0).1 ≡ close_conn bob ∷ [])
      × ((on_connected toy peers0 bob (codes "/ip4/1.2.3.4") n0).0.tracker ≡ n0.tracker)
      × ((on_connected toy peers0 bob (codes "/ip4/1.2.3.4") n0).0.state ≡ n0.state))
    ⊎ (MayConnect toy n0 bob
        × ((on_connected toy peers0 bob (codes "/ip4/1.2.3.4") n0).1
            ≡ (if n0.has_bus then publish_connected bob (codes "/ip4/1.2.3.4") ∷ [] else []))
        × ((a : Text)
            → contains a (tracked (on_connected toy peers0 bob (codes "/ip4/1.2.3.4") n0).0.tracker)
              ≡ (same a bob || contains a (tracked n0.tracker)))
        × ((on_connected toy peers0 bob (codes "/ip4/1.2.3.4") n0).0.state
            ≡ runtime_state toy n0.local_id n0.membership peers0))
on_connected_outcomes_example = on_connected_outcomes toy peers0 bob (codes "/ip4/1.2.3.4") n0

on_membership_push_outcomes_example :
    (((apply toy m0 now0 s0).1 ≡ ok tt)
      × ((on_membership_push toy peers0 now0 (some alice) (some s0) n0).1 ≡ ok tt)
      × ((on_membership_push toy peers0 now0 (some alice) (some s0) n0).0.0.membership
          ≡ some (apply toy m0 now0 s0).0)
      × (pushes (on_membership_push toy peers0 now0 (some alice) (some s0) n0).0.1 ≡ (
          if pushed_by_issuer toy (some alice) s0
          then to_each s0 (all_but s0.issuer_peer_id peers0)
          else [])))
    ⊎ ((e : Error) × ((apply toy m0 now0 s0).1 ≡ err e)
        × (on_membership_push toy peers0 now0 (some alice) (some s0) n0
            ≡ ((n0, []), err (refused e))))
on_membership_push_outcomes_example =
    on_membership_push_outcomes toy peers0 now0 (some alice) s0 n0 m0 refl

publish_membership_snapshot_outcomes_example :
    ((e : PushError) × (publish_membership_snapshot toy peers0 now0 now0 now0 (alice ∷ []) n0
        ≡ ((n0, []), err e)))
    ⊎ ((can_write_admin toy n0 ≡ true)
        × ((s : Snapshot) × (signed_snapshot toy n0 m0 now0 now0 (alice ∷ []) ≡ ok s)
            × IsIssued toy n0 m0 now0 (alice ∷ []) s
            × ((publish_membership_snapshot toy peers0 now0 now0 now0 (alice ∷ []) n0).1 ≡ ok tt)
            × ((publish_membership_snapshot toy peers0 now0 now0 now0 (alice ∷ []) n0).0.0
                ≡ record n0 { membership = some (apply toy m0 now0 s).0 })
            × (pushes (publish_membership_snapshot toy peers0 now0 now0 now0 (alice ∷ []) n0).0.1
                ≡ to_each s (map (λ p. p.0) peers0))))
publish_membership_snapshot_outcomes_example =
    publish_membership_snapshot_outcomes toy peers0 now0 now0 now0 (alice ∷ []) n0 m0 refl

abbrev beat : HeartbeatMessage
beat = record {
  cluster_id = codes "c";
  peer_id = alice;
  timestamp = 31_708_800_000_100_010 ∷ [];
  sig = Base64.encode (1 ∷ []);
}

validate_heartbeat-IsFresh_example : IsFresh toy n0 now0 beat
unfolding program
validate_heartbeat-IsFresh_example = validate_heartbeat-IsFresh toy n0 now0 beat refl

validate_heartbeat-heartbeat_message_example : validate_heartbeat toy n0 now0 beat ≡ ok tt
unfolding program
validate_heartbeat-heartbeat_message_example =
    validate_heartbeat-heartbeat_message toy toy_signing toy_nano n0 n0 now0 now0 true alice beat
      (omega arith, omega arith) refl refl refl refl (λ e. absurd (cc)) refl refl (omega arith)
      (omega arith)

-- Two nodes of a cluster of three: alice sees bob, and carol sees nobody.
abbrev m3 : Manager toy
m3 = record m0 {
  snapshot = record m0.snapshot { members = alice ∷ bob ∷ codes "carol" ∷ [] };
  member_set = alice ∷ bob ∷ codes "carol" ∷ [];
}

m3-IsConsistent : IsConsistent toy m3
unfolding program
m3-IsConsistent = record { in_normal_form = refl; set_is_members = λ x. refl }

healthy_not_both_example : runtime_state toy (codes "carol") (some m3) [] ≢ healthy
unfolding program
healthy_not_both_example =
    healthy_not_both toy m3 alice (codes "carol") ((bob, true) ∷ []) [] m3-IsConsistent
      (refl, (refl, (refl, tt))) refl

abbrev old_record : Record
old_record = record {
  peer_id = bob;
  last_remote_addr = [];
  last_seen_at = 5;
  reachability = [];
  observed_by = alice;
}

abbrev new_record : Record
new_record = record old_record { last_seen_at = 9 }

abbrev ask : Text → Answer
ask pid = answered (new_record ∷ [])

on_status_request-newest_example :
    (rs : List Record) × ((on_status_request toy scope_cluster
        (some (old_record ∷ []))
        ask
        peers0
        n0).1
      ≡ ok rs)
    × IsSorted (peer_ids rs)
    × ((a : Text)
        → contains a (peer_ids rs) ≡ (
            not (is_blank a)
            && contains a
                (peer_ids ((old_record ∷ []) ++ answers toy ask n0.status_unsupported peers0))))
    × ((a : Text)
        → is_blank a ≡ false
        → contains a (peer_ids ((old_record ∷ []) ++ answers toy ask n0.status_unsupported peers0))
          ≡ true
        → (r : Record) × (record_of a rs ≡ some r)
          × Has r ((old_record ∷ []) ++ answers toy ask n0.status_unsupported peers0)
          × (same a r.peer_id ≡ true)
          × All
              (λ x. same a x.peer_id ≡ true → x.last_seen_at ≤ r.last_seen_at)
              ((old_record ∷ []) ++ answers toy ask n0.status_unsupported peers0))
unfolding program can_use_business_protocols
on_status_request-newest_example = on_status_request-newest toy (old_record ∷ []) ask peers0 n0 refl

abbrev split : Text → Option (Text × Text)
split t = some ([], codes "80")

abbrev parse : Text → Option Bool
parse t = some (has_char b'.' t)

abbrev four : List Text
four =
    codes "/ip4/0.0.0.0/tcp/80"
    ∷ codes "/ip4/0.0.0.0/udp/80/quic-v1"
    ∷ codes "/ip6/::/tcp/80"
    ∷ codes "/ip6/::/udp/80/quic-v1"
    ∷ []

listened : build_listen_multiaddrs split parse (codes ":80" ∷ codes "80" ∷ []) ≡ ok four
unfolding build_listen_multiaddrs add_listens add_listen add_hosts hosts_of host_addresses add_all
    set_add same trim_space trim_left trim_right is_space contains_text has_prefix strip_prefix
listened = refl

build_listen_multiaddrs-wanted_example :
    IsDistinct four
    × (four ≢ [])
    × ((b : Text)
        → contains b four ≡ contains b (wanted split parse (codes ":80" ∷ codes "80" ∷ [])))
build_listen_multiaddrs-wanted_example =
    build_listen_multiaddrs-wanted split parse (codes ":80" ∷ codes "80" ∷ []) four
      (record { any_ip4 = refl; any_ip6 = refl }) listened

abbrev lookup : Text → Option (List Text)
lookup t = some (codes "dnsaddr=bob" ∷ [])

abbrev parse_addr : Text → Option AddrInfo
parse_addr t = some (record { id = t; addrs = t ∷ [] })

abbrev config0 : Config
config0 = record default_config {
  init_connections = record { kind = codes "dns"; address = codes "example.org" } ∷ [];
}

contains-resolve_example :
    IsDistinct (ids_of (resolve lookup parse_addr alice config0).0)
    × ((a : Text)
        → contains a (ids_of (resolve lookup parse_addr alice config0).0)
          ≡ any_named lookup parse_addr alice a
              (all_addresses lookup parse_addr config0.init_connections))
contains-resolve_example = contains-resolve lookup parse_addr alice config0
