-- ===== src/Tests/Storage.antt =====
-- Runs of the theorems on the database and the configuration.
use p2pos.Database.Syncing.{find_peer-sync_members}
use p2pos.Membership.{normalize_members}
use p2pos.Config.Keys.{load_or_create_private_key-stored_key, normalize-copy_config}
use p2pos.Tests.Toy.{toy_keys, now0, toy, bob, alice}
use p2pos.Database.Merging.{find_peer-merge_observed_state, merge_peer_clock_falls, merged_row}
use p2pos.Database.{
  transaction, merge_body, merge_found, update_where, merge_peer, is_newer, normalize_reachability,
  merge_observed_state, sync_members, incoming_peer, DbError, Table, Peer, peer_updated_at,
  find_peer, Faults, PeerStateObserved,
}
use p2pos.Config.{
  Saving, unreadable, stored, missing, default_config, copy_config, generate_and_persist, Config,
  normalize, load_or_create_private_key, stored_key,
}
use p2pos.Text.{less, same, is_space, contains, trim_right, codes, trim_left, trim_space, Text}
use p2pos.Common.{
  first, [], ◌⊎◌, ◌<◌, ◌∷◌, ◌≡◌, if◌then◌else◌, arith, err, ok, refl, false, true, some, none,
}
use mathlib.Core.Option
use p2pos.Base64
use p2pos.Base64.{digit, value}

abbrev fine : Faults
fine n = false

abbrev row : Text → Peer
row id = record {
  peer_id = id;
  last_remote_addr = [];
  last_seen_at = 90;
  last_ping_rtt_us = none;
  last_ping_ok = false;
  last_ping_at = none;
  reachability = codes "offline";
  observed_by = [];
}

abbrev table0 : Table
table0 = row alice ∷ row bob ∷ []

abbrev state0 : PeerStateObserved
state0 = record {
  peer_id = bob;
  remote_addr = codes "x";
  last_seen_at = 50;
  reachability = codes "online";
  observed_by = alice;
  observed_at = 100;
}

program : Unit {0}
unfolding trim_space trim_left trim_right is_space same less normalize_reachability peer_updated_at
    incoming_peer is_newer merge_peer merged_row find_peer update_where merge_found merge_body
    merge_observed_state transaction
program = tt

find_peer-sync_members_example :
    ((e : DbError) × (sync_members fine now0 (bob ∷ codes "carol" ∷ []) table0 ≡ (table0, err e)))
    ⊎ (((sync_members fine now0 (bob ∷ codes "carol" ∷ []) table0).1 ≡ ok tt)
        × ((a : Text)
            → find_peer a (sync_members fine now0 (bob ∷ codes "carol" ∷ []) table0).0 ≡ (
                if contains a (normalize_members (bob ∷ codes "carol" ∷ []))
                then first (find_peer a table0) (
                    some (record {
                      peer_id = a;
                      last_remote_addr = [];
                      last_seen_at = now0;
                      last_ping_rtt_us = none;
                      last_ping_ok = false;
                      last_ping_at = none;
                      reachability = codes "offline";
                      observed_by = [];
                    }))
                else none)))
find_peer-sync_members_example = find_peer-sync_members fine now0 (bob ∷ codes "carol" ∷ []) table0

find_peer-merge_observed_state_example :
    find_peer bob (merge_observed_state fine now0 state0 table0).0 ≡ (
      if same state0.peer_id bob
      then Option.map (merged_row state0 (incoming_peer now0 state0)) (find_peer bob table0)
      else find_peer bob table0)
unfolding program
find_peer-merge_observed_state_example =
    find_peer-merge_observed_state fine now0 state0 table0 refl refl bob

merge_peer_clock_falls_example :
    peer_updated_at (merged_row state0 (incoming_peer now0 state0) (row bob))
    < peer_updated_at (row bob)
unfolding program
merge_peer_clock_falls_example =
    merge_peer_clock_falls state0 now0 (row bob) refl refl refl (omega arith) (omega arith)

abbrev disk0 : Saving
disk0 = record { saves = λ c. true; left = λ c f. unreadable }

-- The configuration with a key, which Init makes of the default one.
abbrev with_key : Config
with_key = record default_config { node_private_key = Base64.encode (1 ∷ []) }

created :
    (load_or_create_private_key toy disk0 (some true) default_config missing).1
    ≡ ok (true, with_key)
unfolding load_or_create_private_key stored_key generate_and_persist
created = refl

load_or_create_private_key-stored_key_example :
    (stored_key toy disk0 (some true) with_key ≡ some true)
    × (((with_key ≡ default_config)
          × ((load_or_create_private_key toy disk0 (some true) default_config missing).0 ≡ missing))
        ⊎ ((stored_key toy disk0 (some true) default_config ≡ none)
            × ((load_or_create_private_key toy disk0 (some true) default_config missing).0
                ≡ stored with_key)))
load_or_create_private_key-stored_key_example =
    load_or_create_private_key-stored_key toy disk0 (some true) toy_keys default_config with_key
      missing true created

normalize-copy_config_example :
    normalize (copy_config (record default_config { update_channel = codes "develop" }))
    ≡ record (normalize (record default_config { update_channel = codes "develop" })) {
      update_channel = codes "stable";
    }
normalize-copy_config_example =
    normalize-copy_config (record default_config { update_channel = codes "develop" })
