-- ===== src/Tests/Services.antt =====
-- Runs of the theorems on the services of a node: the bridge to its end, downloads, the migration,
-- the presence service and the search for a peer.
use p2pos.Membership.{is_member}
use p2pos.Network.Node.{on_disconnected, on_connected, node_is_member, allow_peer}
use p2pos.Presence.Shown.{connections_show, publish_effects, Shows}
use p2pos.Update.Download.Bounds.{download_binary-logs}
use p2pos.Database.Migration.Outcomes.{is_old, IsMoved, HasBoth, migrate_peer_schema_outcomes}
use p2pos.Database.Migration.Rebuilt.{IsRebuilt}
use p2pos.Presence.Reachability.{serve-last_said, last_said, reads}
use p2pos.Update.Download.Logging.{percents_from}
use p2pos.Update.Download.Replacing.{download_binary_outcomes, flatten, IsReplaced, IsUntouched}
use p2pos.App.Shutdown.Ending.{run_bridge-sees_signal}
use p2pos.App.Shutdown.Pending.{count_takes}
use p2pos.Events.Payload.{Event, peer_connected, peer_disconnected}
use p2pos.Events.Channels.{publishing}
use p2pos.Text.{same, codes, Text}
use p2pos.Common.{
  map, ◌⊎◌, ◌≤◌, ◌*◌, ℕ, length, err, ok, [], ◌<◌, ◌∷◌, ◌≡◌, Option, List, arith, refl, false, true,
  some, none,
}
use p2pos.Events.{channel_at, Channel}
use p2pos.App.Shutdown.{run_bridge, takes_event, sees_signal, Bridge, Turn, others}
use p2pos.Update.Download.{unknown_step, download_binary, DownloadError, Os, Response, Disk}
use p2pos.Database.Migration.{
  fill_addr, migrate_peer_schema, no_flags, note_column, read_columns, needs_rebuild, Schema, Row,
}
use p2pos.Tests.Toy.{peers0, n0, toy, alice, bob}
use p2pos.Presence.{serve, PresenceSignal, took}
use p2pos.Database.{DbError, ids, find_peer, Faults, Peer}

abbrev channel1 : Channel Event
channel1 = record {
  capacity = 64;
  queue = peer_connected alice (codes "addr") ∷ [];
  subscribed = true;
  closed = false;
}

abbrev bridge0 : Bridge
bridge0 = record { bus = channel1 ∷ []; ctx_done = false; returned = false }

abbrev turns0 : List Turn
turns0 = takes_event ∷ others (publishing (peer_connected bob (codes "addr"))) ∷ takes_event ∷ []

takes0 : 1 < count_takes turns0
unfolding count_takes
takes0 = omega arith

channel_found : channel_at bridge0.bus 0 ≡ some channel1
unfolding channel_at
channel_found = refl

run_bridge-sees_signal_example :
    (run_bridge true 0 (sees_signal (codes "interrupt") ∷ turns0) bridge0).ctx_done ≡ true
run_bridge-sees_signal_example =
    run_bridge-sees_signal true 0 turns0 (codes "interrupt") bridge0 channel1 refl refl
      channel_found refl (omega arith) tt takes0

abbrev linux : Os
linux = record {
  windows = false;
  creates = true;
  short_write = λ n. none;
  chmods = true;
  renames = true;
  removes = true;
}

abbrev answer0 : Response
answer0 = record {
  status = 200;
  content_length = 4;
  chunks = (1 ∷ 2 ∷ []) ∷ (3 ∷ 4 ∷ []) ∷ [];
  ends_well = true;
}

abbrev disk0 : Disk
disk0 = record { target = some (record { content = 9 ∷ []; executable = true }); tmp = none }

abbrev old_schema : Schema
old_schema = record {
  columns = record { name = codes "id"; pk = 1 } ∷ record { name = codes "peer_id"; pk = 0 } ∷ [];
  rows = old_row (some alice) ∷ old_row none ∷ old_row (some alice) ∷ [];
}
  where
    old_row : Option Text → Row
    old_row id = record {
      peer_id = id;
      last_remote_addr = none;
      addrs = none;
      last_seen_at = none;
      last_ping_rtt_us = none;
      last_ping_ok = none;
      last_ping_at = none;
      reachability = none;
      observed_by = none;
    }

old_schema_old : needs_rebuild (read_columns no_flags old_schema.columns) ≡ true
unfolding needs_rebuild read_columns note_column same
old_schema_old = refl

abbrev no_faults : Faults
no_faults n = false

abbrev row0 : Peer
row0 = record {
  peer_id = alice;
  last_remote_addr = [];
  last_seen_at = 90;
  last_ping_rtt_us = none;
  last_ping_ok = false;
  last_ping_at = none;
  reachability = codes "offline";
  observed_by = [];
}

abbrev signals0 : List PresenceSignal
signals0 =
    took (record { faults = no_faults; now = 100; event = peer_connected alice (codes "addr") })
    ∷ took
        (record { faults = no_faults; now = 110; event = peer_disconnected alice (codes "addr") })
    ∷ []

found0 : find_peer alice (row0 ∷ []) ≡ some row0
unfolding find_peer same
found0 = refl

download_binary_outcomes_example :
    ((e : DownloadError) × ((download_binary linux (some answer0) disk0).1 ≡ err e)
      × IsUntouched linux disk0 (download_binary linux (some answer0) disk0).0.0)
    ⊎ ((r : Response) × ((some answer0) ≡ some r)
        × ((download_binary linux (some answer0) disk0).1 ≡ ok tt)
        × IsReplaced linux r (download_binary linux (some answer0) disk0).0.0)
download_binary_outcomes_example = download_binary_outcomes linux (some answer0) disk0

download_binary-logs_example :
    ((0 < answer0.content_length)
      → (k : ℕ) × (k ≤ 20)
        × ((download_binary linux (some answer0) disk0).0.1 ≡ percents_from 5 k)
        × ((download_binary linux (some answer0) disk0).1 ≡ ok tt
            → answer0.content_length ≤ length (flatten answer0.chunks)
            → k ≡ 20))
    × ((answer0.content_length ≡ 0)
        → length (download_binary linux (some answer0) disk0).0.1 * unknown_step
          ≤ length (flatten answer0.chunks))
download_binary-logs_example = download_binary-logs linux answer0 disk0

migrate_peer_schema_outcomes_example :
    (is_old old_schema ≡ true
      → ((e : DbError) × (migrate_peer_schema no_faults 100 old_schema ≡ (old_schema, err e)))
        ⊎ (((migrate_peer_schema no_faults 100 old_schema).1 ≡ ok tt)
            × IsRebuilt old_schema (migrate_peer_schema no_faults 100 old_schema).0))
    × (is_old old_schema ≡ false
        → ((e : DbError) × (migrate_peer_schema no_faults 100 old_schema ≡ (old_schema, err e)))
          ⊎ ((HasBoth old_schema
                × ((e : DbError) × (migrate_peer_schema no_faults 100 old_schema
                      ≡ (record old_schema { rows = map fill_addr old_schema.rows }, err e))))
              ⊎ ((HasBoth old_schema
                    × ((migrate_peer_schema no_faults 100 old_schema).1 ≡ ok tt)
                    × IsMoved old_schema (migrate_peer_schema no_faults 100 old_schema).0)
                  ⊎ ((HasBoth old_schema → ⊥)
                      × (migrate_peer_schema no_faults 100 old_schema ≡ (old_schema, ok tt))))))
migrate_peer_schema_outcomes_example = migrate_peer_schema_outcomes no_faults 100 old_schema refl

serve-last_said_example :
    (ids (serve bob signals0 (row0 ∷ [])).0 ≡ ids (row0 ∷ []))
    × ((q : Peer) × (find_peer alice (serve bob signals0 (row0 ∷ [])).0 ≡ some q)
        × (q.reachability ≡ reads (last_said alice none signals0) row0.reachability))
serve-last_said_example =
    serve-last_said alice bob signals0 (row0 ∷ []) row0
      ((refl, λ state e. absurd (cc)), ((refl, λ state e. absurd (cc)), tt)) found0

abbrev listening0 : Channel Event
listening0 = record { capacity = 64; queue = []; subscribed = true; closed = false }

listening_found : channel_at (listening0 ∷ []) 0 ≡ some listening0
unfolding channel_at
listening_found = refl

abbrev bob_row : Peer
bob_row = record row0 { peer_id = bob }

bob_found : find_peer bob (bob_row ∷ []) ≡ some bob_row
unfolding find_peer same
bob_found = refl

bob_allowed : allow_peer toy n0 bob ≡ true
unfolding allow_peer node_is_member is_member same
bob_allowed = refl

connections_show_example :
    Shows alice bob 100 0
      (codes "online")
      (publish_effects (on_connected toy peers0 bob (codes "addr") n0).1 (listening0 ∷ []))
      (bob_row ∷ [])
    × Shows alice bob 100 0
        (codes "offline")
        (publish_effects (on_disconnected toy peers0 1 bob (codes "addr") n0).1 (listening0 ∷ []))
        (bob_row ∷ [])
connections_show_example =
    connections_show toy peers0 1 bob (codes "addr") alice 100 0 n0 (listening0 ∷ []) listening0
      (bob_row ∷ []) bob_row bob_allowed refl
      (record { found = listening_found; subscribed = refl; waiting = refl; room = omega arith })
      bob_found
