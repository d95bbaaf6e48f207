-- ===== src/Presence.antt =====
-- internal/presence/service.go: the service that writes what the events say of the peers into the
-- table.
pub mod Reachability
pub mod Shown
use p2pos.Events.Payload.{
  shutdown_requested, config_changed, peer_state_observed, peer_heartbeat, peer_disconnected,
  peer_connected, Event,
}
use p2pos.Database.{merge_observed_state, update_reachability, upsert_last_seen, Table, Faults}
use p2pos.Time.{Time}
use p2pos.Text.{codes, Text}
use p2pos.Common.{[], ◌∷◌, Bool, List, false, true}

-- One event as the service takes it from its channel: which statements fail, and the time of the
-- write.
pub record Delivery : Type 0 where
  pub faults : Faults
  pub now : Time
  pub event : Event

-- What the select of the loop finds.
pub data PresenceSignal : Type 0 where
  context_done channel_closed : PresenceSignal
  took : Delivery → PresenceSignal

-- The switch of the loop; `observer` is observerID. An error is only logged.
unfoldable pub handle_event : Text → Faults → Time → Event → Table → Table
handle_event observer faults now (peer_connected id addr) t =
    (upsert_last_seen faults now id addr observer (codes "online") t).0
handle_event observer faults now (peer_disconnected id addr) t =
    (update_reachability faults now id observer (codes "offline") t).0
handle_event observer faults now (peer_heartbeat id addr) t =
    (upsert_last_seen faults now id addr observer (codes "online") t).0
handle_event observer faults now (peer_state_observed state) t =
    (merge_observed_state faults now state t).0
handle_event observer faults now (config_changed c) t = t
handle_event observer faults now (shutdown_requested reason) t = t

-- The loop: the table, and whether the service has returned and cancelled its subscription.
unfoldable pub serve : Text → List PresenceSignal → Table → Table × Bool
serve observer [] t = (t, false)
serve observer (context_done ∷ rest) t = (t, true)
serve observer (channel_closed ∷ rest) t = (t, true)
serve observer (took d ∷ rest) t =
    serve observer rest (handle_event observer d.faults d.now d.event t)
