-- ===== src/Events/Payload.antt =====
-- internal/events/types.go: the events of the program, each with what its readers read. The time
-- field `At` of an event is read by nobody.
use p2pos.Database.{PeerStateObserved}
use p2pos.Text.{Text}
use p2pos.Common.{List}

-- ConfigChanged
pub record ConfigChanged : Type 0 where
  pub listen : List Text
  pub init_connections : List (Text × Text)
  pub network_mode : Text
  pub update_feed_url : Text

pub data Event : Type 0 where
  -- the peer and its address
  peer_connected : Text → Text → Event
  peer_disconnected : Text → Text → Event
  peer_heartbeat : Text → Text → Event
  peer_state_observed : PeerStateObserved → Event
  config_changed : ConfigChanged → Event
  -- the reason
  shutdown_requested : Text → Event
