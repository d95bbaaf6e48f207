-- ===== src/Config/Changes.antt =====
-- What a configuration is read from and what it tells the others: the form of `listen`, the feed,
-- and the event of Update.
use p2pos.Env.{Env}
use p2pos.Text.{is_blank, trim_space, Text}
use p2pos.Common.{[], ◌||◌, ◌∷◌, if◌then◌else◌, Result, Option, List, err, ok, some, none}
use p2pos.Config.{
  Saving, normalize, update, ConfigError, listen_values, Config, Connection, Store, File,
}
use p2pos.Events.{publish, Bus}
use p2pos.Events.Payload.{config_changed, ConfigChanged, Event}

-- ListenConfig.UnmarshalJSON: what json.Unmarshal makes of the data as a string and as an array.
unfoldable pub unmarshal_listen : Option Text → Option (List Text) → Option (List Text)
unmarshal_listen (some one) many = some (one ∷ [])
unmarshal_listen none many = many

-- validateFeedURL; `parse_url` gives the scheme and the host.
unfoldable pub validate_feed_url : (Text → Option (Text × Text)) → Text → Option Text
validate_feed_url parse_url raw =
    let value = trim_space raw in
    elim (parse_url value) [
      | none ↦ none
      | some (scheme, host) ↦ if is_blank scheme || is_blank host then none else some value
    ]

-- toEventConnections
unfoldable pub to_event_connections : List Connection → List (Text × Text)
to_event_connections [] = []
to_event_connections (c ∷ rest) = (c.kind, c.address) ∷ to_event_connections rest

-- The event of Update for the configuration that it has stored.
unfoldable pub changed_event : Config → ConfigChanged
changed_event c = record {
  listen = listen_values c.listen;
  init_connections = to_event_connections c.init_connections;
  network_mode = c.network_mode;
  update_feed_url = c.update_feed_url;
}

module _ (env : Env) (disk : Saving) (generated : Option env.PrivKey) where
  -- Update, with the bus of the store, if it has one.
  unfoldable pub update_and_publish :
      Config
      → File
      → Store env
      → Option (Bus Event)
      → ((File × Store env) × Option (Bus Event)) × Result ConfigError (Unit {0})
  update_and_publish next f s bus =
      let (changed, result) = update env disk generated next f s in
      elim result [
        | err e ↦ ((changed, bus), err e)
        | ok _ ↦ (
          (
            changed,
            elim bus [
              | none ↦ none
              | some b ↦ some (publish (config_changed (changed_event (normalize next))) b)
            ],
          ),
          ok tt,
        )
      ]
