-- ===== src/Presence/Shown.antt =====
-- From a connection to the table: the callbacks of node.go publish on the bus, and the presence service
-- takes what its channel holds.
use p2pos.Text.Order.{same_refl}
use p2pos.Env.{Env}
use p2pos.Events.Channels.{channel_at-publish}
use p2pos.Database.{PeerStateObserved, find_peer, Peer, Table}
use p2pos.Time.{Time}
use p2pos.Text.{codes, Text}
use p2pos.Common.{
  Bool-cases, ◌==◌, inr, inl, first, [], ◌<◌, ◌∙◌, ◌∷◌, ◌≢◌, ◌≡◌, Bool, Option, List, ℕ, ap, arith,
  refl, false, true, some, none,
}
use p2pos.Events.{Bus, Channel, channel_at, publish, offer}
use p2pos.Events.Payload.{
  peer_disconnected, peer_state_observed, peer_connected, peer_heartbeat, Event,
}
use p2pos.Network.Node.{
  node_is_member, forget_protocols, publish_heartbeat, publish_disconnected, push_to,
  publish_connected, close_conn, notify_applied, Node, Effect, Peers, on_connected, on_disconnected,
  allow_peer,
}
use p2pos.Presence.{serve, PresenceSignal, took}
use p2pos.Presence.Reachability.{word, serve-last_said, says, last_said, reads}

-- The event that an effect of a node publishes.
unfoldable pub event_of : Effect → Option Event
event_of (publish_connected id addr) = some (peer_connected id addr)
event_of (publish_disconnected id addr) = some (peer_disconnected id addr)
event_of (publish_heartbeat id addr) = some (peer_heartbeat id addr)
event_of (close_conn id) = none
event_of (notify_applied s) = none
event_of (push_to id s) = none

-- The bus after the effects.
unfoldable pub publish_effects : List Effect → Bus Event → Bus Event
publish_effects [] bus = bus
publish_effects (e ∷ rest) bus =
    publish_effects rest (elim (event_of e) [ none ↦ bus | some evt ↦ publish evt bus ])

-- The events of a buffer, as the service takes them at the time `now`, with statements that work.
unfoldable pub signals_of : Time → List Event → List PresenceSignal
signals_of now [] = []
signals_of now (evt ∷ rest) =
    took (record { faults = λ n. false; now = now; event = evt }) ∷ signals_of now rest

-- The row of the peer `id` reads `word_shown` once the service has taken what the channel i holds.
abbrev pub Shows : Text → Text → Time → ℕ → Text → Bus Event → Table → Type 0
Shows observer id now i word_shown bus t =
    (c : Channel Event) × (q : Peer) × (channel_at bus i ≡ some c)
    × (find_peer id (serve observer (signals_of now c.queue) t).0 ≡ some q)
    × (q.reachability ≡ word_shown)

-- The reader of the channel i waits for events.
pub record IsListening (i : ℕ) (bus : Bus Event) (c : Channel Event) : Type 0 where
  pub found : channel_at bus i ≡ some c
  pub subscribed : c.subscribed ≡ true
  pub waiting : c.queue ≡ []
  pub room : 0 < c.capacity

offer_waiting :
    (evt : Event) (c : Channel Event)
    → c.subscribed ≡ true
    → c.queue ≡ []
    → 0 < c.capacity
    → (offer evt c).queue ≡ evt ∷ []
unfolding offer
offer_waiting evt c s w r = ground arith

-- A published event that says something of a peer is what its row reads.
publish-Shows :
    (observer id : Text) (now : Time) (i : ℕ) (b : Bool) (evt : Event) (bus : Bus Event)
    (c : Channel Event) (t : Table) (p : Peer)
    → IsListening i bus c
    → says id evt ≡ some b
    → ((state : PeerStateObserved) → evt ≢ peer_state_observed state)
    → find_peer id t ≡ some p
    → Shows observer id now i (word b) (publish evt bus) t
unfolding last_said signals_of
publish-Shows observer id now i b evt bus c t p listens said direct row =
    let given = offer evt c in
    let queue : given.queue ≡ evt ∷ [] =
      offer_waiting evt c listens.subscribed listens.waiting listens.room in
    let (_, (q, found, shown)) =
      serve-last_said id observer (signals_of now (evt ∷ [])) t p ((refl, direct), tt) row in
    (
      given,
      q,
      channel_at-publish evt bus i listens.found,
      ap (λ es. find_peer id (serve observer (signals_of now es) t).0) queue ∙ found,
      shown ∙ ap (λ o. reads (first o none) p.reachability) said,
    )

module _ (env : Env) where
  on_connected-effects :
      (peers : Peers) (remote addr : Text) (n : Node env)
      → allow_peer env n remote ≡ true
      → n.has_bus ≡ true
      → (on_connected env peers remote addr n).1 ≡ publish_connected remote addr ∷ []
  unfolding on_connected allow_peer forget_protocols node_is_member
  on_connected-effects peers remote addr n allowed bus = simp (on_connected, allowed, bus)

  on_disconnected-effects :
      (peers : Peers) (conns : ℕ) (remote addr : Text) (n : Node env)
      → allow_peer env n remote ≡ true
      → n.has_bus ≡ true
      → (on_disconnected env peers conns remote addr n).1 ≡ publish_disconnected remote addr ∷ []
  unfolding on_disconnected allow_peer node_is_member
  on_disconnected-effects peers conns remote addr n allowed bus = elim (Bool-cases (conns == 0)) [
    | inl last_one ↦ simp (on_disconnected, last_one, allowed, bus)
    | inr others_left ↦ simp (on_disconnected, others_left, allowed, bus)
  ]

  -- What the table says of a peer follows the last callback: if the presence service listens and its
  -- statements work, a peer that may be connected reads "online" after a connection and "offline"
  -- after a disconnection, also when other connections to it are left.
  pub connections_show :
      (peers : Peers) (conns : ℕ) (remote addr observer : Text) (now : Time) (i : ℕ) (n : Node env)
      (bus : Bus Event) (c : Channel Event) (t : Table) (p : Peer)
      → allow_peer env n remote ≡ true
      → n.has_bus ≡ true
      → IsListening i bus c
      → find_peer remote t ≡ some p
      → Shows observer remote now i
          (codes "online")
          (publish_effects (on_connected env peers remote addr n).1 bus)
          t
        × Shows observer remote now i
            (codes "offline")
            (publish_effects (on_disconnected env peers conns remote addr n).1 bus)
            t
  unfolding publish_effects event_of says
  connections_show peers conns remote addr observer now i n bus c t p allowed has_bus listens row =
      (
        rw (on_connected-effects peers remote addr n allowed has_bus) (
            publish-Shows observer remote now i true (peer_connected remote addr) bus c t p listens
              (rw (same_refl remote) refl) (λ state e. absurd (cc)) row),
        rw (on_disconnected-effects peers conns remote addr n allowed has_bus) (
            publish-Shows observer remote now i false (peer_disconnected remote addr) bus c t p
              listens (rw (same_refl remote) refl) (λ state e. absurd (cc)) row),
      )
