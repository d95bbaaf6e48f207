-- ===== src/Presence/Reachability.antt =====
-- What the table says of a peer after a run of the presence service.
use p2pos.Database.Updates.{find_peer-update_where, write, merged, reached, seen, ids-write}
use p2pos.Events.Payload.{
  shutdown_requested, config_changed, peer_state_observed, peer_heartbeat, peer_disconnected,
  peer_connected, Event,
}
use p2pos.Database.{
  update_where, execute, PeerStateObserved, find_peer, update_reachability, Peer, transaction,
  upsert_last_seen, ids, Table, Faults,
}
use p2pos.Presence.{channel_closed, context_done, took, serve, PresenceSignal, handle_event}
use p2pos.Time.{Time}
use p2pos.Text.{same, codes, Text}
use p2pos.Common.{
  first, [], ◌∙◌, ◌∷◌, ◌≢◌, if◌then◌else◌, Bool, Option, List, arith, All, false, true, some, none,
  ◌≡◌, refl,
}

-- The service adds and removes no row, whatever happens and whatever fails: an event makes nobody a
-- member.
ids-handle_event :
    (observer : Text) (faults : Faults) (now : Time) (event : Event) (t : Table)
    → ids (handle_event observer faults now event t) ≡ ids t
unfolding handle_event upsert_last_seen update_reachability write
ids-handle_event observer faults now (peer_connected id addr) t =
    ids-write (seen id addr observer (codes "online")) faults now t
ids-handle_event observer faults now (peer_disconnected id addr) t =
    ids-write (reached id observer (codes "offline")) faults now t
ids-handle_event observer faults now (peer_heartbeat id addr) t =
    ids-write (seen id addr observer (codes "online")) faults now t
ids-handle_event observer faults now (peer_state_observed state) t =
    ids-write (merged state) faults now t
ids-handle_event observer faults now (config_changed c) t = refl
ids-handle_event observer faults now (shutdown_requested reason) t = refl

ids-serve :
    (observer : Text) (signals : List PresenceSignal) (t : Table)
    → ids (serve observer signals t).0 ≡ ids t
unfolding serve
ids-serve observer [] t = refl
ids-serve observer (context_done ∷ rest) t = refl
ids-serve observer (channel_closed ∷ rest) t = refl
ids-serve observer (took d ∷ rest) t =
    ids-serve observer rest (handle_event observer d.faults d.now d.event t)
    ∙ ids-handle_event observer d.faults d.now d.event t

-- What an event says of a peer: that it is there, that it has gone, or nothing.
unfoldable pub says : Text → Event → Option Bool
says a (peer_connected id addr) = if same id a then some true else none
says a (peer_disconnected id addr) = if same id a then some false else none
says a (peer_heartbeat id addr) = if same id a then some true else none
says a (peer_state_observed state) = none
says a (config_changed c) = none
says a (shutdown_requested reason) = none

-- What was last said of a peer before the service returned, starting from `said`.
unfoldable pub last_said : Text → Option Bool → List PresenceSignal → Option Bool
last_said a said [] = said
last_said a said (context_done ∷ rest) = said
last_said a said (channel_closed ∷ rest) = said
last_said a said (took d ∷ rest) = last_said a (first (says a d.event) said) rest

abbrev pub word : Bool → Text
word true = codes "online"
word false = codes "offline"

abbrev pub reads : Option Bool → Text → Text
reads none old = old
reads (some b) old = word b

-- A delivery of a connection, a disconnection, a heartbeat or an event of no peer, whose write works.
abbrev pub IsDirect : PresenceSignal → Type 0
IsDirect context_done = Unit
IsDirect channel_closed = Unit
IsDirect (took d) =
    (d.faults 0 ≡ false) × ((state : PeerStateObserved) → d.event ≢ peer_state_observed state)

write_row :
    (a id : Text) (f : Peer → Peer) (faults : Faults) (t : Table) (p : Peer)
    → faults 0 ≡ false
    → ((q : Peer) → same q.peer_id id ≡ true → (f q).peer_id ≡ q.peer_id)
    → find_peer a t ≡ some p
    → find_peer a (transaction (execute faults 0 (update_where id f)) t).0
      ≡ some (if same id a then f p else p)
unfolding transaction
write_row a id f faults t p work keeps h =
    rw (transaction, work) (find_peer-update_where a id f t keeps ∙ ground (arith, h))

handle_event-reads :
    (a observer : Text) (faults : Faults) (now : Time) (event : Event) (t : Table) (p : Peer)
    → faults 0 ≡ false
    → ((state : PeerStateObserved) → event ≢ peer_state_observed state)
    → find_peer a t ≡ some p
    → (q : Peer) × (find_peer a (handle_event observer faults now event t) ≡ some q)
      × (q.reachability ≡ reads (says a event) p.reachability)
unfolding handle_event upsert_last_seen update_reachability says
handle_event-reads a observer faults now (peer_connected id addr) t p work d h =
    (_, write_row a id _ faults t p work (λ q e. refl) h, ground arith)
handle_event-reads a observer faults now (peer_disconnected id addr) t p work d h =
    (_, write_row a id _ faults t p work (λ q e. refl) h, ground arith)
handle_event-reads a observer faults now (peer_heartbeat id addr) t p work d h =
    (_, write_row a id _ faults t p work (λ q e. refl) h, ground arith)
handle_event-reads a observer faults now (peer_state_observed state) t p work d h =
    absurd (d state refl)
handle_event-reads a observer faults now (config_changed c) t p work d h = (p, h, refl)
handle_event-reads a observer faults now (shutdown_requested reason) t p work d h = (p, h, refl)

serve-reads :
    (a observer : Text) (said : Option Bool) (signals : List PresenceSignal) (t : Table) (p : Peer)
    (old : Text)
    → All IsDirect signals
    → find_peer a t ≡ some p
    → p.reachability ≡ reads said old
    → (q : Peer) × (find_peer a (serve observer signals t).0 ≡ some q)
      × (q.reachability ≡ reads (last_said a said signals) old)
unfolding serve last_said
serve-reads a observer said [] t p old d h r = (p, h, r)
serve-reads a observer said (context_done ∷ rest) t p old d h r = (p, h, r)
serve-reads a observer said (channel_closed ∷ rest) t p old d h r = (p, h, r)
serve-reads a observer said (took e ∷ rest) t p old d h r =
    let (q, found, is) = handle_event-reads a observer e.faults e.now e.event t p d.0.0 d.0.1 h in
    serve-reads a observer (first (says a e.event) said) rest
      (handle_event observer e.faults e.now e.event t) q old d.1 found (combine (says a e.event) is)
  where
    combine :
        (s : Option Bool) {now : Text}
        → now ≡ reads s p.reachability
        → now ≡ reads (first s said) old
    combine none e = e ∙ r
    combine (some b) e = e

-- A run of the presence service keeps the rows of the table, and the row of a peer ends as "online" or
-- "offline" by the last event that named the peer before the service returned, or as it was if none
-- did, as long as all writes work and nobody else's observations come in.
pub serve-last_said :
    (a observer : Text) (signals : List PresenceSignal) (t : Table) (p : Peer)
    → All IsDirect signals
    → find_peer a t ≡ some p
    → (ids (serve observer signals t).0 ≡ ids t)
      × ((q : Peer) × (find_peer a (serve observer signals t).0 ≡ some q)
          × (q.reachability ≡ reads (last_said a none signals) p.reachability))
serve-last_said a observer signals t p d h =
    (ids-serve observer signals t, serve-reads a observer none signals t p p.reachability d h refl)
