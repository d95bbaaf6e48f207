-- ===== src/Network/Push/Relayed.antt =====
-- A push that its issuer sends and that is accepted is under way to the other connections of its target.
use p2pos.Text.Order.{same_iff, same-eq}
use p2pos.Network.Push.{on_membership_push}
use p2pos.Env.{Env}
use p2pos.Membership.{Snapshot}
use p2pos.Network.Node.{
  Node, Peers, Effect, push_to, notify_applied, close_conn, publish_disconnected, publish_heartbeat,
  publish_connected,
}
use p2pos.Time.{Time}
use p2pos.Text.{same, contains, Text}
use p2pos.Common.{
  map, arith, keep, false, Option-cases, Bool-cases, List, [], ◌∙◌, ◌∷◌, ◌≡◌, subst, sym, ap, ok,
  refl, inr, inl, true, some,
}
use p2pos.Network.Push.Fanout.{pushes, to_each, all_but, on_membership_push_outcomes}
use p2pos.Network.Push.Gossip.{sends, Message, handled, receive_push, Cluster}
use mathlib.Core.List.{Memᴰ}
use mathlib.Core.List.Memᴰ

-- The messages of a node that pushes something to each of some peers.
abbrev messages : Text → List (Text × Snapshot) → List Message
messages source [] = []
messages source ((pid, s) ∷ rest) =
    record { source = source; target = pid; snapshot = s } ∷ messages source rest

sends-pushes :
    (source : Text) (effects : List Effect)
    → sends source effects ≡ messages source (pushes effects)
sends-pushes source [] = refl
sends-pushes source (push_to pid s ∷ rest) =
    ap (λ x. record { source = source; target = pid; snapshot = s } ∷ x) (sends-pushes source rest)
sends-pushes source (publish_connected a b ∷ rest) = sends-pushes source rest
sends-pushes source (publish_disconnected a b ∷ rest) = sends-pushes source rest
sends-pushes source (publish_heartbeat a b ∷ rest) = sends-pushes source rest
sends-pushes source (close_conn a ∷ rest) = sends-pushes source rest
sends-pushes source (notify_applied s ∷ rest) = sends-pushes source rest

abbrev pub message_to : Text → Snapshot → Text → Message
message_to source s pid = record { source = source; target = pid; snapshot = s }

Mem-messages :
    (source pid : Text) (s : Snapshot) (ids : List Text)
    → contains pid ids ≡ true
    → Memᴰ (message_to source s pid) (messages source (to_each s ids))
Mem-messages source pid s [] h = absurd (cc)
Mem-messages source pid s (x ∷ ids) h = elim (Bool-cases (same pid x)) [
  | inl e ↦ Memᴰ.head (ap (message_to source s) (same-eq pid x e))
  | inr e ↦ Memᴰ.tail (Mem-messages source pid s ids (rw e at h))
]

pub contains-all_but :
    (pid source : Text) (peers : Peers)
    → same pid source ≡ false
    → contains pid (map (λ p. p.0) peers) ≡ true
    → contains pid (all_but source peers) ≡ true
unfolding keep
contains-all_but pid source [] h there = absurd (cc)
contains-all_but pid source ((q, connected) ∷ rest) h there = ground (
  arith,
  same_iff pid q,
  same_iff q source,
  same_iff pid source,
  contains-all_but pid source rest h,
)

module _ (env : Env) where
  handled-relays :
      (peers : Peers) (now : Time) (source target pid : Text) (s : Snapshot) (n : Node env)
      → (on_membership_push env peers now (some source) (some s) n).1 ≡ ok tt
      → same source s.issuer_peer_id ≡ true
      → contains pid (all_but s.issuer_peer_id peers) ≡ true
      → Memᴰ
          (message_to target s pid)
          (sends target (on_membership_push env peers now (some source) (some s) n).0.1)
  unfolding on_membership_push
  handled-relays peers now source target pid s n fine own there = elim (Option-cases n.membership) [
    | inl unset ↦ absurd (cc (simp (on_membership_push, unset) at fine))
    | inr (m, has) ↦ elim (on_membership_push_outcomes env peers now (some source) s n m has) [
      | inr (e, _, kept) ↦ absurd (cc (fine, ap (λ x. x.1) kept))
      | inl (_, _, _, went) ↦
          let effects = (on_membership_push env peers now (some source) (some s) n).0.1 in
          let all : pushes effects ≡ to_each s (all_but s.issuer_peer_id peers) = rw own at went in
          subst (Memᴰ (message_to target s pid))
            (sym (sends-pushes target effects ∙ ap (messages target) all))
            (Mem-messages target pid s (all_but s.issuer_peer_id peers) there)
    ]
  ]

  module _ (links : Text → Peers) where
    -- Behind the delivery the snapshot is under way to every connection of the target but the issuer.
    pub receive_push-relays :
        (now : Time) (before : List Message) (msg : Message) (after : List Message)
        (c : Cluster env links) (pid : Text)
        → (handled env links now msg c).1 ≡ ok tt
        → same msg.source msg.snapshot.issuer_peer_id ≡ true
        → contains pid (all_but msg.snapshot.issuer_peer_id (links msg.target)) ≡ true
        → Memᴰ
            (message_to msg.target msg.snapshot pid)
            (receive_push env links now before msg after c).in_flight
    unfolding receive_push handled
    receive_push-relays now before msg after c pid fine own there = Memᴰ.append_right before (
        Memᴰ.append_right after (
          handled-relays (links msg.target) now msg.source msg.target pid msg.snapshot
            (c.node msg.target) fine own there))
