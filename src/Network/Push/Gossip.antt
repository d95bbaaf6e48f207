-- ===== src/Network/Push/Gossip.antt =====
-- The pushes of a whole cluster: nodes that receive snapshots in any order and pass them on by the
-- handler of membership_push.go. The relay comes to an end.
use p2pos.Text.Order.{same_comm, same_iff}
use p2pos.Network.Push.{PushError, relay, on_membership_push, fanout_snapshot, notify_if_newer}
use p2pos.Env.{Env}
use p2pos.Membership.{apply, Manager, Snapshot}
use p2pos.Network.Node.{
  notify_membership_applied, Node, Peers, Effect, publish_disconnected, push_to, notify_applied,
  publish_connected, publish_heartbeat, close_conn,
}
use p2pos.Time.{Time}
use p2pos.Text.{same, contains, Text}
use p2pos.Common.{
  ap, Bool-cases, Result-cases, Option-cases, ◌<◌, ◌∙◌, subst, inr, inl, map, [], ◌⊎◌, ◌≤◌, ◌+◌,
  ◌++◌, ◌∷◌, ◌≡◌, if◌then◌else◌, Result, List, ℕ, arith, All, length, false, true, some, suc,
}

-- A snapshot on its way from one peer to another.
pub record Message : Type 0 where
  pub source : Text
  pub target : Text
  pub snapshot : Snapshot

-- The pushes among some effects of the node `source`.
abbrev pub sends : Text → List Effect → List Message
sends source [] = []
sends source (push_to pid s ∷ rest) =
    record { source = source; target = pid; snapshot = s } ∷ sends source rest
sends source (publish_connected a b ∷ rest) = sends source rest
sends source (publish_disconnected a b ∷ rest) = sends source rest
sends source (publish_heartbeat a b ∷ rest) = sends source rest
sends source (close_conn a ∷ rest) = sends source rest
sends source (notify_applied s ∷ rest) = sends source rest

-- `links` are the connections of each node, which stay as they are.
module _ (env : Env) (links : Text → Peers) where
  pub record Cluster : Type 0 where
    pub node : Text → Node env
    pub in_flight : List Message

  -- The node that is sent a message handles it.
  unfoldable pub handled :
      Time → Message → Cluster → (Node env × List Effect) × Result PushError (Unit {0})
  handled now msg c =
      on_membership_push env (links msg.target) now (some msg.source) (some msg.snapshot)
        (c.node msg.target)

  -- Delivery of a message that stands between others.
  unfoldable pub receive_push : Time → List Message → Message → List Message → Cluster → Cluster
  receive_push now before msg after c = record {
    node = λ id. if same id msg.target then (handled now msg c).0.0 else c.node id;
    in_flight = before ++ (after ++ sends msg.target (handled now msg c).0.1);
  }

  -- A message that stands between others is lost: the stream to its target fails, which the sender
  -- logs and does not try again.
  unfoldable pub lose_push : List Message → List Message → Cluster → Cluster
  lose_push before after c = record c { in_flight = before ++ after }

  -- Any message may be the next to arrive, at any time, or to be lost.
  pub data Delivers (c d : Cluster) : Type 0 where
    delivers :
        (now : Time) (before : List Message) (msg : Message) (after : List Message)
        → c.in_flight ≡ before ++ msg ∷ after
        → d ≡ receive_push now before msg after c
        → Delivers c d
    loses :
        (before : List Message) (msg : Message) (after : List Message)
        → c.in_flight ≡ before ++ msg ∷ after
        → d ≡ lose_push before after c
        → Delivers c d

  pub data Reach (c : Cluster) : Cluster → Type 0 where
    here : Reach c c
    next : {d e : Cluster} → Reach c d → Delivers d e → Reach c e

  -- The pushes that arrived or were lost.
  abbrev pub deliveries : {c d : Cluster} → Reach c d → ℕ
  deliveries here = 0
  deliveries (next r step) = suc (deliveries r)

  -- What a message may still cost: itself, and its relays if its issuer sends it; `k` bounds the
  -- number of connections of a node.
  abbrev pub cost : ℕ → Message → ℕ
  cost k msg = if same msg.source msg.snapshot.issuer_peer_id then suc k else 1

  abbrev pub total_cost : ℕ → List Message → ℕ
  total_cost k [] = 0
  total_cost k (msg ∷ rest) = cost k msg + total_cost k rest

  -- No node pushes to itself.
  abbrev pub IsOutward : Message → Type 0
  IsOutward msg = same msg.source msg.target ≡ false

  -- A node has at most k connections, and none to itself.
  pub record AreLinks (k : ℕ) : Type 0 where
    pub few : (id : Text) → length (links id) ≤ k
    pub outward : (id : Text) → contains id (map (λ p. p.0) (links id)) ≡ false

  total_cost-append :
      (k : ℕ) (xs ys : List Message) → total_cost k (xs ++ ys) ≡ total_cost k xs + total_cost k ys
  total_cost-append k [] ys = omega arith
  total_cost-append k (x ∷ xs) ys = ground (arith, total_cost-append k xs ys)

  sends-fanout_cost :
      (k : ℕ) (id source : Text) (s : Snapshot) (peers : Peers)
      → same id s.issuer_peer_id ≡ false
      → total_cost k (sends id (fanout_snapshot source s peers)) ≤ length peers
  unfolding fanout_snapshot
  sends-fanout_cost k id source s [] h = omega arith
  sends-fanout_cost k id source s ((pid, connected) ∷ rest) h =
      ground (arith, sends-fanout_cost k id source s rest h)

  sends-fanout-IsOutward :
      (id source : Text) (s : Snapshot) (peers : Peers)
      → contains id (map (λ p. p.0) peers) ≡ false
      → All IsOutward (sends id (fanout_snapshot source s peers))
  unfolding fanout_snapshot
  sends-fanout-IsOutward id source s [] h = tt
  sends-fanout-IsOutward id source s ((pid, connected) ∷ rest) h =
      ground (arith, sends-fanout-IsOutward id source s rest)

  sends-notify :
      (id : Text) (n : Node env) (old new : Manager env) (tail : List Effect)
      → sends id (notify_if_newer env n old new ++ tail) ≡ sends id tail
  unfolding notify_if_newer notify_membership_applied
  sends-notify id n old new tail = ground arith

  -- The handler sends nothing, or relays what its issuer pushed.
  sends-push :
      (id source : Text) (peers : Peers) (now : Time) (s : Snapshot) (n : Node env)
      → (sends id (on_membership_push env peers now (some source) (some s) n).0.1 ≡ [])
        ⊎ ((same source s.issuer_peer_id ≡ true)
            × (sends id (on_membership_push env peers now (some source) (some s) n).0.1
                ≡ sends id (fanout_snapshot source s peers)))
  unfolding on_membership_push relay
  sends-push id source peers now s n = elim (Option-cases n.membership) [
    | inl h ↦ inl (simp (on_membership_push, h))
    | inr (m, h) ↦ elim (Result-cases (apply env m now s).1) [
      | inr (e, bad) ↦ inl (simp (on_membership_push, h, bad))
      | inl (_, fine) ↦
          let told = notify_if_newer env n m (apply env m now s).0 in
          let ran : sends id (on_membership_push env peers now (some source) (some s) n).0.1
              ≡ sends id (relay env peers (some source) s) =
            simp (on_membership_push, h, fine)
              (sends-notify id n m (apply env m now s).0 (relay env peers (some source) s)) in
          elim (Bool-cases (same source s.issuer_peer_id)) [
            | inl own ↦ inr (own, ran ∙ simp (relay, own))
            | inr other ↦ inl (ran ∙ simp (relay, other))
          ]
    ]
  ]

  -- One delivery: the messages that follow from it cost less than the message did.
  handled-cost :
      (k : ℕ)
      → AreLinks k
      → (now : Time) (msg : Message) (c : Cluster) → IsOutward msg
      → (total_cost k (sends msg.target (handled now msg c).0.1) < cost k msg)
        × All IsOutward (sends msg.target (handled now msg c).0.1)
  unfolding handled
  handled-cost k good now msg c out =
      elim (sends-push msg.target msg.source (links msg.target) now msg.snapshot
        (c.node msg.target)) [
          | inl none_sent ↦ rw none_sent (ground arith, tt)
          | inr (own, relayed) ↦
              rw (relayed, own)
                (
                  ground (
                    arith,
                    good.few msg.target,
                    sends-fanout_cost k msg.target msg.source msg.snapshot (links msg.target)
                        (other own),
                  ),
                  sends-fanout-IsOutward msg.target msg.source msg.snapshot (links msg.target)
                      (good.outward msg.target),
                )
        ]
    where
      other :
          same msg.source msg.snapshot.issuer_peer_id ≡ true
          → same msg.target msg.snapshot.issuer_peer_id ≡ false
      other own =
          ground (
            arith,
            same_iff msg.source msg.snapshot.issuer_peer_id,
            same_comm msg.source msg.target,
          )

  All-append :
      (xs ys : List Message) → All IsOutward xs → All IsOutward ys → All IsOutward (xs ++ ys)
  All-append [] ys h k = k
  All-append (x ∷ xs) ys h k = (h.0, All-append xs ys h.1 k)

  All-split :
      (xs ys : List Message) → All IsOutward (xs ++ ys) → All IsOutward xs × All IsOutward ys
  All-split [] ys h = (tt, h)
  All-split (x ∷ xs) ys h = let (a, b) = All-split xs ys h.1 in ((h.0, a), b)

  cost_positive : (k : ℕ) (msg : Message) → 0 < cost k msg
  cost_positive k msg = ground arith

  pub Delivers-cost :
      (k : ℕ)
      → AreLinks k
      → (c d : Cluster) → All IsOutward c.in_flight
      → Delivers c d
      → (total_cost k d.in_flight < total_cost k c.in_flight) × All IsOutward d.in_flight
  unfolding receive_push lose_push
  Delivers-cost k good c d out (delivers now before msg after e f) =
      let (front, mid) = All-split before (msg ∷ after) (subst (All IsOutward) e out) in
      let (less_cost, more_out) = handled-cost k good now msg c mid.0 in
      let onward = sends msg.target (handled now msg c).0.1 in
      (
        rw f (
            omega (
              arith,
              ap (total_cost k) e,
              total_cost-append k before (after ++ onward),
              total_cost-append k after onward,
              total_cost-append k before (msg ∷ after),
            )),
        rw f (All-append before (after ++ onward) front (All-append after onward mid.1 more_out)),
      )
  Delivers-cost k good c d out (loses before msg after e f) =
      let (front, mid) = All-split before (msg ∷ after) (subst (All IsOutward) e out) in
      (
        rw f (
            omega (
              arith,
              ap (total_cost k) e,
              total_cost-append k before after,
              total_cost-append k before (msg ∷ after),
              cost_positive k msg,
            )),
        rw f (All-append before after front mid.1),
      )

  Reach-IsOutward :
      (k : ℕ)
      → AreLinks k
      → {c d : Cluster} → All IsOutward c.in_flight
      → (r : Reach c d)
      → (deliveries r + total_cost k d.in_flight ≤ total_cost k c.in_flight)
        × All IsOutward d.in_flight
  Reach-IsOutward k good out here = (omega arith, out)
  Reach-IsOutward k good out (next {d} {e} r step) =
      let (spent, out') = Reach-IsOutward k good out r in
      let (less_cost, out'') = Delivers-cost k good d e out' step in (omega arith, out'')

  -- However the pushes of a cluster are interleaved, whenever they arrive, whether the nodes accept
  -- them or not, and if some are lost, the relays end: the number of pushes that arrive or are lost is
  -- at most the cost of the messages under way, which is 1 for a relayed message, and 1 more than the number of connections of a node
  -- for a message that its issuer sends. No node has more than k connections or one to itself.
  pub deliveries-le-total_cost :
      (k : ℕ)
      → AreLinks k
      → {c d : Cluster} → All IsOutward c.in_flight
      → (r : Reach c d) → deliveries r + total_cost k d.in_flight ≤ total_cost k c.in_flight
  deliveries-le-total_cost k good out r = (Reach-IsOutward k good out r).0
