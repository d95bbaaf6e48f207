-- ===== src/Network/Node/Admission.antt =====
-- Who may stay connected, and what the tracker holds.
use p2pos.Membership.{Manager, is_member}
use p2pos.Text.Order.{same_refl, same_iff, same_comm}
use p2pos.Text.Sorted.{IsDistinct}
use p2pos.Network.Node.{
  is_unconfigured, RuntimeState, healthy, unconfigured, publish_connected, degraded,
  forget_protocols, runtime_state, close_conn, Node, Peers, node_is_member, allow_peer,
  evaluate_runtime_state, on_connected, upsert_peer, AddrInfo, remove_peer, Tracker,
}
use p2pos.Env.{Env}
use p2pos.Text.{same, contains, Text}
use p2pos.Common.{
  Option, Option-cases, ◌≢◌, if◌then◌else◌, some, ap, refl, Bool-cases, map, [], ◌⊎◌, ◌||◌, ◌&&◌,
  ◌∙◌, ◌++◌, ◌∷◌, ◌≡◌, List, not, arith, keep, inr, inl, false, true,
}

-- The ids in the tracker.
abbrev pub tracked : Tracker → List Text
tracked = map (λ p. p.id)

contains-remove_peer :
    (a id : Text) (t : Tracker)
    → contains a (tracked (remove_peer id t)) ≡ (not (same a id) && contains a (tracked t))
unfolding remove_peer keep
contains-remove_peer a id [] = ground arith
contains-remove_peer a id (p ∷ t) =
    ground (arith, same_iff p.id id, same_iff a p.id, same_iff a id, contains-remove_peer a id t)

contains-concat :
    (a : Text) (p : AddrInfo) (t : Tracker)
    → contains a (tracked (t ++ p ∷ [])) ≡ (contains a (tracked t) || same a p.id)
contains-concat a p [] = ground arith
contains-concat a p (q ∷ t) = ground (arith, contains-concat a p t)

contains-upsert_peer :
    (a : Text) (p : AddrInfo) (t : Tracker)
    → contains a (tracked (upsert_peer p t)) ≡ (same a p.id || contains a (tracked t))
unfolding upsert_peer
contains-upsert_peer a p t =
    contains-concat a p (remove_peer p.id t) ∙ ground (arith, contains-remove_peer a p.id t)

remove_peer-IsDistinct :
    (id : Text) (t : Tracker) → IsDistinct (tracked t) → IsDistinct (tracked (remove_peer id t))
unfolding remove_peer keep
remove_peer-IsDistinct id [] d = tt
remove_peer-IsDistinct id (p ∷ t) d =
    ground (arith, remove_peer-IsDistinct id t d.1, contains-remove_peer p.id id t)

-- The list that GetAll returns has one entry for a peer.
upsert_peer-IsDistinct :
    (p : AddrInfo) (t : Tracker) → IsDistinct (tracked t) → IsDistinct (tracked (upsert_peer p t))
unfolding upsert_peer
upsert_peer-IsDistinct p t d =
    concat (remove_peer p.id t) (remove_peer-IsDistinct p.id t d)
      (contains-remove_peer p.id p.id t ∙ ground (arith, same_refl p.id))
  where
    concat :
        (u : Tracker)
        → IsDistinct (tracked u)
        → contains p.id (tracked u) ≡ false
        → IsDistinct (tracked (u ++ p ∷ []))
    concat [] d h = ground arith
    concat (q ∷ u) d h = ground (arith, concat u, contains-concat q.id p u, same_comm q.id p.id)

module _ (env : Env) where
  allow_peer-forget_protocols :
      (n : Node env) (remote : Text)
      → allow_peer env (forget_protocols env remote n) remote ≡ allow_peer env n remote
  unfolding allow_peer node_is_member forget_protocols
  allow_peer-forget_protocols n remote = refl

  -- What on_connected does to a peer that may not connect.
  on_connected-refuses :
      (peers : Peers) (remote addr : Text) (n : Node env)
      → allow_peer env n remote ≡ false
      → on_connected env peers remote addr n
        ≡ (forget_protocols env remote n, close_conn remote ∷ [])
  unfolding on_connected
  on_connected-refuses peers remote addr n h =
      rw (on_connected, allow_peer-forget_protocols n remote, h)

  on_connected-accepts :
      (peers : Peers) (remote addr : Text) (n : Node env)
      → allow_peer env n remote ≡ true
      → (on_connected env peers remote addr n).0
        ≡ evaluate_runtime_state env peers (record (forget_protocols env remote n) {
          tracker =
              upsert_peer
                (record { id = remote; addrs = addr ∷ [] })
                (forget_protocols env remote n).tracker;
        })
  unfolding on_connected
  on_connected-accepts peers remote addr n h =
      rw (on_connected, allow_peer-forget_protocols n remote, h)

  on_connected-says :
      (peers : Peers) (remote addr : Text) (n : Node env)
      → allow_peer env n remote ≡ true
      → (on_connected env peers remote addr n).1
        ≡ (if n.has_bus then publish_connected remote addr ∷ [] else [])
  unfolding on_connected forget_protocols
  on_connected-says peers remote addr n h =
      rw (on_connected, allow_peer-forget_protocols n remote, h)

  -- Who may connect, with no regard to how the node finds out.
  abbrev pub MayConnect : Node env → Text → Type 0
  MayConnect n remote =
      (n.state ≡ unconfigured)
      ⊎ ((m : Manager env) × (n.membership ≡ some m) × (contains remote m.member_set ≡ true))

  abbrev pub MayNotConnect : Node env → Text → Type 0
  MayNotConnect n remote =
      (n.state ≢ unconfigured)
      × ((m : Manager env) → n.membership ≡ some m → contains remote m.member_set ≡ false)

  same_manager : (o : Option (Manager env)) (m m' : Manager env) → o ≡ some m → o ≡ some m' → m ≡ m'
  same_manager o m m' h k = cc

  unconfigured_of : (s : RuntimeState) → is_unconfigured env s ≡ true → s ≡ unconfigured
  unconfigured_of unconfigured h = refl
  unconfigured_of degraded h = cc
  unconfigured_of healthy h = cc

  configured_of : (s : RuntimeState) → is_unconfigured env s ≡ false → s ≢ unconfigured
  configured_of unconfigured h = cc
  configured_of degraded h = λ e. absurd (cc)
  configured_of healthy h = λ e. absurd (cc)

  allow_peer-MayConnect :
      (n : Node env) (remote : Text)
      → ((allow_peer env n remote ≡ true) × MayConnect n remote)
        ⊎ ((allow_peer env n remote ≡ false) × MayNotConnect n remote)
  unfolding allow_peer node_is_member is_member
  allow_peer-MayConnect n remote = elim (Bool-cases (is_unconfigured env n.state)) [
    | inl u ↦ inl (rw (allow_peer, u) refl, inl (unconfigured_of n.state u))
    | inr u ↦ elim (Option-cases n.membership) [
      | inl none_yet ↦ inr (
        rw (allow_peer, u, node_is_member, none_yet) refl,
        (configured_of n.state u, λ m k. absurd (cc)),
      )
      | inr (m, has) ↦ elim (Bool-cases (contains remote m.member_set)) [
        | inl c ↦ inl (rw (allow_peer, u, node_is_member, has, is_member, c) refl, inr (m, has, c))
        | inr c ↦ inr (
          rw (allow_peer, u, node_is_member, has, is_member, c) refl,
          (
            configured_of n.state u,
            λ m' k.
                ap (λ x. contains remote x.member_set) (same_manager n.membership m' m k has) ∙ c,
          ),
        )
      ]
    ]
  ]

  -- A new connection is closed at once unless the node is unconfigured or the peer is in the member
  -- set of the node's manager; then nothing is published and the tracker and the state stay as they
  -- are. A connection that is let in is not closed: it is published as connected, and nothing else
  -- happens outside the node, the tracker holds the peer beside those it held, and the state is the
  -- one the connections give.
  pub on_connected_outcomes :
      (peers : Peers) (remote addr : Text) (n : Node env)
      → (MayNotConnect n remote
          × ((on_connected env peers remote addr n).1 ≡ close_conn remote ∷ [])
          × ((on_connected env peers remote addr n).0.tracker ≡ n.tracker)
          × ((on_connected env peers remote addr n).0.state ≡ n.state))
        ⊎ (MayConnect n remote
            × ((on_connected env peers remote addr n).1
                ≡ (if n.has_bus then publish_connected remote addr ∷ [] else []))
            × ((a : Text)
                → contains a (tracked (on_connected env peers remote addr n).0.tracker)
                  ≡ (same a remote || contains a (tracked n.tracker)))
            × ((on_connected env peers remote addr n).0.state
                ≡ runtime_state env n.local_id n.membership peers))
  unfolding forget_protocols evaluate_runtime_state upsert_peer
  on_connected_outcomes peers remote addr n = elim (allow_peer-MayConnect n remote) [
    | inl (h, may) ↦
        let e = on_connected-accepts peers remote addr n h in
        inr (
          may,
          on_connected-says peers remote addr n h,
          (λ a.
              ap (λ m. contains a (tracked m.tracker)) e
              ∙ contains-upsert_peer a (record { id = remote; addrs = addr ∷ [] }) n.tracker),
          ap (λ m. m.state) e,
        )
    | inr (h, may_not) ↦
        let e = on_connected-refuses peers remote addr n h in
        inl (may_not, ap (λ r. r.1) e, ap (λ r. r.0.tracker) e, ap (λ r. r.0.state) e)
  ]
