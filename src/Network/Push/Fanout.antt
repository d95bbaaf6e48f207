-- ===== src/Network/Push/Fanout.antt =====
-- Who is sent a snapshot that was pushed or published, and what a refusal leaves.
use p2pos.Membership.Applying.{apply_outcomes}
use p2pos.Text.Order.{same-eq}
use p2pos.Membership.{
  normalize_members, current_snapshot, sign_snapshot, Error, apply, Manager, Snapshot,
}
use p2pos.Network.Node.{
  can_write_admin, notify_applied, close_conn, publish_heartbeat, publish_disconnected, Node,
  notify_membership_applied, evaluate_runtime_state, publish_connected, push_to, Peers, Effect,
}
use p2pos.Env.{Env}
use p2pos.Network.Push.{
  node_not_healthy, signed_snapshot, refused, PushError, publish_with, publish_membership_snapshot,
  relay, notify_if_newer, on_membership_push, fanout_snapshot, push_to_all,
}
use p2pos.Time.{Time}
use p2pos.Text.{same, Text}
use p2pos.Common.{
  Result, Result-cases, sym, true, map, Bool-cases, [], ◌⊎◌, ◌∙◌, ◌++◌, ◌∷◌, ◌≡◌, if◌then◌else◌,
  Bool, Option, List, not, ap, arith, keep, err, ok, refl, inr, inl, false, some, none,
}

-- The pushes among some effects, in order: who is sent which snapshot.
abbrev pub pushes : List Effect → List (Text × Snapshot)
pushes [] = []
pushes (push_to pid s ∷ rest) = (pid, s) ∷ pushes rest
pushes (publish_connected a b ∷ rest) = pushes rest
pushes (publish_disconnected a b ∷ rest) = pushes rest
pushes (publish_heartbeat a b ∷ rest) = pushes rest
pushes (close_conn a ∷ rest) = pushes rest
pushes (notify_applied s ∷ rest) = pushes rest

-- One snapshot for each of some peers.
abbrev pub to_each : Snapshot → List Text → List (Text × Snapshot)
to_each s [] = []
to_each s (pid ∷ pids) = (pid, s) ∷ to_each s pids

-- The connected peers but one.
abbrev pub all_but : Text → Peers → List Text
all_but source peers = keep (λ pid. not (same pid source)) (map (λ p. p.0) peers)

pushes-fanout_snapshot :
    (source : Text) (s : Snapshot) (peers : Peers)
    → pushes (fanout_snapshot source s peers) ≡ to_each s (all_but source peers)
unfolding fanout_snapshot keep
pushes-fanout_snapshot source s [] = refl
pushes-fanout_snapshot source s ((pid, connected) ∷ rest) =
    ground (arith, pushes-fanout_snapshot source s rest)

pushes-push_to_all :
    (s : Snapshot) (peers : Peers) → pushes (push_to_all s peers) ≡ to_each s (map (λ p. p.0) peers)
unfolding push_to_all
pushes-push_to_all s [] = refl
pushes-push_to_all s ((pid, connected) ∷ rest) = ap (λ r. (pid, s) ∷ r) (pushes-push_to_all s rest)

module _ (env : Env) where
  pushes-notify :
      (n : Node env) (old new : Manager env) (later : List Effect)
      → pushes (notify_if_newer env n old new ++ later) ≡ pushes later
  unfolding notify_if_newer notify_membership_applied
  pushes-notify n old new later = ground arith

  apply_fails :
      (m : Manager env) (now : Time) (s : Snapshot) (e : Error)
      → (apply env m now s).1 ≡ err e
      → (apply env m now s).0 ≡ m
  apply_fails m now s e h = elim (apply_outcomes env m now s) [
    | inl (kept, _) ↦ kept
    | inr (_, _, _, fine) ↦ absurd (cc)
  ]

  same_node :
      (n : Node env) (m new : Manager env)
      → n.membership ≡ some m
      → new ≡ m
      → record n { membership = some new } ≡ n
  same_node n m new h e = ap (λ x. record n { membership = x }) (ap some e ∙ sym h)

  -- The end of the stream that a relay looks at: whether the pusher issued the snapshot.
  abbrev pub pushed_by_issuer : Option Text → Snapshot → Bool
  pushed_by_issuer none s = false
  pushed_by_issuer (some remote) s = same remote s.issuer_peer_id

  pushes-relay :
      (peers : Peers) (remote : Option Text) (s : Snapshot)
      → pushes (relay env peers remote s)
        ≡ (if pushed_by_issuer remote s then to_each s (all_but s.issuer_peer_id peers) else [])
  unfolding relay
  pushes-relay peers none s = refl
  pushes-relay peers (some remote) s = elim (Bool-cases (same remote s.issuer_peer_id)) [
    | inl h ↦
        rw (relay, h)
          (pushes-fanout_snapshot remote s peers
            ∙ ap (λ r. to_each s (all_but r peers)) (same-eq remote s.issuer_peer_id h))
    | inr h ↦ rw (relay, h) refl
  ]

  -- A pushed snapshot that Apply accepts is passed on, the very one that came, to each connected peer
  -- other than its issuer and to no one else, and only if the issuer itself pushed it. One that is
  -- refused is passed on to nobody, and the node stays as it is.
  pub on_membership_push_outcomes :
      (peers : Peers) (now : Time) (remote : Option Text) (s : Snapshot) (n : Node env)
      (m : Manager env)
      → n.membership ≡ some m
      → (((apply env m now s).1 ≡ ok tt)
          × ((on_membership_push env peers now remote (some s) n).1 ≡ ok tt)
          × ((on_membership_push env peers now remote (some s) n).0.0.membership
              ≡ some (apply env m now s).0)
          × (pushes (on_membership_push env peers now remote (some s) n).0.1 ≡ (
              if pushed_by_issuer remote s
              then to_each s (all_but s.issuer_peer_id peers)
              else [])))
        ⊎ ((e : Error) × ((apply env m now s).1 ≡ err e)
            × (on_membership_push env peers now remote (some s) n ≡ ((n, []), err (refused e))))
  unfolding on_membership_push evaluate_runtime_state
  on_membership_push_outcomes peers now remote s n m h = elim (Result-cases (apply env m now s).1) [
    | inl (_, fine) ↦ inl (
      fine,
      rw (on_membership_push, h, fine) refl,
      rw (on_membership_push, h, fine) refl,
      rw (on_membership_push, h, fine)
          (pushes-notify n m (apply env m now s).0 (relay env peers remote s)
            ∙ pushes-relay peers remote s),
    )
    | inr (e, bad) ↦ inr (
      e,
      bad,
      refused_run e bad
          ∙ ap (λ x. ((x, []), err (refused e)))
              (same_node n m (apply env m now s).0 h (apply_fails m now s e bad)),
    )
  ]
    where
      refused_run :
          (e : Error)
          → (apply env m now s).1 ≡ err e
          → on_membership_push env peers now remote (some s) n
            ≡ ((record n { membership = some (apply env m now s).0 }, []), err (refused e))
      refused_run e bad = simp (on_membership_push, h, bad)

  publish_with_outcomes :
      (peers : Peers) (now : Time) (m : Manager env) (s : Snapshot) (n : Node env)
      → n.membership ≡ some m
      → ((e : PushError) × (publish_with env peers now m (ok s) n ≡ ((n, []), err e)))
        ⊎ (((publish_with env peers now m (ok s) n).1 ≡ ok tt)
            × ((publish_with env peers now m (ok s) n).0.0
                ≡ record n { membership = some (apply env m now s).0 })
            × (pushes (publish_with env peers now m (ok s) n).0.1
                ≡ to_each s (map (λ p. p.0) peers)))
  unfolding publish_with notify_membership_applied
  publish_with_outcomes peers now m s n h = elim (Result-cases (apply env m now s).1) [
    | inl (_, fine) ↦
        inr (rw (publish_with, fine) (refl, refl, ground (arith, pushes-push_to_all s peers)))
    | inr (e, bad) ↦ inl (
      refused e,
      rw (publish_with, bad)
          (ap (λ x. ((x, []), err (refused e)))
            (same_node n m (apply env m now s).0 h (apply_fails m now s e bad))),
    )
  ]

  -- A snapshot of the node's own, with the members it was given in normal form.
  abbrev pub IsIssued : Node env → Manager env → Time → List Text → Snapshot → Type 0
  IsIssued n m issued_at members s =
      (s.members ≡ normalize_members members)
      × (s.issued_at ≡ issued_at)
      × (s.issuer_peer_id ≡ n.local_id)
      × (s.cluster_id ≡ m.snapshot.cluster_id)
      × (n.admin_proof ≡ some s.admin_proof)

  signed_snapshot-fields :
      (n : Node env) (m : Manager env) (checked_at issued_at : Time) (members : List Text)
      (s : Snapshot)
      → signed_snapshot env n m checked_at issued_at members ≡ ok s
      → IsIssued n m issued_at members s
  unfolding signed_snapshot sign_snapshot current_snapshot
  signed_snapshot-fields n m checked_at issued_at members s h = ground arith

  -- Publishing a member list either fails, and then the node stays as it is and nobody is sent
  -- anything, or the node is healthy, holds what Apply makes of the signed snapshot, and pushes that
  -- signed snapshot to every connected peer. The snapshot is the node's own: of the manager's cluster
  -- and the time given, with the node as its issuer, the node's proof, and the given members in
  -- normal form.
  pub publish_membership_snapshot_outcomes :
      (peers : Peers) (checked_at issued_at now : Time) (members : List Text) (n : Node env)
      (m : Manager env)
      → n.membership ≡ some m
      → ((e : PushError) × (publish_membership_snapshot env peers checked_at issued_at now members n
            ≡ ((n, []), err e)))
        ⊎ ((can_write_admin env n ≡ true)
            × ((s : Snapshot) × (signed_snapshot env n m checked_at issued_at members ≡ ok s)
                × IsIssued n m issued_at members s
                × ((publish_membership_snapshot env peers checked_at issued_at now members n).1
                    ≡ ok tt)
                × ((publish_membership_snapshot env peers checked_at issued_at now members n).0.0
                    ≡ record n { membership = some (apply env m now s).0 })
                × (pushes
                      (publish_membership_snapshot env peers checked_at issued_at now members n).0.1
                    ≡ to_each s (map (λ p. p.0) peers))))
  unfolding publish_membership_snapshot publish_with
  publish_membership_snapshot_outcomes peers checked_at issued_at now members n m h =
      elim (Bool-cases (can_write_admin env n)) [
        | inl w ↦ elim (Result-cases (signed_snapshot env n m checked_at issued_at members)) [
          | inl (s, made) ↦ elim (publish_with_outcomes peers now m s n h) [
            | inl (e, k) ↦ inl (e, run (ok s) w made ∙ k)
            | inr (a, b, c) ↦
                let e = run (ok s) w made in
                inr (
                  w,
                  (
                    s,
                    made,
                    signed_snapshot-fields n m checked_at issued_at members s made,
                    ap (λ x. x.1) e ∙ a,
                    ap (λ x. x.0.0) e ∙ b,
                    ap (λ x. pushes x.0.1) e ∙ c,
                  ),
                )
          ]
          | inr (e, bad) ↦ inl (e, run (err e) w bad)
        ]
        | inr w ↦ inl (node_not_healthy, rw (publish_membership_snapshot, w) refl)
      ]
    where
      run :
          (r : Result PushError Snapshot)
          → can_write_admin env n ≡ true
          → signed_snapshot env n m checked_at issued_at members ≡ r
          → publish_membership_snapshot env peers checked_at issued_at now members n
            ≡ publish_with env peers now m r n
      run r w made = simp (publish_membership_snapshot, w, h, made)
