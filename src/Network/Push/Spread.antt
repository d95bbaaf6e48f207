-- ===== src/Network/Push/Spread.antt =====
-- What becomes of pushes: when nothing is under way any more, each has been handled by its target or was
-- lost on the way, and those that were accepted were passed on.
use p2pos.Network.Push.Relayed.{contains-all_but, receive_push-relays, message_to}
use p2pos.Network.Push.Newer.{push-IsAsNew, push-stored, in_flight_cases, IsAsNew, split_message}
use p2pos.Text.Order.{same_iff, same_refl}
use p2pos.Network.Node.{Peers}
use p2pos.Env.{Env}
use p2pos.Time.{Time}
use p2pos.Text.{contains, same, Text}
use p2pos.Common.{
  map, ok, false, true, ◌<◌, ℕ, All, refl, suc, zero, Result-cases, subst, sym, Bool-cases, List,
  [], ◌⊎◌, ◌≤◌, ◌++◌, ◌∷◌, ◌≡◌, ap, arith, err, inr, inl, some,
}
use mathlib.Core.List.{append-nil, Memᴰ}
use mathlib.Core.List.Memᴰ
use p2pos.Network.Push.{PushError}
use p2pos.Network.Push.Gossip.{
  lose_push, loses, Delivers-cost, IsOutward, total_cost, AreLinks, sends, Delivers, receive_push,
  delivers, handled, Reach, Cluster, Message, here, next,
}

module _ (env : Env) where
  module _ (links : Text → Peers) where
    -- The run has a delivery of the message that its target refused.
    abbrev pub WasRefused : Message → {c d : Cluster env links} → Reach env links c d → Type 0
    WasRefused msg here = ⊥
    WasRefused msg (next {d} r (delivers now before given after e made)) =
        WasRefused msg r
        ⊎ ((given ≡ msg) × ((error : PushError) × ((handled env links now given d).1 ≡ err error)))
    WasRefused msg (next r (loses before given after e made)) = WasRefused msg r

    -- The message was lost in the run: its stream failed.
    abbrev pub WasLost : Message → {c d : Cluster env links} → Reach env links c d → Type 0
    WasLost msg here = ⊥
    WasLost msg (next r (delivers now before given after e made)) = WasLost msg r
    WasLost msg (next r (loses before given after e made)) = WasLost msg r ⊎ (given ≡ msg)

    -- What has become of a message by the end of a run.
    abbrev pub IsSettled : Message → {c d : Cluster env links} → Reach env links c d → Type 0
    IsSettled msg {d} r =
        WasRefused msg r ⊎ (WasLost msg r ⊎ IsAsNew env msg.snapshot.issued_at (d.node msg.target))

    node_of_receive :
        (now : Time) (before : List Message) (given : Message) (after : List Message)
        (d : Cluster env links) (id : Text) (t : Time)
        → IsAsNew env t (d.node id)
        → IsAsNew env t ((receive_push env links now before given after d).node id)
    unfolding receive_push handled
    node_of_receive now before given after d id t new = elim (Bool-cases (same id given.target)) [
      | inr other ↦ rw other new
      | inl own ↦ rw own (
          push-IsAsNew env t (links given.target) now (some given.source) given.snapshot
            (d.node given.target)
            (subst (λ x. IsAsNew env t (d.node x)) ((same_iff id given.target).0 own) new))
    ]

    receive_push_outcomes :
        (now : Time) (before : List Message) (given : Message) (after : List Message)
        (d : Cluster env links)
        → ((error : PushError) × ((handled env links now given d).1 ≡ err error))
          ⊎ IsAsNew env given.snapshot.issued_at
              ((receive_push env links now before given after d).node given.target)
    unfolding receive_push handled
    receive_push_outcomes now before given after d =
        elim (Result-cases (handled env links now given d).1) [
          | inr (error, bad) ↦ inl (error, bad)
          | inl (_, fine) ↦ inr (
              rw (same_refl given.target) (
                push-stored env (links given.target) now (some given.source) given.snapshot
                  (d.node given.target) fine))
        ]

    in_flight_of_receive :
        (now : Time) (before : List Message) (given : Message) (after : List Message)
        (d : Cluster env links) (msg : Message)
        → d.in_flight ≡ before ++ given ∷ after
        → Memᴰ msg d.in_flight
        → (msg ≡ given) ⊎ Memᴰ msg (receive_push env links now before given after d).in_flight
    unfolding receive_push
    in_flight_of_receive now before given after d msg e h =
        split_message msg before given after
          (sends given.target (handled env links now given d).0.1) (subst (Memᴰ msg) e h)

    in_flight_of_lose :
        (before : List Message) (given : Message) (after : List Message) (d : Cluster env links)
        (msg : Message)
        → d.in_flight ≡ before ++ given ∷ after
        → Memᴰ msg d.in_flight
        → (msg ≡ given) ⊎ Memᴰ msg (lose_push env links before after d).in_flight
    unfolding lose_push
    in_flight_of_lose before given after d msg e h =
        elim (split_message msg before given after [] (subst (Memᴰ msg) e h)) [
          | inl is ↦ inl is
          | inr m ↦ inr (subst (λ x. Memᴰ msg (before ++ x)) (append-nil after) m)
        ]

    -- A message waits until it is settled, and then it stays settled.
    Reach-IsSettled :
        {c d : Cluster env links} (msg : Message)
        → Memᴰ msg c.in_flight
        → (r : Reach env links c d) → Memᴰ msg d.in_flight ⊎ IsSettled msg r
    unfolding lose_push
    Reach-IsSettled msg h here = inl h
    Reach-IsSettled msg h (next {d} r (delivers now before given after e made)) =
        elim (Reach-IsSettled msg h r) [
          | inr (inl refusal) ↦ inr (inl (inl refusal))
          | inr (inr (inl lost)) ↦ inr (inr (inl lost))
          | inr (inr (inr new)) ↦ inr (
              inr (
                inr (
                  subst (λ x. IsAsNew env msg.snapshot.issued_at (x.node msg.target)) (sym made)
                    (node_of_receive now before given after d msg.target msg.snapshot.issued_at
                      new))))
          | inl waits ↦ elim (in_flight_of_receive now before given after d msg e waits) [
            | inr still ↦ inl (subst (λ x. Memᴰ msg x.in_flight) (sym made) still)
            | inl is_given ↦ elim (receive_push_outcomes now before given after d) [
              | inl bad ↦ inr (inl (inr (sym is_given, bad)))
              | inr new ↦ inr (
                  inr (
                    inr (
                      subst (λ x. IsAsNew env msg.snapshot.issued_at (x.node msg.target)) (sym made)
                        (subst
                          (λ x.
                            IsAsNew env x.snapshot.issued_at
                              ((receive_push env links now before given after d).node x.target))
                          (sym is_given) new))))
            ]
          ]
        ]
    Reach-IsSettled msg h (next {d} r (loses before given after e made)) =
        elim (Reach-IsSettled msg h r) [
          | inr (inl refusal) ↦ inr (inl refusal)
          | inr (inr (inl lost)) ↦ inr (inr (inl (inl lost)))
          | inr (inr (inr new)) ↦ inr (
              inr (
                inr (
                  subst (λ x. IsAsNew env msg.snapshot.issued_at (x.node msg.target)) (sym made)
                    new)))
          | inl waits ↦ elim (in_flight_of_lose before given after d msg e waits) [
            | inr still ↦ inl (subst (λ x. Memᴰ msg x.in_flight) (sym made) still)
            | inl is_given ↦ inr (inr (inl (inr (sym is_given))))
          ]
        ]

    Reach-IsSettled_of_quiet :
        {c d : Cluster env links} (msg : Message)
        → Memᴰ msg c.in_flight
        → (r : Reach env links c d) → d.in_flight ≡ []
        → IsSettled msg r
    Reach-IsSettled_of_quiet {c} {d} msg h r quiet = elim (Reach-IsSettled msg h r) [
      | inl waits ↦ absurd (Memᴰ.not-nil (subst (Memᴰ msg) quiet waits))
      | inr settled ↦ settled
    ]

    cost_positive :
        (k : ℕ) (msg : Message) (rest : List Message) → 0 < total_cost env links k (msg ∷ rest)
    cost_positive k msg rest = ground arith

    -- Deliveries can go on until nothing is under way.
    quiet_of_cost :
        (n k : ℕ) (c d : Cluster env links)
        → AreLinks env links k
        → All (IsOutward env links) d.in_flight
        → total_cost env links k d.in_flight ≤ n
        → Reach env links c d
        → (e : Cluster env links) × Reach env links c e × (e.in_flight ≡ [])
    quiet_of_cost zero k c d good out few r = elim (in_flight_cases d.in_flight) [
      | inl quiet ↦ (d, r, quiet)
      | inr (msg, rest, e) ↦
          absurd (omega (arith, cost_positive k msg rest, ap (total_cost env links k) e))
    ]
    quiet_of_cost (suc n) k c d good out few r = elim (in_flight_cases d.in_flight) [
      | inl quiet ↦ (d, r, quiet)
      | inr (msg, rest, e) ↦
          let d' = receive_push env links 0 [] msg rest d in
          let step : Delivers env links d d' = delivers 0 [] msg rest e refl in
          let (less_cost, out') = Delivers-cost env links k good d d' out step in
          quiet_of_cost n k c d' good out' (omega arith) (next r step)
    ]

    -- What becomes of the pushes of a cluster whose nodes have at most k connections and none to
    -- themselves, in whatever order they arrive, and whichever of them are lost on the way. They can
    -- be delivered until none is under way. Whenever none is, the target of each push that was under
    -- way has a member list at least as new as the pushed one, unless it refused the push when it
    -- arrived or the push was lost. And a push that its issuer sent and that is accepted leaves the
    -- same snapshot under way to every other connection of the target but the issuer.
    pub pushes_settle :
        (k : ℕ) (c : Cluster env links)
        → AreLinks env links k
        → All (IsOutward env links) c.in_flight
        → ((d : Cluster env links) × Reach env links c d × (d.in_flight ≡ []))
          × ((d : Cluster env links) (msg : Message)
              → (r : Reach env links c d) → d.in_flight ≡ []
              → Memᴰ msg c.in_flight
              → IsSettled msg r)
          × ((d : Cluster env links) (now : Time) (before : List Message) (msg : Message)
                (after : List Message) (pid : Text)
              → d.in_flight ≡ before ++ msg ∷ after
              → (handled env links now msg d).1 ≡ ok tt
              → same msg.source msg.snapshot.issuer_peer_id ≡ true
              → same pid msg.snapshot.issuer_peer_id ≡ false
              → contains pid (map (λ p. p.0) (links msg.target)) ≡ true
              → Memᴰ
                  (message_to msg.target msg.snapshot pid)
                  (receive_push env links now before msg after d).in_flight)
    pushes_settle k c good out = (
      quiet_of_cost (total_cost env links k c.in_flight) k c c good out (omega arith) here,
      λ d msg r quiet h. Reach-IsSettled_of_quiet msg h r quiet,
      λ d now before msg after pid e fine own other there.
          receive_push-relays env links now before msg after d pid fine own
            (contains-all_but pid msg.snapshot.issuer_peer_id (links msg.target) other there),
    )
