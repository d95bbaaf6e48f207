-- ===== src/App/Shutdown/Ending.antt =====
-- A signal ends the program.
use p2pos.App.Shutdown.Pending.{
  is_pending, channel_at-receive, step-IsWaiting, is_pending-concat, pending_cases, AreOthers,
  count_takes, IsWaiting,
}
use p2pos.Events.Payload.{Event, shutdown_requested}
use p2pos.App.Shutdown.{
  request_shutdown, on_channel, is_others, on_event, bridge_turn, run_bridge, sees_done,
  sees_signal, others_cancel, Turn, Bridge, takes_event, others,
}
use p2pos.Text.{codes, Text}
use p2pos.Common.{
  ◌<◌, Bool-cases, ◌&&◌, ◌∙◌, not, subst, sym, ap, inr, inl, [], ◌⊎◌, ◌++◌, ◌∷◌, ◌≡◌, Bool, List, ℕ,
  arith, length, refl, false, true, some, suc,
}
use p2pos.Events.{Channel, channel_at, offer}
use p2pos.Events.Channels.{
  receiving, cancelling, subscribing, publishing, Op, step, effect, channel_at-step,
}

module _ (has_bus : Bool) (i : ℕ) where
  -- What the bridge does when it takes an event.
  bridge_turn-takes_event :
      (b : Bridge) (c : Channel Event) (evt : Event) (rest : List Event)
      → channel_at b.bus i ≡ some c
      → c.queue ≡ evt ∷ rest
      → bridge_turn has_bus i takes_event b ≡ on_event i evt b
  unfolding bridge_turn on_channel
  bridge_turn-takes_event b c evt rest at q = simp (bridge_turn, on_channel, at, q)

  takes_event-IsWaiting :
      (n : ℕ) (b : Bridge)
      → IsWaiting i n b
      → ((bridge_turn has_bus i takes_event b).ctx_done ≡ true)
        ⊎ ((m : ℕ) × (n ≡ suc m) × IsWaiting i m (bridge_turn has_bus i takes_event b))
  unfolding on_event
  takes_event-IsWaiting n b w =
      let (c, at, pending) = w.channel in
      let (evt, rest, q, cases) = pending_cases n c.queue pending in
      let ran = bridge_turn-takes_event b c evt rest at q in
      elim cases [
        | inl request ↦ inl (ap (λ x. x.ctx_done) ran ∙ simp (on_event, request))
        | inr (other, (m, e, still)) ↦
            let (c', at', q') = channel_at-receive i b.bus c evt rest at q in
            inr (
              m,
              e,
              subst (IsWaiting i m) (sym ran) (
                  simp (on_event, other)
                    (record {
                      running = w.running;
                      channel = (c', at', ap (is_pending m) q' ∙ still);
                    })),
            )
      ]

  request_shutdown-IsWaiting :
      (n : ℕ) (name : Text) (b : Bridge)
      → IsWaiting i n b
      → IsWaiting i n (bridge_turn has_bus i (sees_signal name) b)
  unfolding bridge_turn request_shutdown step
  request_shutdown-IsWaiting n name b w = elim (Bool-cases has_bus) [
    | inl h ↦
        rw h (step-IsWaiting (publishing (shutdown_requested (codes "signal:" ++ name))) i n b tt w)
    | inr h ↦ rw h w
  ]

  -- A done context stays done.
  bridge_turn-ctx_done :
      (turn : Turn) (b : Bridge)
      → b.ctx_done ≡ true
      → (bridge_turn has_bus i turn b).ctx_done ≡ true
  unfolding bridge_turn on_channel on_event
  bridge_turn-ctx_done sees_done b h = ground arith
  bridge_turn-ctx_done (sees_signal name) b h = h
  bridge_turn-ctx_done takes_event b h = ground arith
  bridge_turn-ctx_done (others op) b h = h
  bridge_turn-ctx_done others_cancel b h = refl

  run_bridge-ctx_done :
      (turns : List Turn) (b : Bridge)
      → b.ctx_done ≡ true
      → (run_bridge has_bus i turns b).ctx_done ≡ true
  unfolding run_bridge
  run_bridge-ctx_done [] b h = h
  run_bridge-ctx_done (turn ∷ turns) b h = elim (Bool-cases (b.returned && not (is_others turn))) [
    | inl idle ↦ rw (run_bridge, idle) (run_bridge-ctx_done turns b h)
    | inr busy ↦
        rw (run_bridge, busy)
          (run_bridge-ctx_done turns (bridge_turn has_bus i turn b) (bridge_turn-ctx_done turn b h))
  ]

  -- A bridge that waits does the next turn, whatever it is.
  run_bridge-cons :
      (turn : Turn) (turns : List Turn) (b : Bridge)
      → b.returned ≡ false
      → run_bridge has_bus i (turn ∷ turns) b
        ≡ run_bridge has_bus i turns (bridge_turn has_bus i turn b)
  unfolding run_bridge
  run_bridge-cons turn turns b h = simp (run_bridge, h)

  others_free :
      (op : Op Event) (turns : List Turn)
      → AreOthers i (others op ∷ turns)
      → AreOthers i (others op ∷ []) × AreOthers i turns
  others_free (subscribing buffer) turns free = (tt, free)
  others_free (cancelling j) turns free = (tt, free)
  others_free (publishing evt) turns free = (tt, free)
  others_free (receiving j) turns free = ((free.0, tt), free.1)

  others-IsWaiting :
      (op : Op Event) (n : ℕ) (b : Bridge)
      → AreOthers i (others op ∷ [])
      → IsWaiting i n b
      → IsWaiting i n (bridge_turn has_bus i (others op) b)
  unfolding bridge_turn
  others-IsWaiting op n b free w = step-IsWaiting op i n b free w

  cancelled : (b : Bridge) → (bridge_turn has_bus i others_cancel b).ctx_done ≡ true
  unfolding bridge_turn
  cancelled b = refl

  sees_done_cases :
      (b : Bridge)
      → ((b.ctx_done ≡ true) × ((bridge_turn has_bus i sees_done b).returned ≡ true))
        ⊎ (bridge_turn has_bus i sees_done b ≡ b)
  unfolding bridge_turn
  sees_done_cases b = elim (Bool-cases b.ctx_done) [
    | inl h ↦ simp (bridge_turn, h) (inl (refl, refl))
    | inr h ↦ inr (simp (bridge_turn, h))
  ]

  sees_signal-IsWaiting :
      (name : Text) (b : Bridge) (c : Channel Event)
      → has_bus ≡ true
      → b.returned ≡ false
      → channel_at b.bus i ≡ some c
      → c.subscribed ≡ true
      → length c.queue < c.capacity
      → IsWaiting i (length c.queue) (bridge_turn has_bus i (sees_signal name) b)
  unfolding bridge_turn request_shutdown step effect offer
  sees_signal-IsWaiting name b c bus running at live room =
      let request = shutdown_requested (codes "signal:" ++ name) in
      simp (bridge_turn, request_shutdown, bus)
        (record {
          running = running;
          channel = (
            offer request c,
            channel_at-step (publishing request) b.bus i at,
            ground (arith, is_pending-concat c.queue (codes "signal:" ++ name)),
          );
        })

  run_bridge_ends :
      (turns : List Turn) (n : ℕ) (b : Bridge)
      → AreOthers i turns
      → n < count_takes turns
      → IsWaiting i n b
      → (run_bridge has_bus i turns b).ctx_done ≡ true
  unfolding count_takes
  run_bridge_ends [] n b free enough w = absurd (omega arith)
  run_bridge_ends (takes_event ∷ turns) n b free enough w =
      ap (λ x. x.ctx_done) (run_bridge-cons takes_event turns b w.running)
      ∙ elim (takes_event-IsWaiting n b w) [
        | inl ended ↦ run_bridge-ctx_done turns (bridge_turn has_bus i takes_event b) ended
        | inr (m, is_suc, w') ↦
            run_bridge_ends turns m (bridge_turn has_bus i takes_event b) free (omega arith) w'
      ]
  run_bridge_ends (sees_signal name ∷ turns) n b free enough w =
      ap (λ x. x.ctx_done) (run_bridge-cons (sees_signal name) turns b w.running)
      ∙ run_bridge_ends turns n (bridge_turn has_bus i (sees_signal name) b) free enough
          (request_shutdown-IsWaiting n name b w)
  run_bridge_ends (others op ∷ turns) n b free enough w =
      ap (λ x. x.ctx_done) (run_bridge-cons (others op) turns b w.running)
      ∙ run_bridge_ends turns n (bridge_turn has_bus i (others op) b) (others_free op turns free).1
          enough (others-IsWaiting op n b (others_free op turns free).0 w)
  run_bridge_ends (others_cancel ∷ turns) n b free enough w =
      ap (λ x. x.ctx_done) (run_bridge-cons others_cancel turns b w.running)
      ∙ run_bridge-ctx_done turns (bridge_turn has_bus i others_cancel b) (cancelled b)
  run_bridge_ends (sees_done ∷ turns) n b free enough w =
      ap (λ x. x.ctx_done) (run_bridge-cons sees_done turns b w.running)
      ∙ elim (sees_done_cases b) [
        | inl (ended, same_bridge) ↦
            run_bridge-ctx_done turns (bridge_turn has_bus i sees_done b)
              (bridge_turn-ctx_done sees_done b ended)
        | inr same_bridge ↦
            ap (λ x. (run_bridge has_bus i turns x).ctx_done) same_bridge
            ∙ run_bridge_ends turns n b free enough w
      ]

  -- A signal ends the program: if the bus has room for the request in the channel of the bridge, and
  -- nobody else reads that channel, the context is done once the bridge has taken one event more
  -- than waited there, whatever else happens in between.
  pub run_bridge-sees_signal :
      (turns : List Turn) (name : Text) (b : Bridge) (c : Channel Event)
      → has_bus ≡ true
      → b.returned ≡ false
      → channel_at b.bus i ≡ some c
      → c.subscribed ≡ true
      → length c.queue < c.capacity
      → AreOthers i turns
      → length c.queue < count_takes turns
      → (run_bridge has_bus i (sees_signal name ∷ turns) b).ctx_done ≡ true
  run_bridge-sees_signal turns name b c bus running at live room free enough =
      ap (λ x. x.ctx_done) (run_bridge-cons (sees_signal name) turns b running)
      ∙ run_bridge_ends turns (length c.queue) (bridge_turn has_bus i (sees_signal name) b) free
          enough (sees_signal-IsWaiting name b c bus running at live room)
