-- ===== src/App/Shutdown/Quiet.antt =====
-- Nothing but a request or another cancellation ends the program.
use p2pos.Events.Payload.{Event}
use p2pos.App.Shutdown.{
  on_event, is_others, on_channel, bridge_turn, run_bridge, start_shutdown_bridge, sees_done,
  takes_event, is_shutdown, Turn, Bridge, others_cancel, others, sees_signal,
}
use p2pos.Common.{
  Bool-cases, ◌∙◌, All, length, refl, inr, inl, [], ◌&&◌, ◌++◌, ◌∷◌, ◌≡◌, Bool, List, ℕ, not, ap,
  arith, false, true, some,
}
use p2pos.Events.{subscribe, cancel_channel, Channel, channel_at, offer, take_event, Bus}
use p2pos.Events.Channels.{
  cancelling, receiving, publishing, subscribing, Op, step, effect, channel_at-step,
}
use p2pos.App.Shutdown.Pending.{channel_at-receive}

unfoldable no_request : List Event → Bool
no_request [] = true
no_request (evt ∷ q) = not (is_shutdown evt) && no_request q

-- A turn that asks for no shutdown and does not cancel.
abbrev pub is_quiet : Turn → Bool
is_quiet (sees_signal name) = false
is_quiet (others (publishing evt)) = not (is_shutdown evt)
is_quiet others_cancel = false
is_quiet _ = true

-- The context is not done, and no request waits for the bridge.
record IsCalm (i : ℕ) (b : Bridge) : Type 0 where
  going : b.ctx_done ≡ false
  channel : (c : Channel Event) × (channel_at b.bus i ≡ some c) × (no_request c.queue ≡ true)

no_request-concat :
    (q : List Event) (evt : Event)
    → no_request q ≡ true
    → is_shutdown evt ≡ false
    → no_request (q ++ evt ∷ []) ≡ true
unfolding no_request
no_request-concat [] evt h k = ground arith
no_request-concat (x ∷ q) evt h k = ground (arith, no_request-concat q evt)

no_request-tail :
    (q : List Event) (evt : Event) (rest : List Event)
    → q ≡ evt ∷ rest
    → no_request q ≡ true
    → (is_shutdown evt ≡ false) × (no_request rest ≡ true)
unfolding no_request
no_request-tail [] evt rest e h = absurd (cc)
no_request-tail (x ∷ q) evt rest e h = ground (arith, ap (λ xs. no_request xs) e)

no_request-take_event :
    (c : Channel Event) → no_request c.queue ≡ true → no_request (take_event c).queue ≡ true
unfolding take_event no_request
no_request-take_event c h = ground arith

no_request-effect :
    (op : Op Event) (i : ℕ) (c : Channel Event)
    → is_quiet (others op) ≡ true
    → no_request c.queue ≡ true
    → no_request (effect op i c).queue ≡ true
unfolding effect offer cancel_channel
no_request-effect (subscribing buffer) i c free h = h
no_request-effect (cancelling j) i c free h = ground arith
no_request-effect (publishing evt) i c free h = ground (arith, no_request-concat c.queue evt)
no_request-effect (receiving j) i c free h = ground (arith, no_request-take_event c)

step-IsCalm :
    (op : Op Event) (i : ℕ) (b : Bridge)
    → is_quiet (others op) ≡ true
    → IsCalm i b
    → IsCalm i (record b { bus = step op b.bus })
step-IsCalm op i b quiet calm =
    let (c, at, none_waits) = calm.channel in
    record {
      going = calm.going;
      channel =
          (effect op i c, channel_at-step op b.bus i at, no_request-effect op i c quiet none_waits);
    }

module _ (has_bus : Bool) (i : ℕ) where
  takes_event-IsCalm : (b : Bridge) → IsCalm i b → IsCalm i (bridge_turn has_bus i takes_event b)
  unfolding bridge_turn on_channel on_event
  takes_event-IsCalm b calm =
      let (c, at, none_waits) = calm.channel in by_queue c at none_waits c.queue refl
    where
      by_queue :
          (c : Channel Event)
          → channel_at b.bus i ≡ some c
          → no_request c.queue ≡ true
          → (q : List Event) → c.queue ≡ q
          → IsCalm i (bridge_turn has_bus i takes_event b)
      by_queue c at h [] e = elim (Bool-cases c.closed) [
        | inl closed ↦
            simp (bridge_turn, on_channel, at, e, closed)
              (record { going = calm.going; channel = (c, at, h) })
        | inr live ↦ simp (bridge_turn, on_channel, at, e, live) calm
      ]
      by_queue c at h (evt ∷ rest) e =
          let (other, rest_quiet) = no_request-tail c.queue evt rest e h in
          let (c', at', q') = channel_at-receive i b.bus c evt rest at e in
          simp (bridge_turn, on_channel, on_event, at, e, other)
            (record { going = calm.going; channel = (c', at', ap no_request q' ∙ rest_quiet) })

  bridge_turn-IsCalm :
      (turn : Turn) (b : Bridge)
      → is_quiet turn ≡ true
      → IsCalm i b
      → IsCalm i (bridge_turn has_bus i turn b)
  unfolding bridge_turn
  bridge_turn-IsCalm sees_done b quiet calm = simp (bridge_turn, calm.going) calm
  bridge_turn-IsCalm (sees_signal name) b quiet calm = absurd (cc)
  bridge_turn-IsCalm takes_event b quiet calm = takes_event-IsCalm b calm
  bridge_turn-IsCalm (others op) b quiet calm = step-IsCalm op i b quiet calm
  bridge_turn-IsCalm others_cancel b quiet calm = absurd (cc)

  run_bridge-IsCalm :
      (turns : List Turn) (b : Bridge)
      → All (λ turn. is_quiet turn ≡ true) turns
      → IsCalm i b
      → IsCalm i (run_bridge has_bus i turns b)
  unfolding run_bridge
  run_bridge-IsCalm [] b quiet calm = calm
  run_bridge-IsCalm (turn ∷ turns) b quiet calm =
      elim (Bool-cases (b.returned && not (is_others turn))) [
        | inl idle ↦ rw (run_bridge, idle) (run_bridge-IsCalm turns b quiet.1 calm)
        | inr busy ↦
            rw (run_bridge, busy)
              (run_bridge-IsCalm turns (bridge_turn has_bus i turn b) quiet.1
                (bridge_turn-IsCalm turn b quiet.0 calm))
      ]

channel_at_last :
    (xs : Bus Event) (c : Channel Event) → channel_at (xs ++ c ∷ []) (length xs) ≡ some c
unfolding channel_at
channel_at_last [] c = refl
channel_at_last (x ∷ xs) c = channel_at_last xs c

-- A bridge that has just started, and to which no signal comes, does not end the program, as long as
-- nobody publishes a request for it or cancels the context.
pub run_bridge_quiet :
    (has_bus : Bool) (bus : Bus Event) (turns : List Turn)
    → All (λ turn. is_quiet turn ≡ true) turns
    → let (b, i) = start_shutdown_bridge false bus in
      (run_bridge has_bus i turns b).ctx_done ≡ false
unfolding start_shutdown_bridge subscribe no_request
run_bridge_quiet has_bus bus turns quiet =
    (run_bridge-IsCalm has_bus (length bus) turns _ quiet (record {
      going = refl;
      channel = (
        record { capacity = 64; queue = []; subscribed = true; closed = false },
        channel_at_last bus _,
        refl,
      );
    })).going
