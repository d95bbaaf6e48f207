-- ===== src/App/Shutdown/Pending.antt =====
-- The requests that wait for the bridge.
use p2pos.Events.Payload.{Event, shutdown_requested}
use p2pos.App.Shutdown.{is_shutdown, Turn, Bridge, takes_event, others}
use p2pos.Text.{Text}
use p2pos.Common.{
  Bool-cases, inr, inl, [], ◌==◌, ◌⊎◌, ◌||◌, ◌++◌, ◌∷◌, ◌≡◌, Bool, List, ℕ, arith, length, refl,
  false, true, some, suc, zero,
}
use p2pos.Events.{Bus, cancel_channel, Channel, channel_at, offer, receive, take_event}
use p2pos.Events.Channels.{
  receiving, cancelling, subscribing, publishing, Op, step, effect, channel_at-step,
}

-- A request stands among the first n + 1 events of a buffer.
unfoldable pub is_pending : ℕ → List Event → Bool
is_pending n [] = false
is_pending zero (evt ∷ q) = is_shutdown evt
is_pending (suc n) (evt ∷ q) = is_shutdown evt || is_pending n q

pub is_pending-append :
    (n : ℕ) (q r : List Event) → is_pending n q ≡ true → is_pending n (q ++ r) ≡ true
unfolding is_pending
is_pending-append n [] r h = absurd (cc)
is_pending-append zero (evt ∷ q) r h = h
is_pending-append (suc n) (evt ∷ q) r h = ground (arith, is_pending-append n q r)

pub is_pending-concat :
    (q : List Event) (reason : Text)
    → is_pending (length q) (q ++ shutdown_requested reason ∷ []) ≡ true
unfolding is_pending
is_pending-concat [] reason = refl
is_pending-concat (evt ∷ q) reason = ground (arith, is_pending-concat q reason)

-- The operations on the bus of other goroutines do not read the channel of the bridge.
abbrev pub AreOthers : ℕ → List Turn → Type 0
AreOthers i [] = Unit
AreOthers i (others (receiving j) ∷ turns) = ((j == i) ≡ false) × AreOthers i turns
AreOthers i (_ ∷ turns) = AreOthers i turns

unfoldable pub count_takes : List Turn → ℕ
count_takes [] = 0
count_takes (takes_event ∷ turns) = suc (count_takes turns)
count_takes (_ ∷ turns) = count_takes turns

-- The bridge runs, and a request is among the first n + 1 events that wait for it.
pub record IsWaiting (i n : ℕ) (b : Bridge) : Type 0 where
  pub running : b.returned ≡ false
  pub channel : (c : Channel Event) × (channel_at b.bus i ≡ some c) × (is_pending n c.queue ≡ true)

pub effect-is_pending :
    (op : Op Event) (i n : ℕ) (c : Channel Event)
    → AreOthers i (others op ∷ [])
    → is_pending n c.queue ≡ true
    → is_pending n (effect op i c).queue ≡ true
unfolding effect offer cancel_channel
effect-is_pending (subscribing buffer) i n c free h = h
effect-is_pending (cancelling j) i n c free h = ground arith
effect-is_pending (publishing evt) i n c free h =
    ground (arith, is_pending-append n c.queue (evt ∷ []))
effect-is_pending (receiving j) i n c free h = rw free.0 h

pub step-IsWaiting :
    (op : Op Event) (i n : ℕ) (b : Bridge)
    → AreOthers i (others op ∷ [])
    → IsWaiting i n b
    → IsWaiting i n (record b { bus = step op b.bus })
step-IsWaiting op i n b free w =
    let (c, at, pending) = w.channel in
    record {
      running = w.running;
      channel =
          (effect op i c, channel_at-step op b.bus i at, effect-is_pending op i n c free pending);
    }

pub pending_cases :
    (n : ℕ) (q : List Event)
    → is_pending n q ≡ true
    → (evt : Event) × (rest : List Event) × (q ≡ evt ∷ rest)
      × ((is_shutdown evt ≡ true)
          ⊎ ((is_shutdown evt ≡ false) × ((m : ℕ) × (n ≡ suc m) × (is_pending m rest ≡ true))))
unfolding is_pending
pending_cases n [] h = absurd (cc)
pending_cases zero (evt ∷ q) h = (evt, q, refl, inl h)
pending_cases (suc n) (evt ∷ q) h = elim (Bool-cases (is_shutdown evt)) [
  | inl e ↦ (evt, q, refl, inl e)
  | inr e ↦ (evt, q, refl, inr (e, (n, refl, ground arith)))
]

pub channel_at-receive :
    (i : ℕ) (bus : Bus Event) (c : Channel Event) (evt : Event) (rest : List Event)
    → channel_at bus i ≡ some c
    → c.queue ≡ evt ∷ rest
    → (c' : Channel Event) × (channel_at (receive i bus) i ≡ some c') × (c'.queue ≡ rest)
unfolding step effect take_event
channel_at-receive i bus c evt rest at q =
    (effect (receiving i) i c, channel_at-step (receiving i) bus i at, ground arith)
