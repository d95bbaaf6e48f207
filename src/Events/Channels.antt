-- ===== src/Events/Channels.antt =====
-- What every channel of the bus satisfies, and what each operation does to one of them.
use p2pos.Events.{
  receive, cancel, take_event, channel_at, Bus, offer, Channel, publish, update_at, cancel_channel,
  subscribe,
}
use p2pos.Common.{
  ne_of_==, eq_of_==, Bool-cases, ◌∙◌, inr, inl, ◌==◌, if◌then◌else◌, ap, suc, zero, false, refl,
  true, ◌≤◌, [], some, ◌∷◌, length, length-append, ◌≡◌, arith, ◌++◌, ◌≢◌, ◌<◌, All, List, ℕ,
}

pub data Op {ℓ} (A : Type ℓ) : Type ℓ where
  subscribing : ℕ → Op A
  cancelling : ℕ → Op A
  publishing : A → Op A
  receiving : ℕ → Op A

module _ {ℓ} {A : Type ℓ} where
  -- A channel holds no more than its buffer, which has room for one event at least, and what the
  -- bus still holds is not closed: no event is sent on a closed channel.
  pub record IsSound (c : Channel A) : Type 0 where
    pub positive : 0 < c.capacity
    pub bounded : length c.queue ≤ c.capacity
    pub live : c.subscribed ≡ true → c.closed ≡ false

  abbrev pub AreSound : Bus A → Type 0
  AreSound = All IsSound

  unfoldable pub step : Op A → Bus A → Bus A
  step (subscribing buffer) bus = (subscribe buffer bus).0
  step (cancelling i) bus = cancel i bus
  step (publishing evt) bus = publish evt bus
  step (receiving i) bus = receive i bus

  unfoldable pub run : List (Op A) → Bus A → Bus A
  run [] bus = bus
  run (op ∷ ops) bus = run ops (step op bus)

  update_at-AreSound :
      (f : Channel A → Channel A) (i : ℕ) (bus : Bus A)
      → ((c : Channel A) → IsSound c → IsSound (f c))
      → AreSound bus
      → AreSound (update_at f i bus)
  unfolding update_at
  update_at-AreSound f i [] h s = tt
  update_at-AreSound f zero (c ∷ bus) h s = (h c s.0, s.1)
  update_at-AreSound f (suc i) (c ∷ bus) h s = (s.0, update_at-AreSound f i bus h s.1)

  cancel_channel-IsSound : (c : Channel A) → IsSound c → IsSound (cancel_channel c)
  unfolding cancel_channel
  cancel_channel-IsSound c s = ground arith

  take_event-IsSound : (c : Channel A) → IsSound c → IsSound (take_event c)
  unfolding take_event
  take_event-IsSound c s = ground arith

  offer-IsSound : (evt : A) (c : Channel A) → IsSound c → IsSound (offer evt c)
  unfolding offer
  offer-IsSound evt c s = ground (arith, length-append c.queue (evt ∷ []))

  publish-AreSound : (evt : A) (bus : Bus A) → AreSound bus → AreSound (publish evt bus)
  unfolding publish
  publish-AreSound evt [] s = tt
  publish-AreSound evt (c ∷ bus) s = (offer-IsSound evt c s.0, publish-AreSound evt bus s.1)

  concat-AreSound :
      (bus : Bus A) (c : Channel A) → AreSound bus → IsSound c → AreSound (bus ++ c ∷ [])
  concat-AreSound [] c s h = (h, tt)
  concat-AreSound (d ∷ bus) c s h = (s.0, concat-AreSound bus c s.1 h)

  step-AreSound : (op : Op A) (bus : Bus A) → AreSound bus → AreSound (step op bus)
  unfolding step subscribe cancel receive
  step-AreSound (subscribing buffer) bus s = concat-AreSound bus _ s (ground arith)
  step-AreSound (cancelling i) bus s =
      update_at-AreSound cancel_channel i bus cancel_channel-IsSound s
  step-AreSound (publishing evt) bus s = publish-AreSound evt bus s
  step-AreSound (receiving i) bus s = update_at-AreSound take_event i bus take_event-IsSound s

  -- Whatever is done with a bus, in any order, its channels stay sound: no buffer overflows, and
  -- Publish never sends on a closed channel.
  pub run-AreSound : (ops : List (Op A)) (bus : Bus A) → AreSound bus → AreSound (run ops bus)
  unfolding run
  run-AreSound [] bus s = s
  run-AreSound (op ∷ ops) bus s = run-AreSound ops (step op bus) (step-AreSound op bus s)

  pub channel_at-publish :
      (evt : A) (bus : Bus A) (i : ℕ) {c : Channel A}
      → channel_at bus i ≡ some c
      → channel_at (publish evt bus) i ≡ some (offer evt c)
  unfolding channel_at publish
  channel_at-publish evt [] i h = cc
  channel_at-publish evt (d ∷ bus) zero h = ground arith
  channel_at-publish evt (d ∷ bus) (suc i) h = channel_at-publish evt bus i h

  channel_at-update_at_self :
      (f : Channel A → Channel A) (i : ℕ) (bus : Bus A) {c : Channel A}
      → channel_at bus i ≡ some c
      → channel_at (update_at f i bus) i ≡ some (f c)
  unfolding channel_at update_at
  channel_at-update_at_self f i [] h = cc
  channel_at-update_at_self f zero (d ∷ bus) h = ground arith
  channel_at-update_at_self f (suc i) (d ∷ bus) h = channel_at-update_at_self f i bus h

  channel_at-update_at_ne :
      (f : Channel A → Channel A) (i j : ℕ) (bus : Bus A)
      → i ≢ j
      → channel_at (update_at f i bus) j ≡ channel_at bus j
  unfolding channel_at update_at
  channel_at-update_at_ne f i j [] h = refl
  channel_at-update_at_ne f zero zero (d ∷ bus) h = absurd (h refl)
  channel_at-update_at_ne f zero (suc j) (d ∷ bus) h = refl
  channel_at-update_at_ne f (suc i) zero (d ∷ bus) h = refl
  channel_at-update_at_ne f (suc i) (suc j) (d ∷ bus) h =
      channel_at-update_at_ne f i j bus (λ e. h (ap suc e))

  channel_at-update_at :
      (f : Channel A → Channel A) (j i : ℕ) (bus : Bus A) {c : Channel A}
      → channel_at bus i ≡ some c
      → channel_at (update_at f j bus) i ≡ some (if j == i then f c else c)
  channel_at-update_at f j i bus {c} h = elim (Bool-cases (j == i)) [
    | inl e ↦ rw (e, eq_of_== j i e) (channel_at-update_at_self f i bus h)
    | inr e ↦ rw e (channel_at-update_at_ne f j i bus (ne_of_== j i e) ∙ h)
  ]

  channel_at-concat :
      (bus : Bus A) (d : Channel A) (i : ℕ) {c : Channel A}
      → channel_at bus i ≡ some c
      → channel_at (bus ++ d ∷ []) i ≡ some c
  unfolding channel_at
  channel_at-concat [] d i h = cc
  channel_at-concat (b ∷ bus) d zero h = h
  channel_at-concat (b ∷ bus) d (suc i) h = channel_at-concat bus d i h

  channel_at_last : (bus : Bus A) (d : Channel A) → channel_at (bus ++ d ∷ []) (length bus) ≡ some d
  unfolding channel_at
  channel_at_last [] d = refl
  channel_at_last (b ∷ bus) d = channel_at_last bus d

  -- What an operation does to the channel with the number i, seen from that channel alone.
  unfoldable pub effect : Op A → ℕ → Channel A → Channel A
  effect (subscribing buffer) i c = c
  effect (cancelling j) i c = if j == i then cancel_channel c else c
  effect (publishing evt) i c = offer evt c
  effect (receiving j) i c = if j == i then take_event c else c

  -- No operation on one channel touches another, but for Publish, which offers the event to each.
  pub channel_at-step :
      (op : Op A) (bus : Bus A) (i : ℕ) {c : Channel A}
      → channel_at bus i ≡ some c
      → channel_at (step op bus) i ≡ some (effect op i c)
  unfolding step effect subscribe cancel receive
  channel_at-step (subscribing buffer) bus i h = channel_at-concat bus _ i h
  channel_at-step (cancelling j) bus i h = channel_at-update_at cancel_channel j i bus h
  channel_at-step (publishing evt) bus i h = channel_at-publish evt bus i h
  channel_at-step (receiving j) bus i h = channel_at-update_at take_event j i bus h
