-- ===== src/Events/Delivery.antt =====
-- What a subscriber receives: the published events in order, and all of them if there is room.
use mathlib.Core.List.{append_assoc, Sublistᴰ, append-nil}
use p2pos.Events.{offer, take_event, channel_at, Bus, cancel_channel, Channel}
use p2pos.Events.Channels.{
  receiving, publishing, subscribing, cancelling, channel_at-step, step, Op, effect, run,
}
use p2pos.Common.{
  length-append, ◌<◌, Bool-cases, ◌≤◌, ◌+◌, ◌∙◌, sym, ap, arith, refl, inr, inl, false, true, List,
  [], ◌==◌, ◌&&◌, ◌++◌, ◌∷◌, ◌≡◌, if◌then◌else◌, ℕ, ltb, length, some,
}

module _ {ℓ} {A : Type ℓ} where
  head_list : List A → List A
  head_list [] = []
  head_list (x ∷ xs) = x ∷ []

  -- What one operation hands to the reader of the channel i, and what it puts in its buffer.
  taken : Op A → ℕ → Channel A → List A
  taken (receiving j) i c = if j == i then head_list c.queue else []
  taken _ i c = []

  added : Op A → Channel A → List A
  added (publishing evt) c =
      if c.subscribed && ltb (length c.queue) c.capacity then evt ∷ [] else []
  added _ c = []

  -- The channel i after a run, the events that its reader took, and those that it was given, each
  -- oldest first.
  unfoldable pub watch : ℕ → List (Op A) → Channel A → Channel A
  watch i [] c = c
  watch i (op ∷ ops) c = watch i ops (effect op i c)

  unfoldable pub received : ℕ → List (Op A) → Channel A → List A
  unfolding taken head_list
  received i [] c = []
  received i (op ∷ ops) c = taken op i c ++ received i ops (effect op i c)

  unfoldable pub accepted : ℕ → List (Op A) → Channel A → List A
  unfolding added
  accepted i [] c = []
  accepted i (op ∷ ops) c = added op c ++ accepted i ops (effect op i c)

  unfoldable pub published : List (Op A) → List A
  published [] = []
  published (publishing evt ∷ ops) = evt ∷ published ops
  published (_ ∷ ops) = published ops

  -- A run on the bus is a run on each of its channels.
  pub channel_at-run :
      (ops : List (Op A)) (bus : Bus A) (i : ℕ) {c : Channel A}
      → channel_at bus i ≡ some c
      → channel_at (run ops bus) i ≡ some (watch i ops c)
  unfolding run watch
  channel_at-run [] bus i h = h
  channel_at-run (op ∷ ops) bus i h =
      channel_at-run ops (step op bus) i (channel_at-step op bus i h)

  taken-receive : (c : Channel A) → head_list c.queue ++ (take_event c).queue ≡ c.queue
  unfolding head_list take_event
  taken-receive c = by_queue c.queue refl
    where
      by_queue : (q : List A) → c.queue ≡ q → head_list c.queue ++ (take_event c).queue ≡ c.queue
      by_queue [] e = ground arith
      by_queue (x ∷ q) e = ground arith

  cancel_channel-queue : (c : Channel A) → (cancel_channel c).queue ≡ c.queue
  unfolding cancel_channel
  cancel_channel-queue c = ground arith

  -- What a step takes out of the buffer and leaves there is what was there and what it adds.
  effect-queue :
      (op : Op A) (i : ℕ) (c : Channel A)
      → taken op i c ++ (effect op i c).queue ≡ c.queue ++ added op c
  unfolding taken added effect offer
  effect-queue (subscribing b) i c = sym (append-nil c.queue)
  effect-queue (cancelling j) i c = ground (arith, cancel_channel-queue c, append-nil c.queue)
  effect-queue (publishing e) i c = ground (arith, append-nil c.queue)
  effect-queue (receiving j) i c = elim (Bool-cases (j == i)) [
    | inl h ↦ rw h (taken-receive c ∙ sym (append-nil c.queue))
    | inr h ↦ rw h (sym (append-nil c.queue))
  ]

  accepted-published :
      (i : ℕ) (ops : List (Op A)) (c : Channel A) → Sublistᴰ (accepted i ops c) (published ops)
  unfolding accepted published added effect
  accepted-published i [] c = Sublistᴰ.slnil
  accepted-published i (publishing e ∷ ops) c =
      elim (Bool-cases (c.subscribed && ltb (length c.queue) c.capacity)) [
        | inl h ↦ rw h (Sublistᴰ.cons-cons refl (accepted-published i ops (offer e c)))
        | inr h ↦ rw h (Sublistᴰ.cons (accepted-published i ops (offer e c)))
      ]
  accepted-published i (subscribing b ∷ ops) c = accepted-published i ops c
  accepted-published i (cancelling j ∷ ops) c = accepted-published i ops (effect (cancelling j) i c)
  accepted-published i (receiving j ∷ ops) c = accepted-published i ops (effect (receiving j) i c)

  received-queue :
      (i : ℕ) (ops : List (Op A)) (c : Channel A)
      → received i ops c ++ (watch i ops c).queue ≡ c.queue ++ accepted i ops c
  unfolding received watch accepted
  received-queue i [] c = sym (append-nil c.queue)
  received-queue i (op ∷ ops) c =
      append_assoc (taken op i c) (received i ops (effect op i c))
        (watch i ops (effect op i c)).queue
      ∙ ap (◌++◌ (taken op i c)) (received-queue i ops (effect op i c))
      ∙ sym (append_assoc (taken op i c) (effect op i c).queue (accepted i ops (effect op i c)))
      ∙ ap (λ q. q ++ accepted i ops (effect op i c)) (effect-queue op i c)
      ∙ append_assoc c.queue (added op c) (accepted i ops (effect op i c))

  -- A reader gets a selection of the published events in their order: what it has taken and what
  -- waits in its buffer are, one behind the other, what was in the buffer before and the events
  -- that found room.
  pub received_in_order :
      (i : ℕ) (ops : List (Op A)) (bus : Bus A) {c : Channel A}
      → channel_at bus i ≡ some c
      → (channel_at (run ops bus) i ≡ some (watch i ops c))
        × (received i ops c ++ (watch i ops c).queue ≡ c.queue ++ accepted i ops c)
        × Sublistᴰ (accepted i ops c) (published ops)
  received_in_order i ops bus {c} h =
      (channel_at-run ops bus i h, received-queue i ops c, accepted-published i ops c)

  -- The run does not cancel the channel i.
  abbrev pub KeepsOpen : ℕ → List (Op A) → Type 0
  KeepsOpen i [] = Unit
  KeepsOpen i (cancelling j ∷ ops) = ((j == i) ≡ false) × KeepsOpen i ops
  KeepsOpen i (_ ∷ ops) = KeepsOpen i ops

  length-take_event : (c : Channel A) → length (take_event c).queue ≤ length c.queue
  unfolding take_event
  length-take_event c = ground arith

  take_event-frame :
      (c : Channel A)
      → ((take_event c).subscribed ≡ c.subscribed) × ((take_event c).capacity ≡ c.capacity)
  unfolding take_event
  take_event-frame c = ground arith

  offer_room :
      (e : A) (c : Channel A)
      → c.subscribed ≡ true
      → length c.queue < c.capacity
      → ((offer e c).subscribed ≡ true)
        × (length (offer e c).queue ≡ length c.queue + 1)
        × ((offer e c).capacity ≡ c.capacity)
        × ((c.subscribed && ltb (length c.queue) c.capacity) ≡ true)
  unfolding offer
  offer_room e c s r = ground (arith, length-append c.queue (e ∷ []))

  -- No event is lost on a channel that is not cancelled, if its buffer has room for all that the
  -- run publishes.
  pub accepted_all :
      (i : ℕ) (ops : List (Op A)) (c : Channel A)
      → c.subscribed ≡ true
      → KeepsOpen i ops
      → length c.queue + length (published ops) ≤ c.capacity
      → accepted i ops c ≡ published ops
  unfolding accepted published added effect
  accepted_all i [] c s k r = refl
  accepted_all i (subscribing b ∷ ops) c s k r = accepted_all i ops c s k r
  accepted_all i (publishing e ∷ ops) c s k r =
      let (still, more, cap, fits) = offer_room e c s (omega arith) in
      rw fits (ap (◌∷◌ e) (accepted_all i ops (offer e c) still k (omega arith)))
  accepted_all i (cancelling j ∷ ops) c s k r = rw k.0 (accepted_all i ops c s k.1 r)
  accepted_all i (receiving j ∷ ops) c s k r = elim (Bool-cases (j == i)) [
    | inl h ↦
        let (same_sub, same_cap) = take_event-frame c in
        rw h
          (accepted_all i ops (take_event c) (same_sub ∙ s) k (omega (arith, length-take_event c)))
    | inr h ↦ rw h (accepted_all i ops c s k r)
  ]
