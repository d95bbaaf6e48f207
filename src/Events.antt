-- ===== src/Events.antt =====
-- internal/events/bus.go: the event bus, with its buffered channels. A channel is known by its
-- place in the bus; `subscribed` says that the map of the bus holds it.
pub mod Channels
pub mod Delivery
pub mod Payload
use p2pos.Common.{
  ℕ, zero, suc, ◌+◌, Bool, true, false, ◌&&◌, List, [], ◌∷◌, ◌++◌, Option, none, some,
  if◌then◌else◌, ltb, length,
}

pub record Channel {ℓ} (A : Type ℓ) : Type ℓ where
  pub capacity : ℕ
  pub queue : List A
  pub subscribed : Bool
  pub closed : Bool

abbrev pub Bus {ℓ} : Type ℓ → Type ℓ
Bus A = List (Channel A)

module _ {ℓ} {A : Type ℓ} where
  unfoldable pub channel_at : Bus A → ℕ → Option (Channel A)
  channel_at [] i = none
  channel_at (c ∷ bus) zero = some c
  channel_at (c ∷ bus) (suc i) = channel_at bus i

  unfoldable pub update_at : (Channel A → Channel A) → ℕ → Bus A → Bus A
  update_at f i [] = []
  update_at f zero (c ∷ bus) = f c ∷ bus
  update_at f (suc i) (c ∷ bus) = c ∷ update_at f i bus

  unfoldable pub new_bus : Bus A
  new_bus = []

  -- The number of the new channel is the number of the channels before. A buffer of 0 stands for
  -- every `buffer <= 0`.
  unfoldable pub subscribe : ℕ → Bus A → Bus A × ℕ
  subscribe buffer bus =
      let capacity = if ltb 0 buffer then buffer else 1 in
      (
        bus ++ record { capacity = capacity; queue = []; subscribed = true; closed = false } ∷ [],
        length bus,
      )

  -- the body of `cancel` for one channel: `delete(b.subs, ch); close(ch)`
  unfoldable pub cancel_channel : Channel A → Channel A
  cancel_channel c = if c.subscribed then record c { subscribed = false; closed = true } else c

  unfoldable pub cancel : ℕ → Bus A → Bus A
  cancel = update_at cancel_channel

  -- `select { case ch <- evt: default: }`
  unfoldable pub offer : A → Channel A → Channel A
  offer evt c =
      if c.subscribed && ltb (length c.queue) c.capacity
      then record c { queue = c.queue ++ evt ∷ [] }
      else c

  unfoldable pub publish : A → Bus A → Bus A
  publish evt [] = []
  publish evt (c ∷ bus) = offer evt c ∷ publish evt bus

  -- `<-ch` takes the oldest event; without one it waits, or sees that the channel is closed.
  unfoldable pub take_event : Channel A → Channel A
  take_event c = elim c.queue [ [] ↦ c | evt ∷ rest ↦ record c { queue = rest } ]

  unfoldable pub receive : ℕ → Bus A → Bus A
  receive = update_at take_event
