-- ===== src/App/Shutdown.antt =====
-- internal/app/shutdown.go, and startShutdownBridge of internal/app/runtime.go: how a signal of the
-- operating system, or an event, ends the program. A run is the list of the turns that the bridge
-- and the others take.
pub mod Pending
pub mod Ending
pub mod Quiet
use p2pos.Text.{codes, Text}
use p2pos.Common.{[], ◌&&◌, ◌++◌, ◌∷◌, if◌then◌else◌, Bool, List, ℕ, not, false, true, some, none}
use p2pos.Events.{cancel, Bus, subscribe, receive, publish, channel_at, Channel}
use p2pos.Events.Channels.{Op, step}
use p2pos.Events.Payload.{shutdown_requested, Event}

-- RequestShutdown; `has_bus` is false for a nil receiver or a nil bus.
unfoldable pub request_shutdown : Bool → Text → Bus Event → Bus Event
request_shutdown has_bus reason bus =
    if has_bus then publish (shutdown_requested reason) bus else bus

-- The bus, whether the context is done, and whether the goroutine of the bridge has returned.
pub record Bridge : Type 0 where
  pub bus : Bus Event
  pub ctx_done : Bool
  pub returned : Bool

pub data Turn : Type 0 where
  -- a case of the select: `<-ctx.Done()`, `<-sigChan` with the signal's name, `<-shutdownEvents`
  sees_done : Turn
  sees_signal : Text → Turn
  takes_event : Turn
  -- something else uses the bus, or cancels the context
  others : Op Event → Turn
  others_cancel : Turn

-- startShutdownBridge: the bridge, and the number of its channel.
unfoldable pub start_shutdown_bridge : Bool → Bus Event → Bridge × ℕ
start_shutdown_bridge ctx_done bus =
    let (next, i) = subscribe 64 bus in
    (record { bus = next; ctx_done = ctx_done; returned = false }, i)

abbrev pub is_shutdown : Event → Bool
is_shutdown (shutdown_requested reason) = true
is_shutdown _ = false

-- The case `<-shutdownEvents` with an event.
unfoldable pub on_event : ℕ → Event → Bridge → Bridge
on_event i evt b =
    let next = record b { bus = receive i b.bus } in
    if is_shutdown evt then record next { ctx_done = true; returned = true } else next

-- The case `<-shutdownEvents`; a select does not take a case that has nothing to give.
unfoldable pub on_channel : ℕ → Channel Event → Bridge → Bridge
on_channel i c b = elim c.queue [
  | evt ∷ rest ↦ on_event i evt b
  | [] ↦ if c.closed then record b { returned = true } else b
]

-- A turn of the goroutine while it runs.
unfoldable pub bridge_turn : Bool → ℕ → Turn → Bridge → Bridge
bridge_turn has_bus i sees_done b = if b.ctx_done then record b { returned = true } else b
bridge_turn has_bus i (sees_signal name) b = record b {
  bus = request_shutdown has_bus (codes "signal:" ++ name) b.bus;
}
bridge_turn has_bus i takes_event b = elim (channel_at b.bus i) [
  | none ↦ b
  | some c ↦ on_channel i c b
]
bridge_turn has_bus i (others op) b = record b { bus = step op b.bus }
bridge_turn has_bus i others_cancel b = record b { ctx_done = true }

abbrev pub is_others : Turn → Bool
is_others (others op) = true
is_others others_cancel = true
is_others _ = false

unfoldable pub run_bridge : Bool → ℕ → List Turn → Bridge → Bridge
run_bridge has_bus i [] b = b
run_bridge has_bus i (turn ∷ rest) b =
    run_bridge has_bus i rest
      (if b.returned && not (is_others turn) then b else bridge_turn has_bus i turn b)

-- The function that startShutdownBridge returns; the signals that no longer arrive are no turns.
unfoldable pub stop_shutdown_bridge : ℕ → Bridge → Bridge
stop_shutdown_bridge i b = record b { bus = cancel i b.bus }
