-- ===== src/App/Watch.antt =====
-- internal/app/session.go: waiting for the end of a session that the kernel has taken.
pub mod Ending
use usbip_go.Prelude.{
  ℕ, Bool, true, false, not, ◌&&◌, Option, none, some, List, [], ◌∷◌, if◌then◌else◌,
}
use usbip_go.Io.Errors.{Error, Result, ok, err, errors_is, context_canceled}
use usbip_go.Kernel.Text.{text_eq}
use usbip_go.App.Handoff.{Handle, complete_without_disconnect, signal_cancel}

-- DisconnectReason.
pub data DisconnectReason : Type 0 where
  client_gone kernel_error reason_shutdown protocol_error : DisconnectReason

-- domain.Event, as far as the exporter tells them apart, with the bus id that it names.
pub data Event : Type 0 where
  device_unbound port_detached other_event : List ℕ → Event

-- What the loop can see next: that Shutdown closed the handle's `done`, an event, that the channel of
-- events was closed, or a tick of the poll timer; the last two with what a probe of the status
-- answers then. `cancelled` is a Shutdown elsewhere, in its call of signalCancel.
pub data Signal : Type 0 where
  cancelled done_closed : Signal
  event : Event → Signal
  events_closed poll : Result Bool → Signal

-- The channels that the loop still selects on, and whether the exporter can probe the status.
pub record Watch : Type 0 where
  pub has_events : Bool
  pub has_poll : Bool
  pub has_activity : Bool

-- sessionEndTick.
pub data Tick : Type 0 where
  ended : DisconnectReason → Handle → Tick
  goes_on : Watch → Handle → Tick

-- exportSessionInactive.
unfoldable pub export_session_inactive : Result Bool → Bool
export_session_inactive (err e) = false
export_session_inactive (ok active) = not active

-- eventEndsSessionForBusID.
unfoldable pub event_ends_session_for_bus_id : Event → List ℕ → Bool
event_ends_session_for_bus_id (device_unbound b) bus_id = text_eq b bus_id
event_ends_session_for_bus_id (port_detached b) bus_id = false
event_ends_session_for_bus_id (other_event b) bus_id = false

abbrev pub reason_of_claim : Handle × Bool → Tick
reason_of_claim (h, true) = ended client_gone h
reason_of_claim (h, false) = ended reason_shutdown h

-- completedSessionEndTick.
unfoldable pub completed_session_end_tick : Handle → Tick
completed_session_end_tick h = reason_of_claim (complete_without_disconnect h)

-- closedSessionEventsTick.
unfoldable pub closed_session_events_tick : Watch → Handle → Result Bool → Tick
closed_session_events_tick watch h probe =
    if watch.has_activity && export_session_inactive probe
    then completed_session_end_tick h
    else goes_on (record watch { has_events = false }) h

-- sessionEventTick, of an event.
unfoldable pub session_event_tick : List ℕ → Watch → Handle → Event → Tick
session_event_tick bus_id watch h e =
    if event_ends_session_for_bus_id e bus_id then completed_session_end_tick h else goes_on watch h

-- sessionPollTick.
unfoldable pub session_poll_tick : Watch → Handle → Result Bool → Tick
session_poll_tick watch h probe =
    if export_session_inactive probe
    then completed_session_end_tick h
    else goes_on (record watch { has_poll = true }) h

-- waitForSessionEndTick. A channel that is not selected on, or is not ready, takes nothing.
unfoldable pub wait_for_session_end_tick : List ℕ → Watch → Handle → Signal → Tick
wait_for_session_end_tick bus_id watch h cancelled = goes_on watch (signal_cancel h).0
wait_for_session_end_tick bus_id watch h done_closed =
    if h.cancelled then ended reason_shutdown h else goes_on watch h
wait_for_session_end_tick bus_id watch h (event e) =
    if watch.has_events then session_event_tick bus_id watch h e else goes_on watch h
wait_for_session_end_tick bus_id watch h (events_closed probe) =
    if watch.has_events then closed_session_events_tick watch h probe else goes_on watch h
wait_for_session_end_tick bus_id watch h (poll probe) =
    if watch.has_poll then session_poll_tick watch h probe else goes_on watch h

abbrev pub next_tick :
    (Watch → Handle → Option (DisconnectReason × Handle))
    → Tick
    → Option (DisconnectReason × Handle)
next_tick rest (ended reason h) = some (reason, h)
next_tick rest (goes_on watch h) = rest watch h

-- waitForSessionEnd on what it sees; `none` is a loop that still waits.
unfoldable pub wait_for_session_end :
    List ℕ → Watch → Handle → List Signal → Option (DisconnectReason × Handle)
wait_for_session_end bus_id watch h [] = none
wait_for_session_end bus_id watch h (s ∷ signals) =
    next_tick (λ watch' h'. wait_for_session_end bus_id watch' h' signals)
      (wait_for_session_end_tick bus_id watch h s)

-- The channels that waitForSessionEnd starts with.
abbrev pub initial_watch : Bool → Bool → Watch
initial_watch activity polls = record {
  has_events = true;
  has_poll = activity && polls;
  has_activity = activity;
}

-- classifyDisconnectReason.
unfoldable pub classify_disconnect_reason : Error → DisconnectReason
classify_disconnect_reason e =
    if errors_is e context_canceled then reason_shutdown else kernel_error
