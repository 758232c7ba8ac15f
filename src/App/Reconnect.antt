-- ===== src/App/Reconnect.antt =====
-- internal/app/reconnect.go: the watcher of an attached port, which waits for its detachment and then
-- attaches the device again.
pub mod Evidence
pub mod Counts
pub mod Rounds
pub mod Follows
pub mod Attempts
use usbip_go.Prelude.{
  ℕ, suc, ◌+◌, ◌-◌, leb, Bool, true, false, not, ◌&&◌, ◌||◌, Option, none, some, List, [], ◌∷◌,
  ◌==◌, if◌then◌else◌,
}
use usbip_go.Io.Errors.{
  Error, Result, ok, err, wrap, sentinel, errors_is, importer_closed, port_lost,
}
use usbip_go.Kernel.Ports.{Port, status_null}
use usbip_go.App.Tracking.{Tracker, is_at, delete_exact_handle}
use usbip_go.Io.Readers.{IoReader}
use usbip_go.App.Attaching.{AttachRequest, Peer, Effect, Attaching, attach}
use usbip_go.App.Detaching.{DetachPeer, Detaching, detach_exact_handle}

-- reconnectParams: the handle by its generation, its port, whether StatusPollInterval is positive, and
-- MaxAttempts, 0 for no limit.
pub record ReconnectParams : Type 0 where
  pub handle : ℕ
  pub port_id : ℕ
  pub polls : Bool
  pub max_attempts : ℕ

-- domain.Event, as far as the watcher tells them apart.
pub data Event : Type 0 where
  port_detached : ℕ → Event
  other_event : Event

-- reconnectSourceUevent and reconnectSourcePoll.
pub data Source : Type 0 where
  by_uevent by_poll : Source

-- The loop of portIsDetached over the ports of ListPorts.
unfoldable pub listed_as_free : List Port → ℕ → Bool
listed_as_free [] id = true
listed_as_free (p ∷ ports) id =
    let rest = listed_as_free ports id in if p.id == id then p.status == status_null else rest

-- portIsDetached, on what ListPorts answers.
unfoldable pub port_is_detached : Result (List Port) → ℕ → Bool
port_is_detached (err e) id = false
port_is_detached (ok ports) id = listed_as_free ports id

-- isCurrentHandle.
unfoldable pub is_current_handle : Tracker → ℕ → ℕ → Bool
is_current_handle t id g = is_at (t.handles id) g

-- isDetachSignal.
unfoldable pub is_detach_signal : Tracker → Result (List Port) → Event → ReconnectParams → Bool
is_detach_signal t ports other_event p = false
is_detach_signal t ports (port_detached id) p =
    if not (id == p.port_id)
    then false
    else if not (is_current_handle t p.port_id p.handle)
    then false
    else if not (port_is_detached ports p.port_id)
    then false
    else true

-- What the select of a tick can take: the cancellation, the closed channel of events, an event, or the
-- poll timer, the last two with the tables and the ports as they are looked up then.
pub data Sight : Type 0 where
  cancelled events_closed : Sight
  event : Event → Tracker → Result (List Port) → Sight
  timer : Tracker → Result (List Port) → Sight

-- detectTick; a timer that is not armed never fires.
pub data DetectTick : Type 0 where
  detected : Source → DetectTick
  stopped : DetectTick
  goes_on : Bool → DetectTick

-- waitForDetachTick.
unfoldable pub wait_for_detach_tick : ReconnectParams → Bool → Sight → DetectTick
wait_for_detach_tick p armed cancelled = stopped
wait_for_detach_tick p armed events_closed = stopped
wait_for_detach_tick p armed (event e t ports) =
    if is_detach_signal t ports e p then detected by_uevent else goes_on armed
wait_for_detach_tick p armed (timer t ports) =
    if armed
    then (if port_is_detached ports p.port_id && is_current_handle t p.port_id p.handle
        then detected by_poll
        else goes_on true)
    else goes_on false

-- How the wait ends: still waiting, cancelled, or with the source that saw the detachment.
pub data Detection : Type 0 where
  still_waiting : Detection
  gave_up : Detection
  lost_by : Source → Detection

abbrev pub next_tick : (Bool → Detection) → DetectTick → Detection
next_tick rest (detected source) = lost_by source
next_tick rest stopped = gave_up
next_tick rest (goes_on armed) = rest armed

-- The loop of waitForDetach.
unfoldable pub wait_from : ReconnectParams → Bool → List Sight → Detection
wait_from p armed [] = still_waiting
wait_from p armed (s ∷ sights) =
    next_tick (λ armed'. wait_from p armed' sights) (wait_for_detach_tick p armed s)

-- waitForDetach on what it sees.
unfoldable pub wait_for_detach : ReconnectParams → List Sight → Detection
wait_for_detach p sights = wait_from p p.polls sights

-- One round of runReconnectLoop: the delay that Backoff.Next answers, whether the context was
-- cancelled when the wait ends, and what the attachment meets.
pub record Round (R : Type 0) : Type 0 where
  pub delay : ℕ
  pub is_cancelled : Bool
  pub attach_peer : Peer R

-- What the loop does on its own: it arms the timer for `Next(attempt - 1)`, notifies the callback of an
-- attempt and the last error, attaches, or publishes PortReconnectExhaustedEvent.
pub data Action : Type 0 where
  armed_for : ℕ → ℕ → Action
  notified : ℕ → Error → Action
  attempted : ℕ → Action
  exhausted : ℕ → Error → Action

pub record Reconnecting : Type 0 where
  pub tables : Detaching
  pub effects : List Effect
  pub actions : List Action

-- How the loop ends: still running, cancelled, cancelled by Close, given up, or attached again, with
-- the new port and its handle.
pub data Ending : Type 0 where
  running canceled closed gave_up_after : ℕ → Ending
  reconnected rolled_back : ℕ → ℕ → Ending

abbrev pub set_tracker : Tracker → Reconnecting → Reconnecting
set_tracker t s = record s { tables = record s.tables { tracker = t } }

abbrev pub act : Action → Reconnecting → Reconnecting
act a s = record s { actions = a ∷ s.actions }

-- rollbackSupersededReconnect.
unfoldable pub rollback_superseded_reconnect : DetachPeer → Reconnecting → ℕ → ℕ → Reconnecting
rollback_superseded_reconnect peer s new_id fresh =
    if (s.tables.tracker.handle_at fresh).detaching
    then s
    else record s { tables = (detach_exact_handle peer s.tables new_id fresh).0 }

-- finishReconnectSuccess.
unfoldable pub finish_reconnect_success :
    DetachPeer → ReconnectParams → Reconnecting → ℕ → ℕ → Reconnecting × Ending
finish_reconnect_success peer p s new_id fresh =
    if (s.tables.tracker.handle_at p.handle).detaching
    then (rollback_superseded_reconnect peer s new_id fresh, rolled_back new_id fresh)
    else (
      set_tracker (delete_exact_handle s.tables.tracker p.port_id p.handle) s,
      reconnected new_id fresh,
    )

-- armBackoff.
unfoldable pub arm_backoff : ℕ → ℕ → Reconnecting → Reconnecting
arm_backoff delay attempt s = if delay == 0 then s else act (armed_for (attempt - 1) delay) s

-- The end of the loop whose attempts are used up.
unfoldable pub give_up : ReconnectParams → ℕ → Error → Reconnecting → Reconnecting × Ending
give_up p attempt last s =
    let attempts = attempt - 1 in
    (
      act (exhausted attempts last)
          (set_tracker (delete_exact_handle s.tables.tracker p.port_id p.handle) s),
      gave_up_after attempts,
    )

abbrev pub with_attaching : Reconnecting → Attaching → Reconnecting
with_attaching s a = record s {
  tables = record s.tables { tracker = a.tracker };
  effects = a.effects;
}

-- What a round makes of the answer of attach.
abbrev pub after_attach :
    DetachPeer
    → ReconnectParams
    → ℕ
    → (Error → Reconnecting → Reconnecting × Ending)
    → Reconnecting
    → Attaching × Result (ℕ × ℕ)
    → Reconnecting × Ending
after_attach peer p attempt rest s (a, ok (new_id, fresh)) =
    finish_reconnect_success peer p (with_attaching s a) new_id fresh
after_attach peer p attempt rest s (a, err e) =
    if errors_is e importer_closed
    then (with_attaching s a, closed attempt)
    else rest e (with_attaching s a)

-- The condition of the loop.
abbrev pub is_allowed : ReconnectParams → ℕ → Bool
is_allowed p attempt = p.max_attempts == 0 || leb attempt p.max_attempts

module _ {R : Type 0} ⦃io : IoReader R⦄ (peer : DetachPeer) (request : AttachRequest) where
  -- The body of the loop, with what it does next after an attempt that failed.
  unfoldable pub reconnect_round :
      ReconnectParams
      → Round R
      → ℕ
      → Error
      → (Error → Reconnecting → Reconnecting × Ending)
      → Reconnecting
      → Reconnecting × Ending
  reconnect_round p round attempt last rest s =
      let s' = act (notified attempt last) (arm_backoff round.delay attempt s) in
      if round.is_cancelled
      then (s', canceled attempt)
      else after_attach peer p attempt rest (act (attempted attempt) s') (
          attach round.attach_peer request
            (record { tracker = s'.tables.tracker; effects = s'.effects }))

  -- runReconnectLoop from an attempt on, on what its rounds meet.
  unfoldable pub reconnect_from :
      ReconnectParams → List (Round R) → ℕ → Error → Reconnecting → Reconnecting × Ending
  reconnect_from p [] attempt last s =
      if is_allowed p attempt then (s, running attempt) else give_up p attempt last s
  reconnect_from p (round ∷ rounds) attempt last s =
      let rest = reconnect_from p rounds (suc attempt) in
      if is_allowed p attempt
      then reconnect_round p round attempt last rest s
      else give_up p attempt last s

  -- runReconnectLoop.
  unfoldable pub run_reconnect_loop :
      ReconnectParams → List (Round R) → Reconnecting → Reconnecting × Ending
  run_reconnect_loop p rounds s = reconnect_from p rounds 1 (wrap (sentinel port_lost)) s
