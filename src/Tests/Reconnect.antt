-- ===== src/Tests/Reconnect.antt =====
-- A port that is detached and attached again.
use usbip_go.Prelude.{ℕ, ◌≡◌, refl, true, false, none, some, List, [], ◌∷◌, Any, arith}
use usbip_go.Io.Errors.{ok, sentinel, system}
use usbip_go.Io.Conn.{Conn, conn_reader}
use usbip_go.Io.Writers.{holding}
use usbip_go.Kernel.Ports.{Port}
use usbip_go.App.Tracking.{
  put, is_at, Tracker, new_tracker, reserve_attach_port, register_handle, new_port_handle_locked,
  cancel_if,
}
use usbip_go.App.Attaching.{AttachRequest, Peer}
use usbip_go.App.Detaching.{DetachPeer, Detaching, completed, detach, detach_handle}
use usbip_go.App.Detaching.Calls.{IsOnce, detach-IsOnce}
use usbip_go.App.Detaching.Owner.{IsDetached, detach_handle-IsDetached}
use usbip_go.App.Reconnect.{
  ReconnectParams, port_detached, by_uevent, Sight, event, timer, lost_by, wait_for_detach,
  wait_from, wait_for_detach_tick, is_detach_signal, is_current_handle, port_is_detached,
  listed_as_free, Round, Reconnecting, run_reconnect_loop, running,
}
use usbip_go.App.Reconnect.Evidence.{IsEvidence, wait_for_detach-IsEvidence}
use usbip_go.App.Reconnect.Attempts.{run_reconnect_loop-ends}
use usbip_go.App.Callbacks.{
  CallbackRequest, receives, returns, Happening, notifies, works, play, close,
}
use usbip_go.App.Callbacks.Latest.{IsLatest, notified, play-IsLatest}
use usbip_go.Tests.Samples.{bus_1_1_2, one_chunk}

abbrev held : Tracker
held = (register_handle (reserve_attach_port new_tracker 3).0 3 true 1).0

abbrev port_gone : DetachPeer
port_gone = record { answer = none; waiting = λ t. t; mutating = λ t. t }

abbrev tables : Detaching
tables = record { tracker = held; calls = [] }

detach-IsOnce_example : IsOnce 3 tables (detach port_gone (completed (λ t. t) ∷ []) tables 3)
detach-IsOnce_example = detach-IsOnce port_gone (completed (λ t. t) ∷ []) tables 3

detach_handle-IsDetached_example :
    IsDetached port_gone
      (record tables { tracker = cancel_if (some 1) held })
      3
      1
      (detach_handle port_gone tables 3 1)
detach_handle-IsDetached_example = detach_handle-IsDetached port_gone tables 3 1

abbrev watched : ReconnectParams
watched = record { handle = 1; port_id = 3; polls = true; max_attempts = 2 }

abbrev another_port : Port
another_port = record { id = 4; status = 3; speed = 2; device_id = 65538; local_bus_id = [] }

abbrev seen : List Sight
seen =
    timer held (ok (record another_port { id = 3 } ∷ []))
    ∷ event (port_detached 4) held (ok [])
    ∷ event (port_detached 3) held (ok (another_port ∷ []))
    ∷ []

seen_lost : wait_for_detach watched seen ≡ lost_by by_uevent
unfolding wait_for_detach wait_from wait_for_detach_tick is_detach_signal is_current_handle
    port_is_detached listed_as_free register_handle reserve_attach_port new_port_handle_locked put
    is_at
seen_lost = refl

wait_for_detach-IsEvidence_example : Any (IsEvidence watched by_uevent) seen
wait_for_detach-IsEvidence_example = wait_for_detach-IsEvidence watched seen by_uevent seen_lost

-- A peer that does not answer the dial.
abbrev unreachable : Peer Conn
unreachable = record {
  modules_error = none;
  dial_error = some (sentinel (system 0));
  request_conn = holding [];
  reply_conn = one_chunk [];
  chosen_port = ok 3;
  kernel_error = none;
  others = λ t. t;
}

abbrev again : AttachRequest
again = record {
  remote = 104 ∷ [];
  endpoint_error = none;
  bus_id = bus_1_1_2;
  has_negative_attempts = false;
  auto_reconnect = true;
}

abbrev failing : Round Conn
failing = record { delay = 500; is_cancelled = false; attach_peer = unreachable }

abbrev started : Reconnecting
started = record { tables = tables; effects = []; actions = [] }

run_reconnect_loop-ends_example :
    ¬ ((run_reconnect_loop port_gone again watched (failing ∷ failing ∷ []) started).1 ≡ running 3)
run_reconnect_loop-ends_example =
    run_reconnect_loop-ends port_gone again watched (failing ∷ failing ∷ []) started 3 refl
      (omega arith) (omega arith)

abbrev request_of : ℕ → CallbackRequest
request_of n = record { attempt = n; error = some (sentinel (system n)) }

-- Three attempts behind a callback that returns only during the third notification.
abbrev slow : List Happening
slow =
    notifies (returns ∷ receives ∷ []) [] (request_of 3)
    ∷ notifies [] [] (request_of 2)
    ∷ works (receives ∷ [])
    ∷ notifies [] [] (request_of 1)
    ∷ []

play-IsLatest_example : IsLatest (close (play slow)) (notified slow)
play-IsLatest_example = play-IsLatest slow
