-- ===== src/Tests/Serving.antt =====
-- An exporter that serves one mouse to one client.
use usbip_go.Prelude.{
  ◌≡◌, inl, inr, refl, subst, true, false, none, some, List, [], ◌∷◌, Any, arith, append-nil,
}
use usbip_go.Io.Errors.{ok, ok-injective}
use usbip_go.Io.Conn.{Conn, conn_reader}
use usbip_go.Io.Writers.{output, holding}
use usbip_go.Domain.Device.{Device}
use usbip_go.Domain.BusId.{validate_wire_bus_id, all_wire_runes}
use usbip_go.Kernel.Text.{text_eq}
use usbip_go.Wire.Layout.Codec.{IsEncodable}
use usbip_go.Wire.ImportOp.{encode_op_req_import}
use usbip_go.App.Sessions.{Limits, new_registry}
use usbip_go.App.Handoff.{
  new_handle, complete_without_disconnect, complete_without_disconnect_locked, claim_cleanup_locked,
}
use usbip_go.App.Watch.{
  client_gone, Signal, event, poll, port_detached, initial_watch, wait_for_session_end,
  wait_for_session_end_tick, session_poll_tick, session_event_tick, export_session_inactive,
  event_ends_session_for_bus_id, completed_session_end_tick,
}
use usbip_go.App.Watch.Ending.{
  IsEvidence, IsOver, wait_for_session_end-IsEvidence, wait_for_session_end-polled,
}
use usbip_go.App.Serving.{
  Host, Serving, import_bus_id, handle_conn, lookup_exported_device, find_device,
}
use usbip_go.App.Serving.Reply.{conn_of, lookup_result}
use usbip_go.App.Serving.Client.{ClientSees, import_request-ClientSees}
use usbip_go.App.Serving.Lifecycle.{IsServed, import_bus_id-IsServed}
use usbip_go.Tests.Samples.{bus_1_1_2, mouse, mouse-IsEncodable, one_chunk}

abbrev mouse_host : Host
mouse_host = record {
  exported_devices = ok (mouse ∷ []);
  session_id = ok 7;
  subscription = none;
  cancelled_before = false;
  export_answer = none;
  cancelled_during = false;
  disconnect_answer = none;
  has_activity = true;
  polls = true;
  signals = event (port_detached bus_1_1_2) ∷ poll (ok true) ∷ poll (ok false) ∷ [];
  others = λ r. r;
}

abbrev two_each : Limits
two_each = record { max_sessions = 2; max_sessions_per_peer = 2 }

abbrev fresh : Serving
fresh = record { conn = holding []; registry = new_registry; handle = new_handle; effects = [] }

abbrev request : Conn
request = one_chunk (output (encode_op_req_import bus_1_1_2))

abbrev reply : Conn
reply = one_chunk (conn_of (handle_conn mouse_host two_each 4096 [] request fresh)).written

request_valid : validate_wire_bus_id bus_1_1_2 ≡ ok bus_1_1_2
unfolding validate_wire_bus_id all_wire_runes
request_valid = refl

listed-IsEncodable :
    (dev : Device) → lookup_result mouse_host two_each [] bus_1_1_2 fresh ≡ ok dev → IsEncodable dev
unfolding lookup_exported_device find_device text_eq
listed-IsEncodable dev h = subst IsEncodable (ok-injective h) mouse-IsEncodable

import_request-ClientSees_example : ClientSees mouse_host two_each [] bus_1_1_2 fresh reply
import_request-ClientSees_example =
    import_request-ClientSees mouse_host two_each 4096 [] bus_1_1_2 [] fresh request reply
      request_valid refl (omega arith) refl listed-IsEncodable (append-nil _)

import_bus_id-IsServed_example :
    IsServed mouse_host two_each [] bus_1_1_2 fresh
      (import_bus_id mouse_host two_each [] bus_1_1_2 fresh)
import_bus_id-IsServed_example = import_bus_id-IsServed mouse_host two_each [] bus_1_1_2 fresh

abbrev seen : List Signal
seen = event (port_detached bus_1_1_2) ∷ poll (ok true) ∷ poll (ok false) ∷ []

seen_gone :
    wait_for_session_end bus_1_1_2 (initial_watch true true) new_handle seen
    ≡ some (client_gone, (complete_without_disconnect new_handle).0)
unfolding wait_for_session_end wait_for_session_end_tick session_poll_tick session_event_tick
    export_session_inactive event_ends_session_for_bus_id completed_session_end_tick
    complete_without_disconnect complete_without_disconnect_locked claim_cleanup_locked
seen_gone = refl

wait_for_session_end-IsEvidence_example : Any (IsEvidence bus_1_1_2) seen
wait_for_session_end-IsEvidence_example =
    wait_for_session_end-IsEvidence bus_1_1_2 (initial_watch true true) new_handle seen _ seen_gone

wait_for_session_end-polled_example :
    IsOver (wait_for_session_end bus_1_1_2 (initial_watch true true) new_handle seen)
wait_for_session_end-polled_example =
    wait_for_session_end-polled bus_1_1_2 (initial_watch true true) new_handle seen refl
      (inr (inr (inl refl)))
