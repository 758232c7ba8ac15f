-- ===== src/Tests/Importing.antt =====
-- An importer that loses a device to a detach while it attaches it.
use usbip_go.Prelude.{ℕ, ◌≡◌, refl, true, some}
use usbip_go.Io.Errors.{ok}
use usbip_go.Prelude.{false, none, [], append-nil, ◌∷◌, ◌++◌}
use usbip_go.Io.Conn.{Conn, conn_reader}
use usbip_go.Io.Writers.{write, holding, output}
use usbip_go.Domain.BusId.{validate_wire_bus_id, all_wire_runes}
use usbip_go.Wire.ImportOp.{encode_op_req_import, encode_op_rep_import, decode_op_rep_import}
use usbip_go.Wire.Layout.Codec.{on_wire}
use usbip_go.Wire.Fields.{write_padded_string, DecodeFlags}
use usbip_go.App.Attaching.{
  AttachRequest, Peer, Attaching, perform_import_handshake, key_of, attach,
}
use usbip_go.App.Attaching.Handshake.{
  perform_import_handshake-ok, perform_import_handshake-answered,
}
use usbip_go.App.Attaching.Slots.{IsIdle, attach-IsIdle}
use usbip_go.Tests.Samples.{bus_1_1_2, mouse, mouse-IsEncodable, one_chunk}
use usbip_go.App.Tracking.{
  put, is_at, Tracker, new_tracker, reserve_attach_port, acquire_detach_target, on_reservation,
  register_handle, new_port_handle_locked,
}
use usbip_go.App.Tracking.Shrinking.{IsApart}
use usbip_go.App.Tracking.Apart.{IsReachable-IsApart}
use usbip_go.App.Tracking.Steps.{IsReachable, starts, continues, reserves, Run, stays, goes}
use usbip_go.App.Tracking.Teardown.{IsCompensated, register_handle-IsCompensated}

abbrev reserved : Tracker
reserved = (reserve_attach_port new_tracker 3).0

abbrev waited_for : Tracker
waited_for = (acquire_detach_target reserved 3).0

abbrev meanwhile : Tracker
meanwhile = (reserve_attach_port waited_for 4).0

abbrev attached : Tracker
attached = (register_handle meanwhile 3 true 1).0

reached_reserved : IsReachable reserved
reached_reserved = continues new_tracker reserved starts (reserves new_tracker 3)

target_waits : acquire_detach_target reserved 3 ≡ (waited_for, ok (on_reservation 1))
unfolding acquire_detach_target reserve_attach_port put
target_waits = refl

Run-meanwhile : Run waited_for meanwhile
Run-meanwhile = goes waited_for waited_for meanwhile (stays waited_for) (reserves waited_for 4)

registered : register_handle meanwhile 3 true 1 ≡ (attached, ok (1, some 1))
unfolding register_handle reserve_attach_port acquire_detach_target new_port_handle_locked put is_at
registered = refl

register_handle-IsCompensated_example : (a : ℕ) × ((some 1 ≡ some a) × IsCompensated attached 1 1 a)
register_handle-IsCompensated_example =
    register_handle-IsCompensated reserved waited_for meanwhile attached 3 1 3 1 true (some 1)
      reached_reserved target_waits Run-meanwhile registered

IsReachable-IsApart_example : IsApart reserved
IsReachable-IsApart_example = IsReachable-IsApart reached_reserved

abbrev served : Conn
served = one_chunk (output (encode_op_rep_import mouse) ++ [])

abbrev peer : Peer Conn
peer = record {
  modules_error = none;
  dial_error = none;
  request_conn = holding [];
  reply_conn = served;
  chosen_port = ok 3;
  kernel_error = none;
  others = λ t. t;
}

abbrev wanted : AttachRequest
wanted = record {
  remote = 104 ∷ [];
  endpoint_error = none;
  bus_id = bus_1_1_2;
  has_negative_attempts = false;
  auto_reconnect = true;
}

abbrev idle : Attaching
idle = record { tracker = new_tracker; effects = [] }

mouse_valid : validate_wire_bus_id bus_1_1_2 ≡ ok bus_1_1_2
unfolding validate_wire_bus_id all_wire_runes
mouse_valid = refl

request_sent : (encode_op_req_import bus_1_1_2 (holding [])).1 ≡ ok tt
unfolding encode_op_req_import write write_padded_string
request_sent = refl

perform_import_handshake-answered_example :
    perform_import_handshake (holding []) served bus_1_1_2 ≡ ok (on_wire mouse)
perform_import_handshake-answered_example =
    perform_import_handshake-answered (holding []) served mouse [] mouse-IsEncodable mouse_valid
      request_sent (append-nil _)

perform_import_handshake-ok_example :
    ((encode_op_req_import bus_1_1_2 (holding [])).1 ≡ ok tt)
    × (bus_1_1_2 ≡ bus_1_1_2)
    × (validate_wire_bus_id bus_1_1_2 ≡ ok bus_1_1_2)
    × ((flags : DecodeFlags) × ((r' : Conn) × (decode_op_rep_import served
            ≡ ok ((on_wire mouse, flags), r'))))
perform_import_handshake-ok_example =
    perform_import_handshake-ok (holding []) served bus_1_1_2 (on_wire mouse) (
      perform_import_handshake-answered (holding []) served mouse [] mouse-IsEncodable mouse_valid
        request_sent (append-nil _))

attach-IsIdle_example : IsIdle (key_of wanted) (attach peer wanted idle)
attach-IsIdle_example = attach-IsIdle peer wanted idle refl
