-- ===== src/App/Serving.antt =====
-- internal/app/session.go: one connection of the exporter, from its first byte to its end.
pub mod Reply
pub mod Client
pub mod Ended
pub mod Lifecycle
use usbip_go.Prelude.{
  ℕ, Bool, true, false, not, ◌||◌, Option, none, some, List, [], ◌∷◌, ◌==◌, if◌then◌else◌,
}
use usbip_go.Io.Errors.{
  Error, Result, ok, err, ◌>>=◌, map_err, wrap, sentinel, errors_is, device_not_found,
  max_sessions_exceeded, per_peer_limit_exceeded, device_already_bound,
}
use usbip_go.Io.Readers.{IoReader}
use usbip_go.Io.Writers.{Writer, Encoder}
use usbip_go.Domain.Device.{Device}
use usbip_go.Kernel.Text.{text_eq}
use usbip_go.Wire.Header.{Header, decode_header, op_req_devlist, op_req_import}
use usbip_go.Wire.Devlist.{encode_op_rep_devlist}
use usbip_go.Wire.ImportOp.{
  import_status_na, import_status_dev_busy, import_status_dev_err, decode_op_req_import_body,
  encode_op_rep_import, encode_op_rep_import_error,
}
use usbip_go.App.Sessions.{
  Session, SessionHandle, Limits, Registry, register_session, unregister_session,
}
use usbip_go.App.Handoff.{
  Handle, new_handle, begin_handoff, end_handoff, signal_cancel, finish_cleanup,
  complete_without_disconnect,
}
use usbip_go.App.Limits.{LimitReader, new_limit_reader}
use usbip_go.App.Limits.Stream.{limit_reader}
use usbip_go.App.Watch.{
  DisconnectReason, kernel_error, reason_shutdown, protocol_error, Signal, Watch,
  wait_for_session_end, initial_watch, classify_disconnect_reason,
}

-- What the rest of the program and the kernel answer to one handler: the kernel's list of exported
-- devices, the new session id, the subscription to events, whether a Shutdown calls signalCancel
-- before the handoff and during it, what ExportOnConn and Disconnect answer, what the wait for the end
-- of the session sees, and what other handlers make of the registry meanwhile.
pub record Host : Type 0 where
  pub exported_devices : Result (List Device)
  pub session_id : Result ℕ
  pub subscription : Option Error
  pub cancelled_before : Bool
  pub export_answer : Option Error
  pub cancelled_during : Bool
  pub disconnect_answer : Option Error
  pub has_activity : Bool
  pub polls : Bool
  pub signals : List Signal
  pub others : Registry → Registry

-- What a handler does beside writing to its connection and to the registry.
pub data Effect : Type 0 where
  started : Session → Effect
  handed_to_kernel : List ℕ → Effect
  disconnected : List ℕ → Effect
  session_ended : Session → DisconnectReason → Effect

-- A handler's connection and its registry, the handle of its session, and what it did, newest first.
pub record Serving : Type 0 where
  pub conn : Writer
  pub registry : Registry
  pub handle : Handle
  pub effects : List Effect

abbrev pub add_effect : Effect → Serving → Serving
add_effect e s = record s { effects = e ∷ s.effects }

-- A handler that returned, and one that still waits for the end of its session.
pub data Progress : Type 0 where
  returned parked : Serving → Progress

-- lookupExportedDevice, in the list.
unfoldable pub find_device : List ℕ → List Device → Result Device
find_device bus_id [] = err (sentinel device_not_found)
find_device bus_id (d ∷ devices) =
    let rest = find_device bus_id devices in if text_eq d.bus_id bus_id then ok d else rest

-- lookupExportedDevice.
unfoldable pub lookup_exported_device : Result (List Device) → List ℕ → Result Device
lookup_exported_device devices bus_id = map_err wrap devices >>= λ listed. find_device bus_id listed

-- classifyImportLookupStatus.
unfoldable pub classify_import_lookup_status : Error → ℕ
classify_import_lookup_status e =
    if errors_is e device_not_found then import_status_na else import_status_dev_err

-- The status of a declined registration.
unfoldable pub decline_status : Error → ℕ
decline_status e =
    if errors_is e max_sessions_exceeded
      || (errors_is e per_peer_limit_exceeded || errors_is e device_already_bound)
    then import_status_dev_busy
    else import_status_dev_err

-- An encoder's call, whose error is only logged.
abbrev pub send : Encoder (Unit {0}) → Serving → Serving
send reply s = record s { conn = (reply s.conn).0 }

-- replyImportError.
unfoldable pub reply_import_error : ℕ → Serving → Serving
reply_import_error status s = send (encode_op_rep_import_error status) s

-- endSession, with the reason that was recorded.
unfoldable pub end_session : Host → Session → DisconnectReason → Serving → Serving
end_session host sess reason s = add_effect (session_ended sess reason) (record s {
  registry = unregister_session (host.others s.registry) sess.id;
  handle = (complete_without_disconnect s.handle).0;
})

-- A Shutdown's call of signalCancel, if there is one.
abbrev pub maybe_cancel : Bool → Handle → Handle
maybe_cancel true h = (signal_cancel h).0
maybe_cancel false h = h

-- disconnectSession, with the error that Disconnect answers.
unfoldable pub disconnect_session : Host → Session → Serving → Serving
disconnect_session host sess s =
    add_effect (disconnected sess.bus_id)
      (record s { handle = finish_cleanup host.disconnect_answer s.handle })

abbrev pub ended_or_parked :
    Host → Session → Serving → Option (DisconnectReason × Handle) → Progress
ended_or_parked host sess s none = parked s
ended_or_parked host sess s (some (reason, h)) =
    returned (end_session host sess reason (record s { handle = h }))

-- runHandoffAndPark behind ExportOnConn, on its error and on what runHandoff says of the cleanup.
unfoldable pub after_export : Host → Session → Serving → Option Error → Handle × Bool → Progress
after_export host sess s (some e) (h, disconnect) =
    returned (end_session host sess (classify_disconnect_reason e) (record s { handle = h }))
after_export host sess s none (h, true) =
    returned (
      end_session host sess reason_shutdown
        (disconnect_session host sess (record s { handle = h })))
after_export host sess s none (h, false) =
    ended_or_parked host sess (record s { handle = h })
      (wait_for_session_end sess.bus_id (initial_watch host.has_activity host.polls) h host.signals)

-- runHandoff, by whether it runs.
unfoldable pub run_handoff : Host → Session → Serving → Handle × Bool → Progress
run_handoff host sess s (h, false) =
    returned (end_session host sess reason_shutdown (record s { handle = h }))
run_handoff host sess s (h, true) =
    after_export host sess (add_effect (handed_to_kernel sess.bus_id) s) host.export_answer
      (end_handoff host.export_answer (maybe_cancel host.cancelled_during h))

-- runHandoffAndPark, on what EncodeOpRepImport made of the connection.
unfoldable pub after_reply : Host → Session → Serving → Writer × Result (Unit {0}) → Progress
after_reply host sess s (conn, err e) =
    returned (end_session host sess protocol_error (record s { conn = conn }))
after_reply host sess s (conn, ok sent) =
    run_handoff host sess (record s { conn = conn })
      (begin_handoff (maybe_cancel host.cancelled_before s.handle))

-- runHandoffAndPark.
unfoldable pub run_handoff_and_park : Host → Session → Device → Serving → Progress
run_handoff_and_park host sess dev s = after_reply host sess s (encode_op_rep_import dev s.conn)

abbrev pub after_subscribe : Host → Session → Device → Serving → Option Error → Progress
after_subscribe host sess dev s (some e) =
    returned (end_session host sess kernel_error (reply_import_error import_status_dev_err s))
after_subscribe host sess dev s none = run_handoff_and_park host sess dev s

-- runRegisteredSession.
unfoldable pub run_registered_session : Host → Session → Device → Serving → Progress
run_registered_session host sess dev s =
    after_subscribe host sess dev (add_effect (started sess) s) host.subscription

abbrev pub after_register :
    Host → Session → Device → Serving → Registry × Result SessionHandle → Progress
after_register host sess dev s (registry, err e) =
    returned (reply_import_error (decline_status e) (record s { registry = registry }))
after_register host sess dev s (registry, ok h) =
    run_registered_session host sess dev (record s { registry = registry; handle = new_handle })

abbrev pub with_session_id :
    Host → Limits → List ℕ → List ℕ → Device → Serving → Result ℕ → Progress
with_session_id host limits peer_key bus_id dev s (err e) =
    returned (reply_import_error import_status_dev_err s)
with_session_id host limits peer_key bus_id dev s (ok id) =
    let sess : Session = record { id = id; bus_id = bus_id } in
    after_register host sess dev s (register_session limits s.registry sess peer_key)

abbrev pub with_device : Host → Limits → List ℕ → List ℕ → Serving → Result Device → Progress
with_device host limits peer_key bus_id s (err e) =
    returned (reply_import_error (classify_import_lookup_status e) s)
with_device host limits peer_key bus_id s (ok dev) =
    with_session_id host limits peer_key bus_id dev s host.session_id

-- serveImport, of a bus id that was decoded.
unfoldable pub import_bus_id : Host → Limits → List ℕ → List ℕ → Serving → Progress
import_bus_id host limits peer_key bus_id s =
    with_device host limits peer_key bus_id s (lookup_exported_device host.exported_devices bus_id)

-- serveDevlist.
unfoldable pub serve_devlist : Host → Serving → Progress
serve_devlist host s = elim host.exported_devices [
  | err e ↦ returned s
  | ok devices ↦ returned (send (encode_op_rep_devlist devices) s)
]

module _ {R : Type 0} ⦃io : IoReader R⦄ where
  -- serveImport.
  unfoldable pub serve_import : Host → Limits → List ℕ → R → Serving → Progress
  serve_import host limits peer_key r s = elim (decode_op_req_import_body r) [
    | err e ↦ returned s
    | ok (bus_id, r') ↦ import_bus_id host limits peer_key bus_id s
  ]

  abbrev pub dispatch : Host → Limits → List ℕ → Serving → Result (Header × R) → Progress
  dispatch host limits peer_key s (err e) = returned s
  dispatch host limits peer_key s (ok (h, r)) =
      if h.op == op_req_devlist
      then serve_devlist host s
      else if h.op == op_req_import
      then serve_import host limits peer_key r s
      else returned s

-- handleConn, over the connection's reader capped at `max_handshake_bytes`.
unfoldable pub handle_conn :
    {R : Type 0} ⦃io : IoReader R⦄ → Host → Limits → ℕ → List ℕ → R → Serving → Progress
handle_conn host limits max_handshake_bytes peer_key r s =
    dispatch host limits peer_key s (decode_header (new_limit_reader r max_handshake_bytes))
