-- ===== src/App/Attaching.antt =====
-- internal/app/importer.go: attaching a device, from the options to the handle.
pub mod Handshake
pub mod Resources
pub mod Slots
use usbip_go.Prelude.{ℕ, Bool, true, false, not, Option, none, some, List, [], ◌∷◌, if◌then◌else◌}
use usbip_go.Io.Errors.{
  Error, Result, ok, err, ◌>>=◌, map_err, wrap, sentinel, importer_closed, busid_invalid,
  options_invalid, protocol_error,
}
use usbip_go.Io.Readers.{IoReader}
use usbip_go.Io.Writers.{Writer}
use usbip_go.Domain.Device.{Device}
use usbip_go.Domain.BusId.{is_valid, validate_wire_bus_id}
use usbip_go.Kernel.Text.{text_eq}
use usbip_go.Wire.ImportOp.{encode_op_req_import, decode_op_rep_import}
use usbip_go.App.Tracking.{
  Tracker, AttachKey, acquire_attach_slot, release_attach_slot, reserve_attach_port,
  abort_attach_reservation, register_handle,
}

-- What an attachment is asked for: the endpoint as a key, what its Validate answers, the bus id, and
-- of AttachOptions whether MaxAttempts is negative and whether to reconnect.
pub record AttachRequest : Type 0 where
  pub remote : List ℕ
  pub endpoint_error : Option Error
  pub bus_id : List ℕ
  pub has_negative_attempts : Bool
  pub auto_reconnect : Bool

-- What the rest of the program and the kernel answer: ModulesAvailable, Dial, the connection to write
-- to and the one to read from, the port for which AttachRemote calls ReserveLocalPort or the error
-- before that, its error after it, and what other goroutines make of the importer before the handle
-- is registered.
pub record Peer (R : Type 0) : Type 0 where
  pub modules_error : Option Error
  pub dial_error : Option Error
  pub request_conn : Writer
  pub reply_conn : R
  pub chosen_port : Result ℕ
  pub kernel_error : Option Error
  pub others : Tracker → Tracker

-- What an attachment does outside the importer; the error that DetachPort answers is only logged.
pub data Effect : Type 0 where
  opened_conn closed_conn : Effect
  kernel_attached detach_called : ℕ → Effect
  watcher_spawned : ℕ → Effect
  compensating : ℕ → ℕ → Effect

pub record Attaching : Type 0 where
  pub tracker : Tracker
  pub effects : List Effect

abbrev pub add_effect : Effect → Attaching → Attaching
add_effect e s = record s { effects = e ∷ s.effects }

abbrev pub check_reply_bus_id : List ℕ → Device → Result Device
check_reply_bus_id bus_id dev =
    if text_eq dev.bus_id bus_id then ok dev else err (wrap (wrap (sentinel protocol_error)))

module _ {R : Type 0} ⦃io : IoReader R⦄ where
  -- performImportHandshake.
  unfoldable pub perform_import_handshake : Writer → R → List ℕ → Result Device
  perform_import_handshake w r bus_id = do
    sent ← map_err wrap (encode_op_req_import bus_id w).1
    ((dev, flags), r') ← map_err wrap (decode_op_rep_import r)
    valid ← map_err wrap (validate_wire_bus_id dev.bus_id)
    check_reply_bus_id bus_id dev

abbrev pub spawned : Bool → ℕ → Attaching → Attaching
spawned true g s = add_effect (watcher_spawned g) s
spawned false g s = s

-- finishAttach, on what registerHandle answers.
unfoldable pub finish_attach :
    ℕ → ℕ → Bool → List Effect → Tracker × Result (ℕ × Option ℕ) → Attaching × Result (ℕ × ℕ)
finish_attach id r auto effects (t, err e) =
    (record { tracker = abort_attach_reservation t r; effects = detach_called id ∷ effects }, err e)
finish_attach id r auto effects (t, ok (g, none)) =
    (spawned auto g (record { tracker = t; effects = effects }), ok (id, g))
finish_attach id r auto effects (t, ok (g, some a)) =
    (record { tracker = t; effects = compensating g a ∷ effects }, ok (id, g))

abbrev pub give_up : Error → Attaching → Attaching × Result (ℕ × ℕ)
give_up e s = (add_effect closed_conn s, err (wrap e))

-- attachOverDialed behind ReserveLocalPort, on the kernel's answer to the attach write.
unfoldable pub after_reserve :
    {R : Type 0}
    → Peer R
    → AttachRequest
    → ℕ
    → ℕ
    → Attaching
    → Option Error
    → Attaching × Result (ℕ × ℕ)
after_reserve peer request id r s (some e) =
    give_up e (record s { tracker = abort_attach_reservation s.tracker r })
after_reserve peer request id r s none =
    finish_attach id r request.auto_reconnect (kernel_attached id ∷ s.effects)
      (register_handle (peer.others s.tracker) id request.auto_reconnect r)

abbrev pub with_reservation :
    {R : Type 0}
    → Peer R
    → AttachRequest
    → ℕ
    → Attaching
    → Tracker × Result ℕ
    → Attaching × Result (ℕ × ℕ)
with_reservation peer request id s (t, err e) = give_up (wrap e) (record s { tracker = t })
with_reservation peer request id s (t, ok r) =
    after_reserve peer request id r (record s { tracker = t }) peer.kernel_error

-- The call of AttachRemote, which calls ReserveLocalPort.
abbrev pub with_port :
    {R : Type 0} → Peer R → AttachRequest → Attaching → Result ℕ → Attaching × Result (ℕ × ℕ)
with_port peer request s (err e) = give_up e s
with_port peer request s (ok id) =
    with_reservation peer request id s (reserve_attach_port s.tracker id)

abbrev pub with_device :
    {R : Type 0} → Peer R → AttachRequest → Attaching → Result Device → Attaching × Result (ℕ × ℕ)
with_device peer request s (err e) = (add_effect closed_conn s, err e)
with_device peer request s (ok dev) = with_port peer request s peer.chosen_port

abbrev pub key_of : AttachRequest → AttachKey
key_of request = record { remote = request.remote; bus_id = request.bus_id }

abbrev pub released : AttachRequest → Attaching × Result (ℕ × ℕ) → Attaching × Result (ℕ × ℕ)
released request (s, r) = (record s { tracker = release_attach_slot s.tracker (key_of request) }, r)

module _ {R : Type 0} ⦃io : IoReader R⦄ where
  abbrev pub over_conn :
      Peer R → AttachRequest → Attaching → Option Error → Attaching × Result (ℕ × ℕ)
  over_conn peer request s (some e) = (s, err (wrap e))
  over_conn peer request s none =
      with_device peer request (add_effect opened_conn s)
        (perform_import_handshake peer.request_conn peer.reply_conn request.bus_id)

  -- attachOverDialed.
  unfoldable pub attach_over_dialed :
      Peer R → AttachRequest → Attaching → Attaching × Result (ℕ × ℕ)
  attach_over_dialed peer request s = over_conn peer request s peer.dial_error

  abbrev pub with_modules :
      Peer R → AttachRequest → Attaching → Option Error → Attaching × Result (ℕ × ℕ)
  with_modules peer request s (some e) = (s, err (wrap e))
  with_modules peer request s none = attach_over_dialed peer request s

  abbrev pub with_slot :
      Peer R → AttachRequest → Attaching → Tracker × Result (Unit {0}) → Attaching × Result (ℕ × ℕ)
  with_slot peer request s (t, err e) = (record s { tracker = t }, err e)
  with_slot peer request s (t, ok held) =
      released request (with_modules peer request (record s { tracker = t }) peer.modules_error)

  abbrev pub with_endpoint :
      Peer R → AttachRequest → Attaching → Option Error → Attaching × Result (ℕ × ℕ)
  with_endpoint peer request s (some e) = (s, err (wrap e))
  with_endpoint peer request s none =
      if not (is_valid request.bus_id)
      then (s, err (wrap (sentinel busid_invalid)))
      else if request.has_negative_attempts
      then (s, err (wrap (sentinel options_invalid)))
      else with_slot peer request s (acquire_attach_slot s.tracker (key_of request))

  -- Importer.attach.
  unfoldable pub attach : Peer R → AttachRequest → Attaching → Attaching × Result (ℕ × ℕ)
  attach peer request s =
      if s.tracker.closed
      then (s, err (sentinel importer_closed))
      else with_endpoint peer request s request.endpoint_error
