-- ===== src/App/Serving/Reply.antt =====
-- The one reply to an import request, and what the client makes of it.
use usbip_go.Prelude.{
  ℕ, ◌≡◌, refl, ap, inl, inr, Bool, true, false, ◌||◌, Option, none, some, List, if◌then◌else◌,
  Bool-cases,
}
use usbip_go.Io.Errors.{
  Error, Result, ok, err, sentinel, errors_is, device_not_found, device_already_bound,
  device_unavailable, max_sessions_exceeded, per_peer_limit_exceeded,
}
use usbip_go.Io.Writers.{Writer}
use usbip_go.Domain.Device.{Device}
use usbip_go.Wire.ImportOp.{encode_op_rep_import, encode_op_rep_import_error}
use usbip_go.Wire.ImportOp.Codec.{IsRejection, not_available, busy, device_error}
use usbip_go.App.Sessions.{Session, SessionHandle, Limits, Registry, register_session}
use usbip_go.App.Handoff.{Handle, new_handle}
use usbip_go.App.Watch.{DisconnectReason}
use usbip_go.App.Serving.{
  Host, started, handed_to_kernel, Serving, add_effect, Progress, returned, parked,
  lookup_exported_device, classify_import_lookup_status, decline_status, reply_import_error,
  end_session, disconnect_session, ended_or_parked, after_export, run_handoff, after_reply,
  run_handoff_and_park, after_subscribe, run_registered_session, after_register, with_session_id,
  with_device, import_bus_id,
}

abbrev pub serving_of : Progress → Serving
serving_of (returned s) = s
serving_of (parked s) = s

abbrev pub conn_of : Progress → Writer
conn_of p = (serving_of p).conn

ended_or_parked-conn :
    (host : Host) (sess : Session) (s : Serving) (o : Option (DisconnectReason × Handle))
    → conn_of (ended_or_parked host sess s o) ≡ s.conn
unfolding end_session
ended_or_parked-conn host sess s none = refl
ended_or_parked-conn host sess s (some (reason, h)) = refl

after_export-conn :
    (host : Host) (sess : Session) (s : Serving) (e : Option Error) (x : Handle × Bool)
    → conn_of (after_export host sess s e x) ≡ s.conn
unfolding after_export end_session disconnect_session
after_export-conn host sess s (some e) (h, d) = refl
after_export-conn host sess s none (h, true) = refl
after_export-conn host sess s none (h, false) =
    ended_or_parked-conn host sess (record s { handle = h }) _

run_handoff-conn :
    (host : Host) (sess : Session) (s : Serving) (x : Handle × Bool)
    → conn_of (run_handoff host sess s x) ≡ s.conn
unfolding run_handoff end_session
run_handoff-conn host sess s (h, false) = refl
run_handoff-conn host sess s (h, true) =
    after_export-conn host sess (add_effect (handed_to_kernel sess.bus_id) s) host.export_answer _

-- Once the reply was attempted, nothing else is written to the connection.
pub after_reply-conn :
    (host : Host) (sess : Session) (s : Serving) (x : Writer × Result (Unit {0}))
    → conn_of (after_reply host sess s x) ≡ x.0
unfolding after_reply end_session
after_reply-conn host sess s (conn, err e) = refl
after_reply-conn host sess s (conn, ok done) =
    run_handoff-conn host sess (record s { conn = conn }) _

abbrev pub is_decline_busy : Error → Bool
is_decline_busy e =
    errors_is e max_sessions_exceeded
    || (errors_is e per_peer_limit_exceeded || errors_is e device_already_bound)

module _ (host : Host) (limits : Limits) (peer_key bus_id : List ℕ) (s : Serving) where
  abbrev pub lookup_result : Result Device
  lookup_result = lookup_exported_device host.exported_devices bus_id

  abbrev pub session_of : ℕ → Session
  session_of id = record { id = id; bus_id = bus_id }

  abbrev pub registration : ℕ → Result SessionHandle
  registration id = (register_session limits s.registry (session_of id) peer_key).1

  -- Why a request is declined, with the status of the reply and what a client reads from it.
  pub data Cause : ℕ → Error → Type 0 where
    not_exported :
        (e : Error)
        → lookup_result ≡ err e
        → errors_is e device_not_found ≡ true
        → Cause 1 (sentinel device_not_found)
    no_list :
        (e : Error)
        → lookup_result ≡ err e
        → errors_is e device_not_found ≡ false
        → Cause 3 (sentinel device_unavailable)
    no_id : (e : Error) → host.session_id ≡ err e → Cause 3 (sentinel device_unavailable)
    is_busy :
        (id : ℕ) (e : Error)
        → registration id ≡ err e
        → is_decline_busy e ≡ true
        → Cause 2 (sentinel device_already_bound)
    not_registered :
        (id : ℕ) (e : Error)
        → registration id ≡ err e
        → is_decline_busy e ≡ false
        → Cause 3 (sentinel device_unavailable)
    no_events : (e : Error) → host.subscription ≡ some e → Cause 3 (sentinel device_unavailable)

  -- A handler either makes one error reply, for its cause, or one reply with the device, which is in
  -- the list, and whose session was registered.
  pub data IsReplied (p : Progress) : Type 0 where
    declined :
        (status : ℕ) (e : Error)
        → Cause status e
        → conn_of p ≡ (encode_op_rep_import_error status s.conn).0
        → IsReplied p
    accepted :
        (dev : Device) (id : ℕ) (h : SessionHandle)
        → lookup_result ≡ ok dev
        → registration id ≡ ok h
        → conn_of p ≡ (encode_op_rep_import dev s.conn).0
        → IsReplied p

  subscribed-IsReplied :
      (dev : Device) (id : ℕ) (h : SessionHandle) (registry : Registry)
      → lookup_result ≡ ok dev
      → registration id ≡ ok h
      → (o : Option Error) → host.subscription ≡ o
      → IsReplied (
          after_subscribe host
            (session_of id)
            dev
            (add_effect
              (started (session_of id))
              (record s { registry = registry; handle = new_handle }))
            o)
  unfolding end_session reply_import_error run_handoff_and_park
  subscribed-IsReplied dev id h registry l r (some e) q = declined 3 _ (no_events e q) refl
  subscribed-IsReplied dev id h registry l r none q =
      accepted dev id h l r
        (after_reply-conn host (session_of id) _ (encode_op_rep_import dev s.conn))

  registered-IsReplied :
      (dev : Device) (id : ℕ)
      → lookup_result ≡ ok dev
      → (x : Registry × Result SessionHandle)
      → register_session limits s.registry (session_of id) peer_key ≡ x
      → IsReplied (after_register host (session_of id) dev s x)
  unfolding run_registered_session reply_import_error decline_status
  registered-IsReplied dev id l (registry, ok h) q =
      subscribed-IsReplied dev id h registry l (ap (λ y. y.1) q) host.subscription refl
  registered-IsReplied dev id l (registry, err e) q = elim (Bool-cases (is_decline_busy e)) [
    | inl b ↦
        declined 2 _ (is_busy id e (ap (λ y. y.1) q) b)
          (ap (λ c. (encode_op_rep_import_error (if c then 2 else 3) s.conn).0) b)
    | inr b ↦
        declined 3 _ (not_registered id e (ap (λ y. y.1) q) b)
          (ap (λ c. (encode_op_rep_import_error (if c then 2 else 3) s.conn).0) b)
  ]

  identified-IsReplied :
      (dev : Device)
      → lookup_result ≡ ok dev
      → (r : Result ℕ) → host.session_id ≡ r
      → IsReplied (with_session_id host limits peer_key bus_id dev s r)
  unfolding reply_import_error
  identified-IsReplied dev l (err e) q = declined 3 _ (no_id e q) refl
  identified-IsReplied dev l (ok id) q = registered-IsReplied dev id l _ refl

  found-IsReplied :
      (r : Result Device)
      → lookup_result ≡ r
      → IsReplied (with_device host limits peer_key bus_id s r)
  unfolding reply_import_error classify_import_lookup_status
  found-IsReplied (ok dev) q = identified-IsReplied dev q host.session_id refl
  found-IsReplied (err e) q = elim (Bool-cases (errors_is e device_not_found)) [
    | inl b ↦
        declined 1 _ (not_exported e q b)
          (ap (λ c. (encode_op_rep_import_error (if c then 1 else 3) s.conn).0) b)
    | inr b ↦
        declined 3 _ (no_list e q b)
          (ap (λ c. (encode_op_rep_import_error (if c then 1 else 3) s.conn).0) b)
  ]

  pub import_bus_id-IsReplied : IsReplied (import_bus_id host limits peer_key bus_id s)
  unfolding import_bus_id
  import_bus_id-IsReplied = found-IsReplied lookup_result refl

  pub Cause-IsRejection : {status : ℕ} {e : Error} → Cause status e → IsRejection status e
  Cause-IsRejection (not_exported e q b) = not_available
  Cause-IsRejection (no_list e q b) = device_error
  Cause-IsRejection (no_id e q) = device_error
  Cause-IsRejection (is_busy id e q b) = busy
  Cause-IsRejection (not_registered id e q b) = device_error
  Cause-IsRejection (no_events e q) = device_error
