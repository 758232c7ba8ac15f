-- ===== src/App/Serving/Lifecycle.antt =====
-- The life of a session: started, handed to the kernel, ended, each at most once and in this order.
use usbip_go.Prelude.{
  ℕ, ◌≡◌, refl, sym, ap, Bool, true, false, Option, none, some, List, ◌∷◌, arith,
}
use usbip_go.Io.Errors.{Error, Result, ok, err}
use usbip_go.Io.Writers.{Writer}
use usbip_go.Domain.Device.{Device}
use usbip_go.Wire.ImportOp.{encode_op_rep_import, encode_op_rep_import_error, import_status_dev_err}
use usbip_go.App.Sessions.{Session, SessionHandle, Limits, Registry, register_session}
use usbip_go.App.Handoff.{Handle, begin_handoff, end_handoff}
use usbip_go.App.Watch.{
  DisconnectReason, kernel_error, reason_shutdown, protocol_error, classify_disconnect_reason,
}
use usbip_go.App.Serving.Ended.{IsEnded, end_session-IsEnded}
use usbip_go.App.Serving.{
  Host, Effect, started, handed_to_kernel, disconnected, Serving, add_effect, Progress, returned,
  parked, send, reply_import_error, maybe_cancel, disconnect_session, ended_or_parked, after_export,
  run_handoff, after_reply, run_handoff_and_park, after_subscribe, run_registered_session,
  after_register, with_session_id, with_device, import_bus_id, lookup_exported_device,
}

register_session-unchanged :
    (limits : Limits) (r r' : Registry) (sess : Session) (peer_key : List ℕ) (e : Error)
    → register_session limits r sess peer_key ≡ (r', err e)
    → r' ≡ r
unfolding register_session
register_session-unchanged limits r r' sess peer_key e q = ground arith

-- An encoder's call that reported no error.
abbrev pub IsSent : Serving → Device → Type 0
IsSent s dev = (encode_op_rep_import dev s.conn).1 ≡ ok tt

begin_handoff-idle : (h h' : Handle) → begin_handoff h ≡ (h', true) → h'.cancelled ≡ false
unfolding begin_handoff
begin_handoff-idle h h' q = ground arith

-- runHandoff tells its caller to disconnect only if a Shutdown came while it ran.
cancelled_before_end :
    (c : Bool) (h h' : Handle)
    → h.cancelled ≡ false
    → end_handoff none (maybe_cancel c h) ≡ (h', true)
    → c ≡ true
unfolding end_handoff
cancelled_before_end true h h' idle q = refl
cancelled_before_end false h h' idle q = ground arith

module _ (host : Host) (sess : Session) (dev : Device) (base : List Effect) where
  -- How the handler of a registered session comes to its end.
  pub data IsRun (s : Serving) (p : Progress) : Type 0 where
    never_handed :
        (s' : Serving) → p ≡ returned s' → IsEnded sess (started sess ∷ base) s' → IsRun s p
    handed :
        (s' : Serving)
        → IsSent s dev
        → p ≡ returned s'
        → IsEnded sess (handed_to_kernel sess.bus_id ∷ started sess ∷ base) s'
        → IsRun s p
    cut_off :
        (s' : Serving)
        → IsSent s dev
        → host.export_answer ≡ none
        → host.cancelled_during ≡ true
        → p ≡ returned s'
        → IsEnded sess
            (disconnected sess.bus_id ∷ handed_to_kernel sess.bus_id ∷ started sess ∷ base)
            s'
        → IsRun s p
    waiting :
        (s' : Serving)
        → IsSent s dev
        → host.export_answer ≡ none
        → p ≡ parked s'
        → s'.effects ≡ handed_to_kernel sess.bus_id ∷ started sess ∷ base
        → IsRun s p

  ended_or_parked-IsRun :
      (s s1 : Serving)
      → IsSent s dev
      → host.export_answer ≡ none
      → s1.effects ≡ handed_to_kernel sess.bus_id ∷ started sess ∷ base
      → (o : Option (DisconnectReason × Handle)) → IsRun s (ended_or_parked host sess s1 o)
  ended_or_parked-IsRun s s1 sent q e none = waiting s1 sent q refl e
  ended_or_parked-IsRun s s1 sent q e (some (reason, h)) =
      handed _ sent refl (end_session-IsEnded host sess reason (record s1 { handle = h }) e)

  after_export-IsRun :
      (s s1 : Serving) (h0 : Handle)
      → IsSent s dev
      → h0.cancelled ≡ false
      → s1.effects ≡ handed_to_kernel sess.bus_id ∷ started sess ∷ base
      → (e : Option Error) → host.export_answer ≡ e
      → (x : Handle × Bool) → end_handoff e (maybe_cancel host.cancelled_during h0) ≡ x
      → IsRun s (after_export host sess s1 e x)
  unfolding after_export disconnect_session
  after_export-IsRun s s1 h0 sent idle e (some f) q (h, d) r =
      handed _ sent refl
        (end_session-IsEnded host sess (classify_disconnect_reason f) (record s1 { handle = h }) e)
  after_export-IsRun s s1 h0 sent idle e none q (h, true) r =
      cut_off _ sent q (cancelled_before_end host.cancelled_during h0 h idle r) refl (
        end_session-IsEnded host sess reason_shutdown
          (disconnect_session host sess (record s1 { handle = h }))
          (ap (λ b. disconnected sess.bus_id ∷ b) e))
  after_export-IsRun s s1 h0 sent idle e none q (h, false) r =
      ended_or_parked-IsRun s (record s1 { handle = h }) sent q e _

  run_handoff-IsRun :
      (s s1 : Serving) (h0 : Handle)
      → IsSent s dev
      → s1.effects ≡ started sess ∷ base
      → (x : Handle × Bool) → begin_handoff h0 ≡ x
      → IsRun s (run_handoff host sess s1 x)
  unfolding run_handoff
  run_handoff-IsRun s s1 h0 sent e (h, false) q =
      never_handed _ refl
        (end_session-IsEnded host sess reason_shutdown (record s1 { handle = h }) e)
  run_handoff-IsRun s s1 h0 sent e (h, true) q =
      after_export-IsRun s (add_effect (handed_to_kernel sess.bus_id) s1) h sent
        (begin_handoff-idle h0 h q) (ap (λ b. handed_to_kernel sess.bus_id ∷ b) e)
        host.export_answer refl _ refl

  after_reply-IsRun :
      (s s1 : Serving)
      → s1.effects ≡ started sess ∷ base
      → (x : Writer × Result (Unit {0})) → encode_op_rep_import dev s.conn ≡ x
      → IsRun s (after_reply host sess s1 x)
  unfolding after_reply
  after_reply-IsRun s s1 e (conn, err f) q =
      never_handed _ refl
        (end_session-IsEnded host sess protocol_error (record s1 { conn = conn }) e)
  after_reply-IsRun s s1 e (conn, ok done) q =
      run_handoff-IsRun s (record s1 { conn = conn }) _ (ap (λ y. y.1) q) e _ refl

  after_subscribe-IsRun :
      (s s1 : Serving)
      → s1.conn ≡ s.conn
      → s1.effects ≡ started sess ∷ base
      → (o : Option Error) → IsRun s (after_subscribe host sess dev s1 o)
  unfolding run_handoff_and_park reply_import_error
  after_subscribe-IsRun s s1 c e (some f) = never_handed _ refl (
      end_session-IsEnded host sess kernel_error
        (send (encode_op_rep_import_error import_status_dev_err) s1) e)
  after_subscribe-IsRun s s1 c e none =
      after_reply-IsRun s s1 e (encode_op_rep_import dev s1.conn)
        (ap (encode_op_rep_import dev) (sym c))

module _ (host : Host) (limits : Limits) (peer_key bus_id : List ℕ) (s : Serving) where
  -- A handler of an import request without a session leaves the registry as it was; one with a session
  -- runs it.
  pub data IsServed (p : Progress) : Type 0 where
    no_session :
        (s' : Serving)
        → p ≡ returned s'
        → s'.effects ≡ s.effects
        → s'.registry ≡ s.registry
        → IsServed p
    session :
        (id : ℕ) (dev : Device) (h : SessionHandle)
        → lookup_exported_device host.exported_devices bus_id ≡ ok dev
        → (register_session limits s.registry (record { id = id; bus_id = bus_id }) peer_key).1
          ≡ ok h
        → IsRun host (record { id = id; bus_id = bus_id }) dev s.effects s p
        → IsServed p

  registered-IsServed :
      (id : ℕ) (dev : Device)
      → lookup_exported_device host.exported_devices bus_id ≡ ok dev
      → (x : Registry × Result SessionHandle)
      → register_session limits s.registry (record { id = id; bus_id = bus_id }) peer_key ≡ x
      → IsServed (after_register host (record { id = id; bus_id = bus_id }) dev s x)
  unfolding run_registered_session reply_import_error
  registered-IsServed id dev l (registry, err e) q =
      no_session _ refl refl (register_session-unchanged limits s.registry registry _ peer_key e q)
  registered-IsServed id dev l (registry, ok h) q =
      session id dev h l (ap (λ y. y.1) q)
        (after_subscribe-IsRun host _ dev s.effects s _ refl refl host.subscription)

  identified-IsServed :
      (dev : Device)
      → lookup_exported_device host.exported_devices bus_id ≡ ok dev
      → (r : Result ℕ) → IsServed (with_session_id host limits peer_key bus_id dev s r)
  unfolding reply_import_error
  identified-IsServed dev l (err e) = no_session _ refl refl refl
  identified-IsServed dev l (ok id) = registered-IsServed id dev l _ refl

  found-IsServed :
      (r : Result Device)
      → lookup_exported_device host.exported_devices bus_id ≡ r
      → IsServed (with_device host limits peer_key bus_id s r)
  unfolding reply_import_error
  found-IsServed (err e) q = no_session _ refl refl refl
  found-IsServed (ok dev) q = identified-IsServed dev q host.session_id

  -- The handler of an import request registers no session and leaves the registry and the kernel
  -- alone, or it runs the session of a listed device: started; handed to the kernel only behind a
  -- success reply that was written whole; disconnected only if a Shutdown came during a handoff that
  -- succeeded; and, unless it still waits for the end of a session that the kernel has, ended with one
  -- reason, out of the registry and with its cleanup claimed.
  pub import_bus_id-IsServed : IsServed (import_bus_id host limits peer_key bus_id s)
  unfolding import_bus_id
  import_bus_id-IsServed = found-IsServed (lookup_exported_device host.exported_devices bus_id) refl
