-- ===== src/App/Attaching/Handshake.antt =====
-- The device that an attachment goes on with.
use usbip_go.Prelude.{ℕ, ◌≡◌, sym, ◌∙◌, ap, List, if◌then◌else◌, Bool-cases, subst, inl, inr}
use usbip_go.Domain.BusId.Acceptance.{validate_wire_bus_id-ok}
use usbip_go.Io.Errors.{
  Error, Result, ok, err, map_err, wrap, >>=-eq-ok, ok-injective, sentinel, protocol_error,
}
use usbip_go.Io.Readers.{IoReader}
use usbip_go.Io.Writers.{Writer}
use usbip_go.Domain.Device.{Device}
use usbip_go.Domain.BusId.{validate_wire_bus_id}
use usbip_go.Kernel.Text.{text_eq}
use usbip_go.Wire.Fields.{DecodeFlags}
use usbip_go.Wire.ImportOp.{encode_op_req_import, decode_op_rep_import}
use usbip_go.Kernel.Text.Equality.{text_eq→eq, text_eq_refl}
use usbip_go.Wire.ImportOp.{encode_op_rep_import}
use usbip_go.Wire.ImportOp.Codec.{decode-encode_op_rep_import}
use usbip_go.Wire.Layout.Codec.{IsEncodable, on_wire}
use usbip_go.Io.Writers.{output}
use usbip_go.Prelude.{◌++◌, refl}
use usbip_go.App.Attaching.{check_reply_bus_id, perform_import_handshake}

map_err-ok : {A : Type 0} (f : Error → Error) (m : Result A) {a : A} → map_err f m ≡ ok a → m ≡ ok a
map_err-ok f (err e) h = cc
map_err-ok f (ok b) h = h

checked :
    (bus_id : List ℕ) (d dev : Device)
    → check_reply_bus_id bus_id d ≡ ok dev
    → (d ≡ dev) × (d.bus_id ≡ bus_id)
checked bus_id d dev h = elim (Bool-cases (text_eq d.bus_id bus_id)) [
  | inl q ↦ (
    ok-injective (
        subst (λ b. (if b then ok d else err (wrap (wrap (sentinel protocol_error)))) ≡ ok dev) q
          h),
    text_eq→eq d.bus_id bus_id q,
  )
  | inr q ↦ absurd (
      err_is_not_ok (
        subst (λ b. (if b then ok d else err (wrap (wrap (sentinel protocol_error)))) ≡ ok dev) q
          h))
]
  where
    err_is_not_ok : {e : Error} → ¬ (◌≡◌ {A = Result Device} (err e) (ok dev))
    err_is_not_ok e = cc

module _ {R : Type 0} ⦃io : IoReader R⦄ where
  -- An attachment goes on with a device only if the whole request was written, the reply was decoded
  -- to this very device, and its bus id is the one that was asked for and passes the wire check.
  pub perform_import_handshake-ok :
      (w : Writer) (r : R) (bus_id : List ℕ) (dev : Device)
      → perform_import_handshake w r bus_id ≡ ok dev
      → ((encode_op_req_import bus_id w).1 ≡ ok tt)
        × (dev.bus_id ≡ bus_id)
        × (validate_wire_bus_id bus_id ≡ ok bus_id)
        × ((flags : DecodeFlags) × ((r' : R) × (decode_op_rep_import r ≡ ok ((dev, flags), r'))))
  unfolding perform_import_handshake
  perform_import_handshake-ok w r bus_id dev h =
      let (sent, p, rest) = >>=-eq-ok (map_err wrap (encode_op_req_import bus_id w).1) _ h in
      let (((d, flags), r'), q, more) = >>=-eq-ok (map_err wrap (decode_op_rep_import r)) _ rest in
      let (valid, v, last) = >>=-eq-ok (map_err wrap (validate_wire_bus_id d.bus_id)) _ more in
      let (same, at) = checked bus_id d dev last in
      let (whole, _, _, _) = validate_wire_bus_id-ok d.bus_id (map_err-ok wrap _ v) in
      (
        map_err-ok wrap _ p,
        sym (ap (λ x. x.bus_id) same) ∙ at,
        subst (λ b. validate_wire_bus_id b ≡ ok b) at (map_err-ok wrap _ v ∙ ap (λ b. ok b) whole),
        (flags, (r', map_err-ok wrap _ q ∙ ap (λ x. ok ((x, flags), r')) same)),
      )

  -- Where the request could be written and the peer answers with the bytes that EncodeOpRepImport
  -- writes for the device of that name, which is encodable and whose bus id passes the wire check, the
  -- attachment goes on with the device without its local fields, whatever follows the reply.
  pub perform_import_handshake-answered :
      (w : Writer) (r : R) (dev : Device) (rest : List ℕ)
      → IsEncodable dev
      → validate_wire_bus_id dev.bus_id ≡ ok dev.bus_id
      → (encode_op_req_import dev.bus_id w).1 ≡ ok tt
      → io.pending r ≡ output (encode_op_rep_import dev) ++ rest
      → perform_import_handshake w r dev.bus_id ≡ ok (on_wire dev)
  unfolding perform_import_handshake
  perform_import_handshake-answered w r dev rest fits valid sent answer =
      let (r', q, _, _) = decode-encode_op_rep_import dev rest r fits answer in
      rw (sent, q, valid, text_eq_refl dev.bus_id) refl
