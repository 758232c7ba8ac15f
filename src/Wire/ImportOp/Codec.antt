-- ===== src/Wire/ImportOp/Codec.antt =====
-- The import request and its reply across the wire.
use usbip_go.Prelude.{
  ℕ, ◌≤◌, ◌<◌, ◌≡◌, refl, sym, ap, ◌∙◌, true, false, List, [], ◌∷◌, ◌++◌, arith, length,
  append_assoc, le→leb, ◌≢◌, ne→==, ◌^◌,
}
use usbip_go.Io.Errors.{
  Error, ok, err, wrap, >>=-ok, sentinel, busid_invalid, device_not_found, device_already_bound,
  device_unavailable, protocol_error,
}
use usbip_go.Io.Readers.{IoReader}
use usbip_go.Io.Writers.{Emits, write-Emits, >>-Emits, output, output-Emits, Writer, holding}
use usbip_go.Domain.Device.{Device, bus_id_size}
use usbip_go.Domain.BusId.{is_wire_bus_id_rune, all_wire_runes, validate_wire_bus_id}
use usbip_go.Domain.BusId.Acceptance.{validate_wire_bus_id-ok}
use usbip_go.Wire.Fields.{
  no_flags, is_all_printable, read_padded_string, write_padded_string, overflow_err,
}
use usbip_go.Prelude.{length-append}
use usbip_go.Wire.Header.Codec.{length-encode_header}
use usbip_go.Wire.Fields.PaddedStrings.{
  length-padded, IsPrintable, padded, write_padded_string-Emits, read-write_padded_string,
}
use usbip_go.Wire.Header.{
  Header, encode_header, op_req_import, op_rep_import, decode_header, decode_header_allow_status,
  is_known_op_code,
}
use usbip_go.Wire.Header.Codec.{decode-encode_header, decode-encode_header_allow}
use usbip_go.Wire.Layout.{decode_device}
use usbip_go.Wire.Layout.Codec.{
  IsEncodable, on_wire, device_bytes, encode_device-Emits, decode_device-bytes,
}
use usbip_go.Wire.ImportOp.{
  encode_op_req_import, decode_op_req_import, decode_op_req_import_body, check_bus_id_field,
  encode_op_rep_import, encode_op_rep_import_error, decode_op_rep_import, map_import_status,
}

-- The bytes of a bus id that passes the wire check are printable.
rune-IsPrintable : (s : List ℕ) → all_wire_runes s ≡ true → IsPrintable s
unfolding all_wire_runes is_wire_bus_id_rune is_all_printable
rune-IsPrintable [] h = refl
rune-IsPrintable (r ∷ s) h = ground (arith, rune-IsPrintable s)

known_import : (is_known_op_code op_req_import ≡ true) × (is_known_op_code op_rep_import ≡ true)
unfolding is_known_op_code
known_import = (refl, refl)

encode_op_req_import-Emits :
    (b : List ℕ)
    → length b < bus_id_size
    → Emits (encode_op_req_import b) (encode_header op_req_import 0 ++ padded b bus_id_size)
unfolding encode_op_req_import
encode_op_req_import-Emits b h =
    >>-Emits (write-Emits wrap (encode_header op_req_import 0))
      (write_padded_string-Emits b bus_id_size h)

module _ {R : Type 0} ⦃io : IoReader R⦄ where
  -- The body decoder on a field that holds a bus id which passes the wire check.
  body-padded :
      (b rest : List ℕ) (r : R)
      → validate_wire_bus_id b ≡ ok b
      → io.pending r ≡ padded b bus_id_size ++ rest
      → (r' : R) × (decode_op_req_import_body r ≡ ok (b, r'))
        × (io.pending r' ≡ rest)
        × (io.ending r' ≡ io.ending r)
  unfolding decode_op_req_import_body check_bus_id_field
  body-padded b rest r h e =
      let (_, n, l, a) = validate_wire_bus_id-ok b h in
      let (r', q, more, ends) =
        read-write_padded_string b rest bus_id_size r l (rune-IsPrintable b a) (
          e
          ∙ ap (λ x. x ++ rest) (sym (output-Emits (write_padded_string-Emits b bus_id_size l)))) in
      (r', >>=-ok (read_padded_string r bus_id_size) _ ((b, false), r') q ∙ rw h, more, ends)

  decode_req-known :
      (r r' : R) (h : Header)
      → decode_header r ≡ ok (h, r')
      → h.op ≡ op_req_import
      → decode_op_req_import r ≡ decode_op_req_import_body r'
  unfolding decode_op_req_import
  decode_req-known r r' h q e = >>=-ok (decode_header r) _ (h, r') q ∙ rw e

  -- The request that EncodeOpReqImport writes for a bus id that passes the wire check is decoded
  -- as that bus id, and what follows it stays unread.
  pub decode-encode_op_req_import :
      (b rest : List ℕ) (r : R)
      → validate_wire_bus_id b ≡ ok b
      → io.pending r ≡ output (encode_op_req_import b) ++ rest
      → (r' : R) × (decode_op_req_import r ≡ ok (b, r'))
        × (io.pending r' ≡ rest)
        × (io.ending r' ≡ io.ending r)
  decode-encode_op_req_import b rest r h e =
      let (_, n, l, a) = validate_wire_bus_id-ok b h in
      let (r1, q, more, ends) =
        decode-encode_header op_req_import (padded b bus_id_size ++ rest) r known_import.0
          (omega arith)
          (e
            ∙ (ap (λ x. x ++ rest) (output-Emits (encode_op_req_import-Emits b l))
                ∙ append_assoc (encode_header op_req_import 0) (padded b bus_id_size) rest)) in
      let (r', q', more', ends') = body-padded b rest r1 h more in
      (r', decode_req-known r r1 _ q refl ∙ q', more', ends' ∙ ends)

-- The request is 40 bytes.
pub length-encode_op_req_import :
    (b : List ℕ) → validate_wire_bus_id b ≡ ok b → length (output (encode_op_req_import b)) ≡ 40
length-encode_op_req_import b h =
    let (_, n, l, a) = validate_wire_bus_id-ok b h in
    ap length (output-Emits (encode_op_req_import-Emits b l))
    ∙ length-append (encode_header op_req_import 0) (padded b bus_id_size)
    ∙ omega (arith, length-encode_header op_req_import 0, length-padded b bus_id_size l)

-- The four rejections of the protocol.
pub data IsRejection : ℕ → Error → Type 0 where
  not_available : IsRejection 1 (sentinel device_not_found)
  busy : IsRejection 2 (sentinel device_already_bound)
  device_error : IsRejection 3 (sentinel device_unavailable)
  no_device : IsRejection 4 (sentinel device_not_found)

rejection_status :
    {status : ℕ} {e : Error} → IsRejection status e → (status < 2 ^ 32) × (status ≢ 0)
rejection_status not_available = (omega arith, omega arith)
rejection_status busy = (omega arith, omega arith)
rejection_status device_error = (omega arith, omega arith)
rejection_status no_device = (omega arith, omega arith)

rejection_mapped : {status : ℕ} {e : Error} → IsRejection status e → map_import_status status ≡ e
unfolding map_import_status
rejection_mapped not_available = refl
rejection_mapped busy = refl
rejection_mapped device_error = refl
rejection_mapped no_device = refl

encode_error-Emits :
    {status : ℕ} {e : Error}
    → IsRejection status e
    → Emits (encode_op_rep_import_error status) (encode_header op_rep_import status)
unfolding encode_op_rep_import_error
encode_error-Emits not_available = write-Emits wrap (encode_header op_rep_import 1)
encode_error-Emits busy = write-Emits wrap (encode_header op_rep_import 2)
encode_error-Emits device_error = write-Emits wrap (encode_header op_rep_import 3)
encode_error-Emits no_device = write-Emits wrap (encode_header op_rep_import 4)

encode_op_rep_import-Emits :
    (d : Device)
    → IsEncodable d
    → Emits (encode_op_rep_import d) (encode_header op_rep_import 0 ++ device_bytes d)
unfolding encode_op_rep_import
encode_op_rep_import-Emits d h =
    >>-Emits (write-Emits wrap (encode_header op_rep_import 0))
      (encode_device-Emits d h.path_fits h.bus_id_fits)

-- EncodeOpRepImportError refuses every status that is none of the four, and writes nothing.
pub encode_op_rep_import_error-other :
    (status : ℕ) (w : Writer)
    → status ≢ 1
    → status ≢ 2
    → status ≢ 3
    → status ≢ 4
    → encode_op_rep_import_error status w ≡ (w, err (wrap (sentinel protocol_error)))
unfolding encode_op_rep_import_error
encode_op_rep_import_error-other status w a b c d = ground arith

-- EncodeOpReqImport of a bus id that does not fit its field answers ErrBusIDInvalid, after the
-- eight header bytes have gone out to a writer that does not fail.
pub encode_op_req_import-too_long :
    (b done : List ℕ)
    → bus_id_size ≤ length b
    → encode_op_req_import b (holding done)
      ≡ (holding (done ++ encode_header op_req_import 0), err (wrap (sentinel busid_invalid)))
unfolding encode_op_req_import write_padded_string overflow_err usbip_go.Io.Writers.write
encode_op_req_import-too_long b done h = rw (le→leb bus_id_size (length b) h)

module _ {R : Type 0} ⦃io : IoReader R⦄ where
  decode_rep-ok :
      (r r' : R) (h : Header)
      → decode_header_allow_status r ≡ ok (h, r')
      → h.op ≡ op_rep_import
      → h.status ≡ 0
      → decode_op_rep_import r ≡ decode_device r'
  unfolding decode_op_rep_import
  decode_rep-ok r r' h q e z = >>=-ok (decode_header_allow_status r) _ (h, r') q ∙ rw (e, z)

  decode_rep-rejected :
      (r r' : R) (h : Header)
      → decode_header_allow_status r ≡ ok (h, r')
      → h.op ≡ op_rep_import
      → h.status ≢ 0
      → decode_op_rep_import r ≡ err (wrap (map_import_status h.status))
  unfolding decode_op_rep_import
  decode_rep-rejected r r' h q e z =
      >>=-ok (decode_header_allow_status r) _ (h, r') q ∙ rw (e, ne→== h.status 0 z)

  -- The reply that EncodeOpRepImport writes for an encodable device is decoded as that device
  -- without its local fields, with no flag set, and what follows it stays unread.
  pub decode-encode_op_rep_import :
      (d : Device) (rest : List ℕ) (r : R)
      → IsEncodable d
      → io.pending r ≡ output (encode_op_rep_import d) ++ rest
      → (r' : R) × (decode_op_rep_import r ≡ ok ((on_wire d, no_flags), r'))
        × (io.pending r' ≡ rest)
        × (io.ending r' ≡ io.ending r)
  decode-encode_op_rep_import d rest r h e =
      let (r1, q, more, ends) =
        decode-encode_header_allow op_rep_import 0 (device_bytes d ++ rest) r known_import.1
          (omega arith) (omega arith)
          (e
            ∙ (ap (λ x. x ++ rest) (output-Emits (encode_op_rep_import-Emits d h))
                ∙ append_assoc (encode_header op_rep_import 0) (device_bytes d) rest)) in
      let (r', q', more', ends') = decode_device-bytes d rest r1 h more in
      (r', decode_rep-ok r r1 _ q refl refl ∙ q', more', ends' ∙ ends)

  -- A rejection that EncodeOpRepImportError writes is decoded as an error that wraps the sentinel
  -- which the protocol gives its status, whatever follows the header.
  pub decode-encode_op_rep_import_error :
      (status : ℕ) (e : Error) (rest : List ℕ) (r : R)
      → IsRejection status e
      → io.pending r ≡ output (encode_op_rep_import_error status) ++ rest
      → decode_op_rep_import r ≡ err (wrap e)
  decode-encode_op_rep_import_error status e rest r j p =
      let (small, nonzero) = rejection_status j in
      let (r1, q, more, ends) =
        decode-encode_header_allow op_rep_import status rest r known_import.1 (omega arith) small
          (p ∙ ap (λ x. x ++ rest) (output-Emits (encode_error-Emits j))) in
      decode_rep-rejected r r1 _ q refl nonzero ∙ ap (λ x. err (wrap x)) (rejection_mapped j)
