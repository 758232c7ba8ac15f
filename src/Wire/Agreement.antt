-- ===== src/Wire/Agreement.antt =====
-- The decoders read the stream and nothing else: two readers of one stream, of whatever kinds and
-- however they cut it into chunks, give the same answers.
pub mod Lists
use usbip_go.Prelude.{
  ℕ, zero, suc, ◌+◌, ◌*◌, ◌≡◌, refl, sym, ap, ◌∙◌, Bool, true, false, not, List, [], ◌∷◌, ◌++◌,
  ◌==◌, if◌then◌else◌, map, ltb,
}
use usbip_go.Bytes.{u32_of}
use usbip_go.Io.Errors.{
  Error, Result, ok, err, wrap, join, ◌>>=◌, map_err, sentinel, protocol_error, protocol_mismatch,
  devlist_truncated, unexpected_eof,
}
use usbip_go.Io.Readers.{IoReader, FullRead, read_full, full, short}
use usbip_go.Io.Readers.Agreement.{
  SameStream, Agree, both_ok, both_err, AgreeFull, both_full, both_short, read_full-AgreeFull,
  >>=-Agree, map_err-Agree,
}
use usbip_go.Io.Buffered.{BufReader, new_reader, buffered_reader}
use usbip_go.Domain.Device.{Device, Interface}
use usbip_go.Wire.Fields.{
  DecodeFlags, no_flags, read_padded_string, padded_string_from_bytes, short_read, is_short,
}
use usbip_go.Wire.Header.{
  Header, decode_header, decode_header_allow_status, header_size, parse_header, map_header_read_err,
  op_rep_import, op_req_import, op_rep_devlist,
}
use usbip_go.Wire.Layout.{decode_device, decode_device_buf, device_wire_size}
use usbip_go.Wire.ImportOp.{
  decode_op_req_import, decode_op_req_import_body, decode_op_rep_import, check_bus_id_field,
  map_import_status,
}
use usbip_go.Wire.Devlist.{
  decode_interfaces, interface_wire_size, parse_interfaces, decode_devlist_device_at,
  device_at_error, decode_devices, merge_device_truncation_flags, decode_devlist_body,
}

module _ {R S : Type 0} ⦃ior : IoReader R⦄ ⦃ios : IoReader S⦄ where
  -- A value that does not depend on the reader, or an error.
  pure-Agree :
      {A : Type 0} (m : Result A) (r : R) (s : S)
      → SameStream r s
      → Agree A (m >>= λ a. ok (a, r)) (m >>= λ a. ok (a, s))
  pure-Agree (ok a) r s same = both_ok a r s same
  pure-Agree (err e) r s same = both_err e

  -- A check that fails alike on both sides.
  guard-Agree :
      {A : Type 0} (bad : Bool) (e : Error) {m : Result (A × R)} {m' : Result (A × S)}
      → Agree A m m'
      → Agree A (if bad then err e else m) (if bad then err e else m')
  guard-Agree true e h = both_err e
  guard-Agree false e h = h

  -- One ReadFull, with what becomes of its two answers.
  read_then-Agree :
      {A : Type 0} {x : FullRead R} {y : FullRead S} (on_full : List ℕ → Result A)
      (on_short : ℕ → Error → Error)
      → AgreeFull x y
      → Agree A
          (elim x [ full buf r ↦ on_full buf >>= λ a. ok (a, r) | short n e ↦ err (on_short n e) ])
          (elim y [ full buf s ↦ on_full buf >>= λ a. ok (a, s) | short n e ↦ err (on_short n e) ])
  read_then-Agree on_full on_short (both_full buf r s same) = pure-Agree (on_full buf) r s same
  read_then-Agree on_full on_short (both_short n e) = both_err (on_short n e)

  decode_header_allow-Agree :
      (r : R) (s : S)
      → SameStream r s
      → Agree Header (decode_header_allow_status r) (decode_header_allow_status s)
  unfolding decode_header_allow_status
  decode_header_allow-Agree r s same =
      read_then-Agree parse_header map_header_read_err (read_full-AgreeFull header_size r s same)

  pub decode_header-Agree :
      (r : R) (s : S) → SameStream r s → Agree Header (decode_header r) (decode_header s)
  unfolding decode_header
  decode_header-Agree r s same =
      >>=-Agree _ _ _ _ (decode_header_allow-Agree r s same) (λ h r' s' same'.
        guard-Agree (not (h.status == 0)) (wrap (sentinel protocol_error)) (both_ok h r' s' same'))

  pub decode_device-Agree :
      (r : R) (s : S)
      → SameStream r s
      → Agree (Device × DecodeFlags) (decode_device r) (decode_device s)
  unfolding decode_device
  decode_device-Agree r s same =
      read_then-Agree decode_device_buf (λ n e. short_read e)
        (read_full-AgreeFull device_wire_size r s same)

  read_padded-Agree :
      (r : R) (s : S) (size : ℕ)
      → SameStream r s
      → Agree (List ℕ × Bool) (read_padded_string r size) (read_padded_string s size)
  unfolding read_padded_string
  read_padded-Agree r s size same =
      read_then-Agree (λ buf. ok (padded_string_from_bytes buf)) (λ n e. short_read e)
        (read_full-AgreeFull size r s same)

  import_body-Agree :
      (r : R) (s : S)
      → SameStream r s
      → Agree (List ℕ) (decode_op_req_import_body r) (decode_op_req_import_body s)
  unfolding decode_op_req_import_body
  import_body-Agree r s same =
      >>=-Agree _ _ _ _ (read_padded-Agree r s 32 same)
        (λ p r' s' same'. pure-Agree (check_bus_id_field p.0 p.1) r' s' same')

  -- An import request is decoded alike from any two readers of one stream.
  pub decode_op_req_import-Agree :
      (r : R) (s : S)
      → SameStream r s
      → Agree (List ℕ) (decode_op_req_import r) (decode_op_req_import s)
  unfolding decode_op_req_import
  decode_op_req_import-Agree r s same =
      >>=-Agree _ _ _ _ (decode_header-Agree r s same) (λ h r' s' same'.
        guard-Agree (not (h.op == op_req_import)) (wrap (sentinel protocol_mismatch))
          (import_body-Agree r' s' same'))

  -- An import reply is decoded alike from any two readers of one stream.
  pub decode_op_rep_import-Agree :
      (r : R) (s : S)
      → SameStream r s
      → Agree (Device × DecodeFlags) (decode_op_rep_import r) (decode_op_rep_import s)
  unfolding decode_op_rep_import
  decode_op_rep_import-Agree r s same =
      >>=-Agree _ _ _ _ (decode_header_allow-Agree r s same) (λ h r' s' same'.
        guard-Agree (not (h.op == op_rep_import)) (wrap (sentinel protocol_mismatch)) (
          guard-Agree (not (h.status == 0)) (wrap (map_import_status h.status))
            (decode_device-Agree r' s' same')))
