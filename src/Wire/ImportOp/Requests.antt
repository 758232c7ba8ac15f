-- ===== src/Wire/ImportOp/Requests.antt =====
-- Every import request that is accepted, whatever bytes the peer sent.
use usbip_go.Prelude.{
  subst, ◌∷◌, ℕ, ◌<◌, ◌≡◌, sym, ap, ◌∙◌, inl, inr, Bool, false, not, List, ◌++◌, arith, length,
  Bool-cases, ◌==◌, All, if◌then◌else◌, ==→eq, take, take-append-drop, length-take_le,
}
use usbip_go.Bytes.{IsByte}
use usbip_go.Io.Errors.{
  Result, ok, err, wrap, >>=-eq-ok, ok_first, ok_second, sentinel, protocol_mismatch,
}
use usbip_go.Io.Readers.{IoReader}
use usbip_go.Io.Readers.ReadFull.{read_full_cases}
use usbip_go.Domain.Device.{bus_id_size}
use usbip_go.Domain.BusId.{is_empty, validate_wire_bus_id}
use usbip_go.Domain.BusId.Acceptance.{validate_wire_bus_id-safe, IsSafeByte}
use usbip_go.Wire.Fields.{padded_string_from_bytes, read_padded_string}
use usbip_go.Wire.Fields.PaddedStrings.{Classified, Ending, terminated, padded_string-Classified}
use usbip_go.Wire.Header.{Header, encode_header, op_req_import, decode_header}
use usbip_go.Wire.Header.Codec.{encode-decode_header}
use usbip_go.Wire.ImportOp.{decode_op_req_import, decode_op_req_import_body, check_bus_id_field}

-- A field that is read without the flag holds the string with a NUL behind it.
terminated_field :
    (field b : List ℕ)
    → padded_string_from_bytes field ≡ (b, false)
    → (rest : List ℕ) × (field ≡ b ++ (0 ∷ rest))
terminated_field field b f =
    let c : Classified field (b, false) =
      subst (Classified field) f (padded_string-Classified field) in
    at_nul c.1
  where
    at_nul : Ending field b false → (rest : List ℕ) × (field ≡ b ++ (0 ∷ rest))
    at_nul (terminated rest e) = (rest, e)

check_sound :
    (s b : List ℕ) (truncated : Bool)
    → check_bus_id_field s truncated ≡ ok b
    → (truncated ≡ false) × (validate_wire_bus_id s ≡ ok b)
unfolding check_bus_id_field
check_sound s b truncated e = ground arith

module _ {R : Type 0} ⦃io : IoReader R⦄ where
  -- A field that is read is the front of the stream.
  read_field :
      (r r' : R) (size : ℕ) (s : List ℕ) (truncated : Bool)
      → read_padded_string r size ≡ ok ((s, truncated), r')
      → (field : List ℕ) × (length field ≡ size)
        × (padded_string_from_bytes field ≡ (s, truncated))
        × (io.pending r ≡ field ++ io.pending r')
  unfolding read_padded_string
  read_field r r' size s truncated e = elim (read_full_cases size r) [
    | inl (enough, (r1, q, more, ends)) ↦
        let field = take size (io.pending r) in
        let e' : ◌≡◌ {A = Result ((List ℕ × Bool) × R)} (ok (padded_string_from_bytes field, r1))
            (ok ((s, truncated), r')) =
          rw (q, read_padded_string) at e in
        (
          field,
          length-take_le size _ enough,
          ok_first e',
          sym (take-append-drop size (io.pending r))
              ∙ ap (λ l. field ++ l) (sym more ∙ ap io.pending (ok_second e')),
        )
    | inr (less, q) ↦ cc (rw (q, read_padded_string) at e)
  ]

  body_sound :
      (r r' : R) (b : List ℕ)
      → decode_op_req_import_body r ≡ ok (b, r')
      → (field : List ℕ) × (length field ≡ bus_id_size)
        × (padded_string_from_bytes field ≡ (b, false))
        × (validate_wire_bus_id b ≡ ok b)
        × (io.pending r ≡ field ++ io.pending r')
  unfolding decode_op_req_import_body
  body_sound r r' b e =
      let (((s, truncated), r1), q, p) = >>=-eq-ok (read_padded_string r bus_id_size) _ e in
      let (b', c, d) = >>=-eq-ok (check_bus_id_field s truncated) _ p in
      let (whole, valid) = check_sound s b' truncated c in
      let (field, l, f, more) = read_field r r1 bus_id_size s truncated q in
      let same : b' ≡ b = ok_first d in
      let named : s ≡ b = sym (validate_wire_bus_id-safe s valid).0 ∙ same in
      (
        field,
        l,
        f ∙ rw (named, whole),
        ap validate_wire_bus_id (sym named) ∙ (valid ∙ ap ok same),
        more ∙ ap (λ x. field ++ io.pending x) (ok_second d),
      )

  op_checked :
      (h : Header) (r r' : R) (b : List ℕ)
      → (if not (h.op == op_req_import)
          then err (wrap (sentinel protocol_mismatch))
          else decode_op_req_import_body r)
        ≡ ok (b, r')
      → (h.op ≡ op_req_import) × (decode_op_req_import_body r ≡ ok (b, r'))
  op_checked h r r' b e = elim (Bool-cases (h.op == op_req_import)) [
    | inl y ↦ (==→eq h.op op_req_import y, rw y at e)
    | inr n ↦ cc (rw n at e)
  ]

  -- A stream of bytes from which an import request is decoded began with the request header and a
  -- field of 32 bytes, which are those of this bus id, a NUL and any others; and the bus id has
  -- between 1 and 31 bytes, each printable, no space and no slash.
  pub decode_op_req_import-safe :
      (r r' : R) (b : List ℕ)
      → All IsByte (io.pending r)
      → decode_op_req_import r ≡ ok (b, r')
      → ((field : List ℕ) × (length field ≡ 32)
          × ((rest : List ℕ) × (field ≡ b ++ (0 ∷ rest)))
          × (io.pending r ≡ encode_header op_req_import 0 ++ (field ++ io.pending r')))
        × (is_empty b ≡ false)
        × (length b < bus_id_size)
        × All IsSafeByte b
  unfolding decode_op_req_import
  decode_op_req_import-safe r r' b bytes e =
      let ((h, r1), q, p) = >>=-eq-ok (decode_header r) _ e in
      let (op, body) = op_checked h r1 r' b p in
      let (_, _, _, front, _) = encode-decode_header r r1 h bytes q in
      let (field, l, f, valid, more) = body_sound r1 r' b body in
      let (_, n, small, safe) = validate_wire_bus_id-safe b valid in
      ((field, l, terminated_field field b f, front ∙ rw (op, more)), n, small, safe)
