-- ===== src/Tests/Wire.antt =====
-- The codec.
use usbip_go.Prelude.{
  ℕ, ◌<◌, ◌≡◌, refl, Bool, true, false, List, [], ◌∷◌, ◌++◌, All, length, replicate, arith,
  append-nil,
}
use usbip_go.Io.Errors.{ok, err, wrap, sentinel, protocol_error, eof}
use usbip_go.Io.Readers.{read_full, read_loop}
use usbip_go.Io.Conn.{Conn, conn_reader}
use usbip_go.Io.Writers.{output, holding}
use usbip_go.Io.Buffered.{BufReader, buffered_reader}
use usbip_go.Bytes.{IsByte}
use usbip_go.Domain.Device.{bus_id_size, protocol_version}
use usbip_go.Domain.BusId.{validate_wire_bus_id, all_wire_runes, is_empty}
use usbip_go.Domain.BusId.Acceptance.{IsSafeByte}
use usbip_go.Wire.Fields.{
  write_padded_string, read_padded_string, padded_string_from_bytes, is_all_printable, cut_before,
  cut_found, no_flags,
}
use usbip_go.Wire.Header.{
  Header, op_req_devlist, encode_header, decode_header, op_req_import, op_rep_import,
  is_known_op_code, decode_header_allow_status, parse_header,
}
use usbip_go.Wire.Layout.{encode_device, decode_device, device_wire_size}
use usbip_go.Wire.Layout.Codec.{decode-encode_device, on_wire}
use usbip_go.Wire.ImportOp.{
  encode_op_req_import, decode_op_req_import, encode_op_rep_import, encode_op_rep_import_error,
  decode_op_req_import_body, check_bus_id_field,
}
use usbip_go.Wire.ImportOp.Codec.{encode_op_rep_import_error-other}
use usbip_go.Wire.ImportOp.Requests.{decode_op_req_import-safe}
use usbip_go.Wire.Devlist.{encode_op_rep_devlist, decode_op_rep_devlist}
use usbip_go.Wire.Devlist.Interfaces.{delivered}
use usbip_go.Wire.Devlist.RoundTrip.{decode-encode_op_rep_devlist}
use usbip_go.Wire.Agreement.Lists.{decode_op_rep_devlist-AgreeList, AgreeList}
use usbip_go.Io.Readers.Agreement.{SameStream}
use usbip_go.Tests.Samples.{bus_1_1_2, mouse, mouse-IsEncodable, one_chunk, singles}

-- A stream in one chunk holds that chunk.
chunk_pending : (l : List ℕ) → conn_reader.pending (one_chunk l) ≡ l
chunk_pending l = append-nil l

printable : is_all_printable bus_1_1_2 ≡ true
unfolding is_all_printable
printable = refl

abbrev field_stream : Conn
field_stream = one_chunk (output (write_padded_string bus_1_1_2 32) ++ (7 ∷ []))

known : is_known_op_code op_rep_import ≡ true
unfolding is_known_op_code
known = refl

abbrev header_stream : Conn
header_stream = one_chunk (encode_header op_rep_import 2 ++ (9 ∷ []))

abbrev device_stream : Conn
device_stream = one_chunk (output (encode_device mouse) ++ (9 ∷ []))

decode-encode_device_example :
    (length (output (encode_device mouse)) ≡ device_wire_size)
    × ((r' : Conn) × (decode_device device_stream ≡ ok ((on_wire mouse, no_flags), r'))
        × (conn_reader.pending r' ≡ 9 ∷ [])
        × (conn_reader.ending r' ≡ sentinel eof))
decode-encode_device_example =
    decode-encode_device mouse (9 ∷ []) device_stream mouse-IsEncodable (chunk_pending _)

on_wire_valid : validate_wire_bus_id bus_1_1_2 ≡ ok bus_1_1_2
unfolding validate_wire_bus_id all_wire_runes
on_wire_valid = refl

abbrev request_stream : Conn
request_stream = one_chunk (output (encode_op_req_import bus_1_1_2) ++ (9 ∷ []))

abbrev reply_stream : Conn
reply_stream = one_chunk (output (encode_op_rep_import mouse) ++ [])

abbrev list_stream : Conn
list_stream = one_chunk (output (encode_op_rep_devlist (mouse ∷ mouse ∷ [])) ++ [])

decode-encode_op_rep_devlist_example :
    (br : BufReader Conn) × (trailing : Bool) × (decode_op_rep_devlist list_stream
      ≡ ok (
        (
          delivered mouse ∷ delivered mouse ∷ [],
          record { truncated_padded_strings = []; trailing_bytes = trailing },
        ),
        br,
      ))
    × (buffered_reader.pending br ≡ [])
    × (buffered_reader.ending br ≡ sentinel eof)
    × (◌≡◌ {A = List ℕ} [] [] → trailing ≡ false)
decode-encode_op_rep_devlist_example =
    decode-encode_op_rep_devlist (mouse ∷ mouse ∷ []) [] list_stream
      (mouse-IsEncodable, (mouse-IsEncodable, tt)) (omega arith) (chunk_pending _)

-- One frame at once, and byte by byte.
abbrev frame : List ℕ
frame = 1 ∷ 17 ∷ 0 ∷ 5 ∷ 0 ∷ 0 ∷ 0 ∷ 0 ∷ 0 ∷ 0 ∷ 0 ∷ 0 ∷ 9 ∷ []

abbrev at_once : Conn
at_once = one_chunk frame

abbrev dribble : Conn
dribble = record { chunks = singles frame; failure = sentinel eof }

decode_op_rep_devlist-AgreeList_example :
    AgreeList (decode_op_rep_devlist at_once) (decode_op_rep_devlist dribble)
decode_op_rep_devlist-AgreeList_example = decode_op_rep_devlist-AgreeList at_once dribble refl refl

abbrev request_bytes : List ℕ
request_bytes = 1 ∷ 17 ∷ 128 ∷ 3 ∷ 0 ∷ 0 ∷ 0 ∷ 0 ∷ 49 ∷ 45 ∷ 49 ∷ replicate 29 0

abbrev request : Conn
request = one_chunk request_bytes

abbrev spent : Conn
spent = record { chunks = []; failure = sentinel eof }

request_decoded : decode_op_req_import request ≡ ok (49 ∷ 45 ∷ 49 ∷ [], spent)
unfolding decode_op_req_import decode_header decode_header_allow_status parse_header
    is_known_op_code read_full read_loop decode_op_req_import_body read_padded_string
    padded_string_from_bytes cut_before cut_found is_all_printable check_bus_id_field
    validate_wire_bus_id all_wire_runes
request_decoded = refl

decode_op_req_import-safe_example :
    ((field : List ℕ) × (length field ≡ 32)
      × ((rest : List ℕ) × (field ≡ (49 ∷ 45 ∷ 49 ∷ []) ++ (0 ∷ rest)))
      × (conn_reader.pending request ≡ encode_header op_req_import 0 ++ (field ++ [])))
    × (is_empty (49 ∷ 45 ∷ 49 ∷ []) ≡ false)
    × (3 < bus_id_size)
    × All IsSafeByte (49 ∷ 45 ∷ 49 ∷ [])
decode_op_req_import-safe_example =
    decode_op_req_import-safe request spent (49 ∷ 45 ∷ 49 ∷ []) (omega arith) request_decoded

abbrev op_devlist_request : Conn
op_devlist_request = one_chunk (1 ∷ 17 ∷ 128 ∷ 5 ∷ 0 ∷ 0 ∷ 0 ∷ 0 ∷ [])

op_devlist_request-bytes : All IsByte (conn_reader.pending op_devlist_request)
op_devlist_request-bytes = omega arith

abbrev op_devlist_header : Header
op_devlist_header = record { version = protocol_version; op = op_req_devlist; status = 0 }

op_devlist_decoded : decode_header op_devlist_request ≡ ok (op_devlist_header, spent)
unfolding decode_header decode_header_allow_status parse_header is_known_op_code read_full read_loop
op_devlist_decoded = refl

encode_op_rep_import_error-other_example :
    encode_op_rep_import_error 5 (holding []) ≡ (holding [], err (wrap (sentinel protocol_error)))
encode_op_rep_import_error-other_example =
    encode_op_rep_import_error-other 5 (holding []) (omega arith) (omega arith) (omega arith)
      (omega arith)

abbrev request_dribble : Conn
request_dribble = record { chunks = singles request_bytes; failure = sentinel eof }

same_request : SameStream request request_dribble
same_request = record { same_pending = refl; same_ending = refl }
