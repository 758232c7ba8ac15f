-- ===== src/Wire/ImportOp.antt =====
-- internal/adapter/wire/import_op.go: the import request and its reply.
pub mod Codec
pub mod Requests
use usbip_go.Prelude.{ℕ, Bool, not, ◌||◌, List, ◌==◌, if◌then◌else◌}
use usbip_go.Io.Errors.{
  Error, Result, ok, err, ◌>>=◌, map_err, wrap, sentinel, busid_invalid, device_not_found,
  device_already_bound, device_unavailable, protocol_error, protocol_mismatch,
}
use usbip_go.Io.Readers.{IoReader}
use usbip_go.Io.Writers
use usbip_go.Io.Writers.{Encoder, write, fail}
use usbip_go.Domain.Device.{Device, bus_id_size}
use usbip_go.Domain.BusId.{validate_wire_bus_id}
use usbip_go.Wire.Fields.{DecodeFlags, write_padded_string, read_padded_string}
use usbip_go.Wire.Header.{
  op_req_import, op_rep_import, encode_header, decode_header, decode_header_allow_status,
}
use usbip_go.Wire.Layout.{encode_device, decode_device}

abbrev pub import_status_na : ℕ
import_status_na = 1

abbrev pub import_status_dev_busy : ℕ
import_status_dev_busy = 2

abbrev pub import_status_dev_err : ℕ
import_status_dev_err = 3

abbrev pub import_status_no_dev : ℕ
import_status_no_dev = 4

-- EncodeOpReqImport. The header goes out before the bus id is checked.
unfoldable pub encode_op_req_import : List ℕ → Encoder (Unit {0})
encode_op_req_import bus_id =
    Writers.◌>>◌ (write wrap (encode_header op_req_import 0))
      (write_padded_string bus_id bus_id_size)

-- What DecodeOpReqImportBody does with the field that it read.
unfoldable pub check_bus_id_field : List ℕ → Bool → Result (List ℕ)
check_bus_id_field bus_id truncated =
    if truncated
    then err (wrap (sentinel busid_invalid))
    else map_err wrap (validate_wire_bus_id bus_id)

-- DecodeOpReqImportBody.
unfoldable pub decode_op_req_import_body : {R : Type 0} ⦃io : IoReader R⦄ → R → Result (List ℕ × R)
decode_op_req_import_body r = do
  ((bus_id, truncated), r') ← read_padded_string r bus_id_size
  parsed ← check_bus_id_field bus_id truncated
  ok (parsed, r')

-- DecodeOpReqImport.
unfoldable pub decode_op_req_import : {R : Type 0} ⦃io : IoReader R⦄ → R → Result (List ℕ × R)
decode_op_req_import r = do
  (h, r') ← decode_header r
  if not (h.op == op_req_import)
      then err (wrap (sentinel protocol_mismatch))
      else decode_op_req_import_body r'

-- EncodeOpRepImport.
unfoldable pub encode_op_rep_import : Device → Encoder (Unit {0})
encode_op_rep_import d = Writers.◌>>◌ (write wrap (encode_header op_rep_import 0)) (encode_device d)

-- EncodeOpRepImportError.
unfoldable pub encode_op_rep_import_error : ℕ → Encoder (Unit {0})
encode_op_rep_import_error status =
    if status == import_status_na
      || (status == import_status_dev_busy
          || (status == import_status_dev_err || status == import_status_no_dev))
    then write wrap (encode_header op_rep_import status)
    else fail (wrap (sentinel protocol_error))

-- mapImportStatus.
unfoldable pub map_import_status : ℕ → Error
map_import_status status =
    if status == import_status_na || status == import_status_no_dev
    then sentinel device_not_found
    else if status == import_status_dev_busy
    then sentinel device_already_bound
    else if status == import_status_dev_err
    then sentinel device_unavailable
    else sentinel protocol_error

-- DecodeOpRepImport.
unfoldable pub decode_op_rep_import :
    {R : Type 0} ⦃io : IoReader R⦄ → R → Result ((Device × DecodeFlags) × R)
decode_op_rep_import r = do
  (h, r') ← decode_header_allow_status r
  if not (h.op == op_rep_import)
      then err (wrap (sentinel protocol_mismatch))
      else if not (h.status == 0)
      then err (wrap (map_import_status h.status))
      else decode_device r'
