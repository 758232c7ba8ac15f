-- ===== src/Wire/Header.antt =====
-- internal/adapter/wire/header.go and opcodes.go: the eight-byte OP header.
pub mod Codec
use usbip_go.Prelude.{ℕ, Bool, not, ◌&&◌, ◌||◌, List, replicate, ◌==◌, if◌then◌else◌}
use usbip_go.Bytes.{u16_bytes, u32_bytes, put_at, u16_at, u32_at}
use usbip_go.Io.Errors.{
  Error, Result, ok, err, ◌>>=◌, wrap, sentinel, eof, unexpected_eof, protocol_mismatch,
  protocol_error, errors_is,
}
use usbip_go.Io.Readers.{IoReader, full, short, read_full}
use usbip_go.Domain.Device.{protocol_version}
use usbip_go.Wire.Fields.{is_short}

abbrev pub op_req_devlist : ℕ
op_req_devlist = 0x8005

abbrev pub op_rep_devlist : ℕ
op_rep_devlist = 0x0005

abbrev pub op_req_import : ℕ
op_req_import = 0x8003

abbrev pub op_rep_import : ℕ
op_rep_import = 0x0003

-- isKnownOpCode.
unfoldable pub is_known_op_code : ℕ → Bool
is_known_op_code op =
    op == op_req_devlist || (op == op_rep_devlist || (op == op_req_import || op == op_rep_import))

abbrev pub header_size : ℕ
header_size = 8

abbrev pub off_hdr_version : ℕ
off_hdr_version = 0

abbrev pub off_hdr_op_code : ℕ
off_hdr_op_code = 2

abbrev pub off_hdr_status : ℕ
off_hdr_status = 4

-- EncodeHeader.
unfoldable pub encode_header : ℕ → ℕ → List ℕ
encode_header op status =
    let buf : List ℕ = replicate header_size 0 in
    let buf1 = put_at off_hdr_version (u16_bytes protocol_version) buf in
    let buf2 = put_at off_hdr_op_code (u16_bytes op) buf1 in
    put_at off_hdr_status (u32_bytes status) buf2

pub record Header : Type 0 where
  pub version : ℕ
  pub op : ℕ
  pub status : ℕ

-- mapHeaderReadErr.
unfoldable pub map_header_read_err : ℕ → Error → Error
map_header_read_err n e =
    if n == 0 && errors_is e eof
    then sentinel eof
    else if is_short e
    then wrap (sentinel unexpected_eof)
    else wrap e

-- The checks of decodeHeaderAllowStatus on the eight bytes.
unfoldable pub parse_header : List ℕ → Result Header
parse_header buf =
    let version = u16_at buf off_hdr_version in
    let op = u16_at buf off_hdr_op_code in
    let status = u32_at buf off_hdr_status in
    if not (version == protocol_version)
    then err (wrap (sentinel protocol_mismatch))
    else if not (is_known_op_code op)
    then err (wrap (sentinel protocol_mismatch))
    else ok (record { version = version; op = op; status = status })

-- decodeHeaderAllowStatus.
unfoldable pub decode_header_allow_status : {R : Type 0} ⦃io : IoReader R⦄ → R → Result (Header × R)
decode_header_allow_status r = elim (read_full header_size r) [
  | full buf r' ↦ parse_header buf >>= λ h. ok (h, r')
  | short n e ↦ err (map_header_read_err n e)
]

-- DecodeHeader.
unfoldable pub decode_header : {R : Type 0} ⦃io : IoReader R⦄ → R → Result (Header × R)
decode_header r = do
  (h, r') ← decode_header_allow_status r
  if not (h.status == 0) then err (wrap (sentinel protocol_error)) else ok (h, r')
