-- ===== src/Wire/Devlist.antt =====
-- internal/adapter/wire/devlist.go: the device list request and its reply.
pub mod Interfaces
pub mod RoundTrip
use usbip_go.Prelude.{
  ℕ, zero, suc, ◌-◌, ◌*◌, ◌^◌, Bool, not, List, [], ◌∷◌, ◌++◌, map, ltb, ◌==◌, if◌then◌else◌,
  length,
}
use usbip_go.Bytes.{u32_bytes, u32_of}
use usbip_go.Io.Errors.{
  Error, Result, ok, err, ◌>>=◌, map_err, wrap, wrap_at, join, sentinel, errors_is, unexpected_eof,
  protocol_mismatch, devlist_truncated, devlist_count_overflow,
}
use usbip_go.Io.Readers.{IoReader, full, short, read_full}
use usbip_go.Io.Writers
use usbip_go.Io.Writers.{Encoder, write, fail, return, Writer}
use usbip_go.Io.Buffered.{BufReader, new_reader, buffered_reader}
use usbip_go.Domain.Device.{Device, Interface}
use usbip_go.Wire.Fields.{DecodeFlags, Truncation, no_flags, short_read, is_short}
use usbip_go.Wire.Header.{op_req_devlist, op_rep_devlist, encode_header, decode_header}
use usbip_go.Wire.Layout.{encode_device, decode_device}

abbrev pub interface_wire_size : ℕ
interface_wire_size = 4

abbrev pub devlist_count_size : ℕ
devlist_count_size = 4

abbrev pub max_devlist_devices : ℕ
max_devlist_devices = 1024

-- deviceCountU32; a length is never negative.
unfoldable pub device_count_u32 : ℕ → Result ℕ
device_count_u32 n =
    if ltb (2 ^ 32 - 1) n then err (wrap (sentinel devlist_count_overflow)) else ok n

-- EncodeOpReqDevlist.
unfoldable pub encode_op_req_devlist : List ℕ
encode_op_req_devlist = encode_header op_req_devlist 0

abbrev pub zero_descriptor : List ℕ
zero_descriptor = 0 ∷ 0 ∷ 0 ∷ 0 ∷ []

abbrev pub descriptor : Interface → List ℕ
descriptor i = i.class ∷ i.subclass ∷ i.protocol ∷ 0 ∷ []

-- encodeInterfaces: one descriptor for each of the rounds left, zeros past the end of the slice.
unfoldable pub encode_interfaces : ℕ → List Interface → Encoder (Unit {0})
encode_interfaces zero intfs = return tt
encode_interfaces (suc total) [] =
    Writers.◌>>◌ (write wrap zero_descriptor) (encode_interfaces total [])
encode_interfaces (suc total) (i ∷ intfs) =
    Writers.◌>>◌ (write wrap (descriptor i)) (encode_interfaces total intfs)

-- `err = EncodeDevice(w, d); if err != nil { return fmt.Errorf("encode device %d: %w", i, err) }`.
abbrev pub at_device : ℕ → Writer × Result (Unit {0}) → Writer × Result (Unit {0})
at_device i (w, ok a) = (w, ok a)
at_device i (w, err e) = (w, err (wrap_at i e))

-- The loop of EncodeOpRepDevlist, from device `i` on.
unfoldable pub encode_devices : ℕ → List Device → Encoder (Unit {0})
encode_devices i [] = return tt
encode_devices i (d ∷ devices) =
    Writers.◌>>◌ (λ w. at_device i (encode_device d w))
      (Writers.◌>>◌ (encode_interfaces d.num_interfaces d.interfaces)
        (encode_devices (suc i) devices))

abbrev pub lift : {A : Type 0} → Result A → Encoder A
lift r w = (w, r)

-- EncodeOpRepDevlist.
unfoldable pub encode_op_rep_devlist : List Device → Encoder (Unit {0})
encode_op_rep_devlist devices = Writers.◌>>◌ (write wrap (encode_header op_rep_devlist 0)) (
    Writers.◌>>=◌ (lift (device_count_u32 (length devices)))
      (λ count. Writers.◌>>◌ (write wrap (u32_bytes count)) (encode_devices 0 devices)))

-- The loop of decodeInterfaces over its buffer.
unfoldable pub parse_interfaces : ℕ → List ℕ → List Interface
parse_interfaces zero buf = []
parse_interfaces (suc count) (c ∷ s ∷ p ∷ x ∷ buf) =
    record { class = c; subclass = s; protocol = p; alt = 0 } ∷ parse_interfaces count buf
parse_interfaces (suc count) buf = []

-- decodeInterfaces.
unfoldable pub decode_interfaces :
    {R : Type 0} ⦃io : IoReader R⦄ → R → ℕ → Result (List Interface × R)
decode_interfaces r count =
    if count == 0 then ok ([], r) else elim (read_full (count * interface_wire_size) r) [
      | full buf r' ↦ ok (parse_interfaces count buf, r')
      | short n e ↦
          if is_short e
          then err (join (sentinel devlist_truncated) (sentinel unexpected_eof))
          else err (wrap e)
    ]

-- The error returns of decodeDevlistDeviceAt after DecodeDevice.
unfoldable pub device_at_error : ℕ → Error → Error
device_at_error idx e =
    if errors_is e unexpected_eof
    then wrap_at idx (join (sentinel devlist_truncated) (sentinel unexpected_eof))
    else wrap_at idx e

-- decodeDevlistDeviceAt.
unfoldable pub decode_devlist_device_at :
    {R : Type 0} ⦃io : IoReader R⦄ → R → ℕ → Result ((Device × DecodeFlags) × R)
decode_devlist_device_at r idx = do
  ((dev, dev_flags), r') ← map_err (device_at_error idx) (decode_device r)
  (intfs, r'') ← decode_interfaces r' dev.num_interfaces
  ok ((record dev { interfaces = intfs }, dev_flags), r'')

-- mergeDeviceTruncationFlags.
unfoldable pub merge_device_truncation_flags : DecodeFlags → DecodeFlags → ℕ → DecodeFlags
merge_device_truncation_flags dst src idx = record dst {
  truncated_padded_strings =
      dst.truncated_padded_strings
      ++ map (λ (t : Truncation). record t { device_index = idx }) src.truncated_padded_strings;
}

-- The loop of decodeDevlistBody, with `left` devices to come after the first `i`.
unfoldable pub decode_devices :
    {R : Type 0} ⦃io : IoReader R⦄
    → ℕ
    → ℕ
    → List Device
    → DecodeFlags
    → R
    → Result ((List Device × DecodeFlags) × R)
decode_devices zero i devices flags r = ok ((devices, flags), r)
decode_devices (suc left) i devices flags r = do
  ((dev, dev_flags), r') ← decode_devlist_device_at r i
  decode_devices left (suc i) (devices ++ (dev ∷ []))
      (merge_device_truncation_flags flags dev_flags i) r'

-- decodeDevlistBody.
unfoldable pub decode_devlist_body :
    {R : Type 0} ⦃io : IoReader R⦄ → R → ℕ → Result ((List Device × DecodeFlags) × R)
decode_devlist_body r count = decode_devices count 0 [] no_flags r

-- wrapUnexpectedEOF is the same function of the error as `short_read`.
-- hasTrailingBytes.
unfoldable pub has_trailing_bytes : {R : Type 0} → BufReader R → Bool
has_trailing_bytes br = ltb 0 (length br.buffered)

-- The devlist decoder past the header, on its buffered reader.
unfoldable pub decode_devlist_after_header :
    {R : Type 0} ⦃io : IoReader R⦄
    → BufReader R
    → Result ((List Device × DecodeFlags) × BufReader R)
decode_devlist_after_header br = elim (read_full devlist_count_size br) [
  | short n e ↦ err (short_read e)
  | full count_buf br' ↦
      let count = u32_of count_buf in
      if ltb max_devlist_devices count
      then err (wrap (sentinel protocol_mismatch))
      else (decode_devlist_body br' count >>= λ p.
          ok ((p.0.0, record (p.0.1) { trailing_bytes = has_trailing_bytes p.1 }), p.1))
]

-- DecodeOpRepDevlist of a bufio.Reader, which it reads from directly.
unfoldable pub decode_op_rep_devlist_buffered :
    {R : Type 0} ⦃io : IoReader R⦄
    → BufReader R
    → Result ((List Device × DecodeFlags) × BufReader R)
decode_op_rep_devlist_buffered br = do
  (h, br') ← decode_header br
  if not (h.op == op_rep_devlist)
      then err (wrap (sentinel protocol_mismatch))
      else decode_devlist_after_header br'

-- DecodeOpRepDevlist of any other reader.
unfoldable pub decode_op_rep_devlist :
    {R : Type 0} ⦃io : IoReader R⦄ → R → Result ((List Device × DecodeFlags) × BufReader R)
decode_op_rep_devlist r = decode_op_rep_devlist_buffered (new_reader r)
