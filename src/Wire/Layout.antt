-- ===== src/Wire/Layout.antt =====
-- internal/adapter/wire/layout.go: the 312-byte device descriptor.
pub mod Codec
use usbip_go.Prelude.{
  ℕ, ◌-◌, Bool, false, not, List, [], ◌∷◌, ◌++◌, replicate, take, drop, get_or, ltb, if◌then◌else◌,
  ◌^◌,
}
use usbip_go.Bytes.{u16_bytes, u32_bytes, put_at, u16_at, u32_at}
use usbip_go.Io.Errors.{
  Error, Result, ok, err, ◌>>=◌, wrap, join, sentinel, protocol_error, device_field_too_large,
}
use usbip_go.Io.Readers.{IoReader, full, short, read_full}
use usbip_go.Io.Writers
use usbip_go.Io.Writers.{Encoder, write}
use usbip_go.Domain.Device.{Device, is_known, bus_id_size, sys_path_size}
use usbip_go.Wire.Fields.{
  Field, device_path, device_bus_id, Truncation, DecodeFlags, write_padded_string,
  padded_string_from_bytes, short_read,
}

abbrev pub device_wire_size : ℕ
device_wire_size = 312

abbrev pub off_dev_path : ℕ
off_dev_path = 0

abbrev pub off_dev_bus_id : ℕ
off_dev_bus_id = 256

abbrev pub off_dev_bus_num : ℕ
off_dev_bus_num = 288

abbrev pub off_dev_dev_num : ℕ
off_dev_dev_num = 292

abbrev pub off_dev_speed : ℕ
off_dev_speed = 296

abbrev pub off_dev_vendor_id : ℕ
off_dev_vendor_id = 300

abbrev pub off_dev_product_id : ℕ
off_dev_product_id = 302

abbrev pub off_dev_bcd_device : ℕ
off_dev_bcd_device = 304

abbrev pub off_dev_class : ℕ
off_dev_class = 306

abbrev pub off_dev_subclass : ℕ
off_dev_subclass = 307

abbrev pub off_dev_protocol : ℕ
off_dev_protocol = 308

abbrev pub off_dev_config_value : ℕ
off_dev_config_value = 309

abbrev pub off_dev_num_configs : ℕ
off_dev_num_configs = 310

abbrev pub off_dev_num_intfs : ℕ
off_dev_num_intfs = 311

abbrev pub device_tail_start : ℕ
device_tail_start = off_dev_bus_num

-- encodeDeviceTail, over the buffer that it fills.
unfoldable pub encode_device_tail : List ℕ → Device → List ℕ
encode_device_tail buf d =
    let buf1 = put_at (off_dev_bus_num - device_tail_start) (u32_bytes d.bus_num) buf in
    let buf2 = put_at (off_dev_dev_num - device_tail_start) (u32_bytes d.dev_num) buf1 in
    let buf3 = put_at (off_dev_speed - device_tail_start) (u32_bytes d.speed) buf2 in
    let buf4 = put_at (off_dev_vendor_id - device_tail_start) (u16_bytes d.vendor_id) buf3 in
    let buf5 = put_at (off_dev_product_id - device_tail_start) (u16_bytes d.product_id) buf4 in
    let buf6 = put_at (off_dev_bcd_device - device_tail_start) (u16_bytes d.bcd_device) buf5 in
    let buf7 = put_at (off_dev_class - device_tail_start) (d.class ∷ []) buf6 in
    let buf8 = put_at (off_dev_subclass - device_tail_start) (d.subclass ∷ []) buf7 in
    let buf9 = put_at (off_dev_protocol - device_tail_start) (d.protocol ∷ []) buf8 in
    let buf10 = put_at (off_dev_config_value - device_tail_start) (d.config_value ∷ []) buf9 in
    let buf11 = put_at (off_dev_num_configs - device_tail_start) (d.num_configs ∷ []) buf10 in
    put_at (off_dev_num_intfs - device_tail_start) (d.num_interfaces ∷ []) buf11

-- EncodeDevice.
unfoldable pub encode_device : Device → Encoder (Unit {0})
encode_device d = Writers.◌>>◌ (write_padded_string d.path sys_path_size) (
    Writers.◌>>◌ (write_padded_string d.bus_id bus_id_size) (
      let tail = encode_device_tail (replicate (device_wire_size - device_tail_start) 0) d in
      write wrap tail))

-- errDeviceFieldTooLarge wraps ErrProtocolError; both are found in it.
abbrev pub err_device_field_too_large : Error
err_device_field_too_large = join (sentinel device_field_too_large) (sentinel protocol_error)

-- `if truncated { append(flags.TruncatedPaddedStrings, {Field: field}) }`.
abbrev pub note_truncated : Bool → Field → List Truncation → List Truncation
note_truncated truncated field list =
    if truncated then list ++ (record { field = field; device_index = 0 } ∷ []) else list

-- decodeDeviceBuf. Manufacturer, Product and Interfaces keep their zero values.
unfoldable pub decode_device_buf : List ℕ → Result (Device × DecodeFlags)
decode_device_buf buf =
    let (path, path_truncated) =
      padded_string_from_bytes (take off_dev_bus_id (drop off_dev_path buf)) in
    let (bus_id, bus_id_truncated) =
      padded_string_from_bytes
        (take (off_dev_bus_num - off_dev_bus_id) (drop off_dev_bus_id buf)) in
    let bus_num32 = u32_at buf off_dev_bus_num in
    let dev_num32 = u32_at buf off_dev_dev_num in
    let speed = u32_at buf off_dev_speed in
    if ltb (2 ^ 16 - 1) bus_num32
    then err (wrap err_device_field_too_large)
    else if ltb (2 ^ 16 - 1) dev_num32
    then err (wrap err_device_field_too_large)
    else if not (is_known speed)
    then err (wrap (sentinel protocol_error))
    else ok (
      record {
        path = path;
        bus_id = bus_id;
        bus_num = bus_num32;
        dev_num = dev_num32;
        speed = speed;
        vendor_id = u16_at buf off_dev_vendor_id;
        product_id = u16_at buf off_dev_product_id;
        bcd_device = u16_at buf off_dev_bcd_device;
        class = get_or buf off_dev_class 0;
        subclass = get_or buf off_dev_subclass 0;
        protocol = get_or buf off_dev_protocol 0;
        config_value = get_or buf off_dev_config_value 0;
        num_configs = get_or buf off_dev_num_configs 0;
        num_interfaces = get_or buf off_dev_num_intfs 0;
        manufacturer = [];
        product = [];
        interfaces = [];
      },
      record {
        truncated_padded_strings =
            note_truncated bus_id_truncated device_bus_id
              (note_truncated path_truncated device_path []);
        trailing_bytes = false;
      },
    )

-- DecodeDevice.
unfoldable pub decode_device :
    {R : Type 0} ⦃io : IoReader R⦄ → R → Result ((Device × DecodeFlags) × R)
decode_device r = elim (read_full device_wire_size r) [
  | full buf r' ↦ decode_device_buf buf >>= λ p. ok (p, r')
  | short n e ↦ err (short_read e)
]
