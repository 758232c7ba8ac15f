-- ===== src/Wire/Layout/Codec.antt =====
-- The device descriptor on the wire: 312 bytes that are read back as the same device.
use usbip_go.Prelude.{
  ℕ, ◌+◌, ◌-◌, ◌≤◌, ◌<◌, ◌≡◌, refl, ap, ◌∙◌, true, false, List, [], ◌∷◌, ◌++◌, arith, length, take,
  drop, take-append, drop-append, drop-append_add, get_or, get_or-drop, replicate, length-append,
  le→ltb,
}
use usbip_go.Bytes.{IsU16, u16_of, u32_of, u16_bytes, u32_bytes, u16_of-u16_bytes, u32_of-u32_bytes}
use usbip_go.Io.Errors.{Error, ok, err, wrap, ◌>>=◌, >>=-ok}
use usbip_go.Io.Readers.{IoReader, read_full, full, short}
use usbip_go.Io.Readers.ReadFull.{read_full-Fills}
use usbip_go.Io.Writers.{Emits, write-Emits, >>-Emits, output, output-Emits}
use usbip_go.Domain.Device.{Device, InRange, is_known, bus_id_size, sys_path_size}
use usbip_go.Wire.Fields.{no_flags, padded_string_from_bytes, short_read}
use usbip_go.Wire.Fields.PaddedStrings.{
  IsPrintable, padded, length-padded, write_padded_string-Emits, padded_string-padded,
}
use usbip_go.Wire.Layout.{
  encode_device, encode_device_tail, decode_device, decode_device_buf, device_wire_size,
  device_tail_start,
}

-- The numeric fields, in the order of the wire.
abbrev pub tail_bytes : Device → List ℕ
tail_bytes d =
    u32_bytes d.bus_num
    ++ (u32_bytes d.dev_num
        ++ (u32_bytes d.speed
            ++ (u16_bytes d.vendor_id
                ++ (u16_bytes d.product_id
                    ++ (u16_bytes d.bcd_device
                        ++ (d.class ∷ d.subclass ∷ d.protocol ∷ d.config_value ∷ d.num_configs
                            ∷ d.num_interfaces ∷ []))))))

tail_layout :
    (d : Device)
    → encode_device_tail (replicate (device_wire_size - device_tail_start) 0) d ≡ tail_bytes d
unfolding encode_device_tail
tail_layout d = refl

-- The whole descriptor.
abbrev pub device_bytes : Device → List ℕ
device_bytes d = padded d.path sys_path_size ++ (padded d.bus_id bus_id_size ++ tail_bytes d)

-- What a device needs to be carried by the wire unchanged.
pub record IsEncodable (d : Device) : Type 0 where
  pub in_range : InRange d
  pub path_fits : length d.path < sys_path_size
  pub path_printable : IsPrintable d.path
  pub bus_id_fits : length d.bus_id < bus_id_size
  pub bus_id_printable : IsPrintable d.bus_id
  pub speed_known : is_known d.speed ≡ true

-- The fields that the descriptor carries; the others have Go's zero values.
abbrev pub on_wire : Device → Device
on_wire d = record d { manufacturer = []; product = []; interfaces = [] }

pub encode_device-Emits :
    (d : Device)
    → length d.path < sys_path_size
    → length d.bus_id < bus_id_size
    → Emits (encode_device d) (device_bytes d)
unfolding encode_device
encode_device-Emits d p b = rw (tail_layout d) (
    >>-Emits (write_padded_string-Emits d.path sys_path_size p) (
      >>-Emits (write_padded_string-Emits d.bus_id bus_id_size b)
        (write-Emits wrap (tail_bytes d))))

pub length-device_bytes :
    (d : Device)
    → length d.path < sys_path_size
    → length d.bus_id < bus_id_size
    → length (device_bytes d) ≡ device_wire_size
length-device_bytes d p b =
    length-append (padded d.path sys_path_size) _
    ∙ omega (
      arith,
      length-padded d.path sys_path_size p,
      length-padded d.bus_id bus_id_size b,
      length-append (padded d.bus_id bus_id_size) (tail_bytes d),
    )

drop_tail :
    (k : ℕ) (p b t : List ℕ)
    → length p ≡ 256
    → length b ≡ 32
    → drop (256 + (32 + k)) (p ++ (b ++ t)) ≡ drop k t
drop_tail k p b t hp hb = drop-append_add 256 (32 + k) p (b ++ t) hp ∙ drop-append_add 32 k b t hb

get_tail :
    (k : ℕ) (p b t : List ℕ)
    → length p ≡ 256
    → length b ≡ 32
    → get_or (p ++ (b ++ t)) (256 + (32 + k)) 0 ≡ get_or (drop k t) 0 0
get_tail k p b t hp hb =
    get_or-drop (256 + (32 + k)) _ 0 ∙ ap (λ l. get_or l 0 0) (drop_tail k p b t hp hb)

-- The device and the flags that a buffer with these fields decodes to.
decode_fields :
    (buf : List ℕ) (d : Device)
    → InRange d
    → is_known d.speed ≡ true
    → (padded_string_from_bytes (take 256 buf) ≡ (d.path, false))
    → (padded_string_from_bytes (take 32 (drop 256 buf)) ≡ (d.bus_id, false))
    → u32_of (drop 288 buf) ≡ d.bus_num
    → u32_of (drop 292 buf) ≡ d.dev_num
    → u32_of (drop 296 buf) ≡ d.speed
    → u16_of (drop 300 buf) ≡ d.vendor_id
    → u16_of (drop 302 buf) ≡ d.product_id
    → u16_of (drop 304 buf) ≡ d.bcd_device
    → get_or buf 306 0 ≡ d.class
    → get_or buf 307 0 ≡ d.subclass
    → get_or buf 308 0 ≡ d.protocol
    → get_or buf 309 0 ≡ d.config_value
    → get_or buf 310 0 ≡ d.num_configs
    → get_or buf 311 0 ≡ d.num_interfaces
    → decode_device_buf buf ≡ ok (on_wire d, no_flags)
unfolding decode_device_buf
decode_fields buf d v known ep eb e1 e2 e3 e4 e5 e6 e7 e8 e9 e10 e11 e12 = rw (
  ep,
  eb,
  e1,
  e2,
  e3,
  e4,
  e5,
  e6,
  e7,
  e8,
  e9,
  e10,
  e11,
  e12,
  known,
  le→ltb _ _ (bound d.bus_num v.bus_num_u16),
  le→ltb _ _ (bound d.dev_num v.dev_num_u16),
)
  where
    bound : (n : ℕ) → IsU16 n → n ≤ 65535
    bound n h = omega arith

-- The descriptor of an encodable device decodes to that device, with no flag set.
pub decode_device_buf-bytes :
    (d : Device) → IsEncodable d → decode_device_buf (device_bytes d) ≡ ok (on_wire d, no_flags)
decode_device_buf-bytes d h =
    let v = h.in_range in
    decode_fields (device_bytes d) d v h.speed_known
      (ap padded_string_from_bytes (take-append 256 p (b ++ t) hp)
        ∙ padded_string-padded d.path 256 h.path_fits h.path_printable)
      (ap (λ l. padded_string_from_bytes (take 32 l)) (drop-append 256 p (b ++ t) hp)
        ∙ (ap padded_string_from_bytes (take-append 32 b t hb)
            ∙ padded_string-padded d.bus_id 32 h.bus_id_fits h.bus_id_printable))
      (ap u32_of (at 0) ∙ u32_of-u32_bytes d.bus_num [] (omega (arith, v.bus_num_u16)))
      (ap u32_of (at 4) ∙ u32_of-u32_bytes d.dev_num [] (omega (arith, v.dev_num_u16)))
      (ap u32_of (at 8) ∙ u32_of-u32_bytes d.speed [] v.speed_u32)
      (ap u16_of (at 12) ∙ u16_of-u16_bytes d.vendor_id [] v.vendor_id_u16)
      (ap u16_of (at 14) ∙ u16_of-u16_bytes d.product_id [] v.product_id_u16)
      (ap u16_of (at 16) ∙ u16_of-u16_bytes d.bcd_device [] v.bcd_device_u16) (get 18) (get 19)
      (get 20) (get 21) (get 22) (get 23)
  where
    p : List ℕ
    p = padded d.path sys_path_size

    b : List ℕ
    b = padded d.bus_id bus_id_size

    t : List ℕ
    t = tail_bytes d

    hp : length p ≡ 256
    hp = length-padded d.path 256 h.path_fits

    hb : length b ≡ 32
    hb = length-padded d.bus_id 32 h.bus_id_fits

    at : (k : ℕ) → drop (256 + (32 + k)) (p ++ (b ++ t)) ≡ drop k t
    at k = drop_tail k p b t hp hb

    get : (k : ℕ) → get_or (p ++ (b ++ t)) (256 + (32 + k)) 0 ≡ get_or (drop k t) 0 0
    get k = get_tail k p b t hp hb

module _ {R : Type 0} ⦃io : IoReader R⦄ where
  decode_device-full :
      (r r' : R) (buf : List ℕ)
      → read_full device_wire_size r ≡ full buf r'
      → decode_device r ≡ (decode_device_buf buf >>= λ p. ok (p, r'))
  unfolding decode_device
  decode_device-full r r' buf e = rw (e, decode_device)

  decode_device-short :
      (r : R) (n : ℕ) (e : Error)
      → read_full device_wire_size r ≡ short n e
      → decode_device r ≡ err (short_read e)
  unfolding decode_device
  decode_device-short r n e h = rw (h, decode_device)

  -- The same over a stream that begins with the descriptor.
  pub decode_device-bytes :
      (d : Device) (rest : List ℕ) (r : R)
      → IsEncodable d
      → io.pending r ≡ device_bytes d ++ rest
      → (r' : R) × (decode_device r ≡ ok ((on_wire d, no_flags), r'))
        × (io.pending r' ≡ rest)
        × (io.ending r' ≡ io.ending r)
  decode_device-bytes d rest r h e =
      let (r', q, more, ends) =
        read_full-Fills device_wire_size (device_bytes d) rest r e
          (length-device_bytes d h.path_fits h.bus_id_fits) in
      (
        r',
        decode_device-full r r' _ q
            ∙ >>=-ok (decode_device_buf (device_bytes d)) _ _ (decode_device_buf-bytes d h),
        more,
        ends,
      )

  -- What EncodeDevice writes of an encodable device is 312 bytes, which DecodeDevice reads back as
  -- the device without its local fields, with no flag set, leaving what follows unread.
  pub decode-encode_device :
      (d : Device) (rest : List ℕ) (r : R)
      → IsEncodable d
      → io.pending r ≡ output (encode_device d) ++ rest
      → (length (output (encode_device d)) ≡ device_wire_size)
        × ((r' : R) × (decode_device r ≡ ok ((on_wire d, no_flags), r'))
            × (io.pending r' ≡ rest)
            × (io.ending r' ≡ io.ending r))
  decode-encode_device d rest r h e =
      let o = output-Emits (encode_device-Emits d h.path_fits h.bus_id_fits) in
      (
        ap length o ∙ length-device_bytes d h.path_fits h.bus_id_fits,
        decode_device-bytes d rest r h (e ∙ ap (λ l. l ++ rest) o),
      )
