-- ===== src/Wire/Devlist/Interfaces.antt =====
-- Interface descriptors and single devices of a devlist.
use usbip_go.Prelude.{
  ℕ, zero, suc, ◌*◌, ◌≡◌, refl, ap, ◌∙◌, List, [], ◌∷◌, ◌++◌, arith, length, append_assoc,
  append-nil, ne→==,
}
use usbip_go.Io.Errors.{ok, wrap, >>=-ok, map_err}
use usbip_go.Io.Readers.{IoReader, read_full, full}
use usbip_go.Io.Readers.ReadFull.{read_full-Fills}
use usbip_go.Io.Writers.{Emits, write-Emits, >>-Emits, return-Emits, Encoder}
use usbip_go.Domain.Device.{Device, Interface}
use usbip_go.Wire.Fields.{no_flags, DecodeFlags}
use usbip_go.Wire.Layout.{decode_device}
use usbip_go.Wire.Layout.Codec.{IsEncodable, on_wire, device_bytes, decode_device-bytes}
use usbip_go.Wire.Devlist.{
  interface_wire_size, zero_descriptor, descriptor, encode_interfaces, at_device, parse_interfaces,
  decode_interfaces, device_at_error, decode_devlist_device_at, merge_device_truncation_flags,
}

-- The declared count wins: missing interfaces are zero, extra ones dropped, and the alternate
-- setting is not carried.
abbrev pub fit_interfaces : ℕ → List Interface → List Interface
fit_interfaces zero intfs = []
fit_interfaces (suc n) [] =
    record { class = 0; subclass = 0; protocol = 0; alt = 0 } ∷ fit_interfaces n []
fit_interfaces (suc n) (i ∷ intfs) = record i { alt = 0 } ∷ fit_interfaces n intfs

abbrev pub interfaces_bytes : ℕ → List Interface → List ℕ
interfaces_bytes zero intfs = []
interfaces_bytes (suc n) [] = zero_descriptor ++ interfaces_bytes n []
interfaces_bytes (suc n) (i ∷ intfs) = descriptor i ++ interfaces_bytes n intfs

pub encode_interfaces-Emits :
    (n : ℕ) (intfs : List Interface) → Emits (encode_interfaces n intfs) (interfaces_bytes n intfs)
unfolding encode_interfaces
encode_interfaces-Emits zero intfs = return-Emits
encode_interfaces-Emits (suc n) [] =
    >>-Emits (write-Emits wrap zero_descriptor) (encode_interfaces-Emits n [])
encode_interfaces-Emits (suc n) (i ∷ intfs) =
    >>-Emits (write-Emits wrap (descriptor i)) (encode_interfaces-Emits n intfs)

parse-interfaces_bytes :
    (n : ℕ) (intfs : List Interface)
    → parse_interfaces n (interfaces_bytes n intfs) ≡ fit_interfaces n intfs
unfolding parse_interfaces
parse-interfaces_bytes zero intfs = refl
parse-interfaces_bytes (suc n) [] =
    ap (◌∷◌ (record { class = 0; subclass = 0; protocol = 0; alt = 0 }))
      (parse-interfaces_bytes n [])
parse-interfaces_bytes (suc n) (i ∷ intfs) =
    ap (◌∷◌ (record i { alt = 0 })) (parse-interfaces_bytes n intfs)

length-interfaces_bytes :
    (n : ℕ) (intfs : List Interface) → length (interfaces_bytes n intfs) ≡ n * interface_wire_size
length-interfaces_bytes zero intfs = refl
length-interfaces_bytes (suc n) [] = omega (arith, length-interfaces_bytes n [])
length-interfaces_bytes (suc n) (i ∷ intfs) = omega (arith, length-interfaces_bytes n intfs)

-- One device of the list, as it arrives.
abbrev pub delivered : Device → Device
delivered d = record (on_wire d) { interfaces = fit_interfaces d.num_interfaces d.interfaces }

abbrev pub entry_bytes : Device → List ℕ
entry_bytes d = device_bytes d ++ interfaces_bytes d.num_interfaces d.interfaces

pub at_device-Emits :
    (i : ℕ) {m : Encoder (Unit {0})} {bytes : List ℕ}
    → Emits m bytes
    → Emits (λ w. at_device i (m w)) bytes
at_device-Emits i h = record { emits = λ done. ap (at_device i) (h.emits done) }

pub merge-no_flags :
    (flags : DecodeFlags) (i : ℕ) → merge_device_truncation_flags flags no_flags i ≡ flags
unfolding merge_device_truncation_flags
merge-no_flags flags i =
    ap (λ l. record flags { truncated_padded_strings = l })
      (append-nil flags.truncated_padded_strings)

module _ {R : Type 0} ⦃io : IoReader R⦄ where
  decode_interfaces-full :
      (n : ℕ) (r r' : R) (buf : List ℕ)
      → read_full (suc n * interface_wire_size) r ≡ full buf r'
      → decode_interfaces r (suc n) ≡ ok (parse_interfaces (suc n) buf, r')
  unfolding decode_interfaces
  decode_interfaces-full n r r' buf e = rw (e, decode_interfaces, ne→== (suc n) 0 (omega arith))

  pub decode_interfaces-bytes :
      (n : ℕ) (intfs : List Interface) (rest : List ℕ) (r : R)
      → io.pending r ≡ interfaces_bytes n intfs ++ rest
      → (r' : R) × (decode_interfaces r n ≡ ok (fit_interfaces n intfs, r'))
        × (io.pending r' ≡ rest)
        × (io.ending r' ≡ io.ending r)
  decode_interfaces-bytes zero intfs rest r e = (r, unfold decode_interfaces in refl, e, refl)
  decode_interfaces-bytes (suc n) intfs rest r e =
      let (r', q, more, ends) =
        read_full-Fills _ (interfaces_bytes (suc n) intfs) rest r e
          (length-interfaces_bytes (suc n) intfs) in
      (
        r',
        decode_interfaces-full n r r' _ q
            ∙ ap (λ l. ok (l, r')) (parse-interfaces_bytes (suc n) intfs),
        more,
        ends,
      )

  -- A device and its interfaces, read from a stream that begins with their bytes.
  pub decode_device_at-bytes :
      (d : Device) (i : ℕ) (rest : List ℕ) (r : R)
      → IsEncodable d
      → io.pending r ≡ entry_bytes d ++ rest
      → (r' : R) × (decode_devlist_device_at r i ≡ ok ((delivered d, no_flags), r'))
        × (io.pending r' ≡ rest)
        × (io.ending r' ≡ io.ending r)
  unfolding decode_devlist_device_at
  decode_device_at-bytes d i rest r h e =
      let (r1, q, more, ends) =
        decode_device-bytes d (interfaces_bytes d.num_interfaces d.interfaces ++ rest) r h (
          e
          ∙ append_assoc (device_bytes d) (interfaces_bytes d.num_interfaces d.interfaces) rest) in
      let (r', q', more', ends') =
        decode_interfaces-bytes d.num_interfaces d.interfaces rest r1 more in
      (
        r',
        >>=-ok (map_err (device_at_error i) (decode_device r)) _ _
              (ap (map_err (device_at_error i)) q)
            ∙ >>=-ok (decode_interfaces r1 d.num_interfaces) _ _ q',
        more',
        ends' ∙ ends,
      )
