-- ===== src/Wire/Devlist/RoundTrip.antt =====
-- A device list across the wire.
use usbip_go.Prelude.{
  ℕ, suc, ◌-◌, ◌≤◌, ◌≡◌, refl, sym, ap, ◌∙◌, Bool, true, false, List, [], ◌∷◌, ◌++◌, map, arith,
  length, append_assoc, append-nil, All, le→ltb, ◌^◌, length-append,
}
use usbip_go.Bytes.{u32_bytes, u32_of, u32_of-u32_bytes}
use usbip_go.Io.Errors.{Error, Result, ok, wrap, >>=-ok}
use usbip_go.Io.Readers.{IoReader, read_full, full}
use usbip_go.Io.Readers.ReadFull.{read_full-Fills}
use usbip_go.Io.Writers.{Emits, write-Emits, >>-Emits, return-Emits, output, output-Emits}
use usbip_go.Io.Buffered.{BufReader, new_reader, buffered_reader}
use usbip_go.Domain.Device.{Device}
use usbip_go.Wire.Fields.{no_flags, DecodeFlags}
use usbip_go.Wire.Header.{Header, encode_header, decode_header, op_rep_devlist, is_known_op_code}
use usbip_go.Wire.Header.Codec.{decode-encode_header}
use usbip_go.Wire.Layout.Codec.{IsEncodable, encode_device-Emits, device_bytes}
use usbip_go.Wire.Devlist.{
  encode_devices, encode_op_rep_devlist, device_count_u32, decode_devlist_device_at, decode_devices,
  decode_devlist_body, decode_devlist_after_header, decode_op_rep_devlist_buffered,
  decode_op_rep_devlist, has_trailing_bytes, max_devlist_devices, devlist_count_size,
}
use usbip_go.Wire.Devlist.Interfaces.{
  delivered, entry_bytes, interfaces_bytes, encode_interfaces-Emits, at_device-Emits,
  merge-no_flags, decode_device_at-bytes,
}

abbrev pub entries_bytes : List Device → List ℕ
entries_bytes [] = []
entries_bytes (d ∷ ds) = entry_bytes d ++ entries_bytes ds

encode_devices-Emits :
    (i : ℕ) (ds : List Device) → All IsEncodable ds → Emits (encode_devices i ds) (entries_bytes ds)
unfolding encode_devices
encode_devices-Emits i [] h = return-Emits
encode_devices-Emits i (d ∷ ds) (h, hs) =
    let more = encode_devices-Emits (suc i) ds hs in
    rw
      (append_assoc (device_bytes d) (interfaces_bytes d.num_interfaces d.interfaces)
        (entries_bytes ds))
      (>>-Emits (at_device-Emits i (encode_device-Emits d h.path_fits h.bus_id_fits))
        (>>-Emits (encode_interfaces-Emits d.num_interfaces d.interfaces) more))

-- The reply as bytes: header, count and entries.
abbrev pub reply_bytes : List Device → List ℕ
reply_bytes ds = encode_header op_rep_devlist 0 ++ (u32_bytes (length ds) ++ entries_bytes ds)

encode_op_rep_devlist-Emits :
    (ds : List Device)
    → All IsEncodable ds
    → length ds ≤ max_devlist_devices
    → Emits (encode_op_rep_devlist ds) (reply_bytes ds)
unfolding encode_op_rep_devlist device_count_u32
encode_op_rep_devlist-Emits ds h n = rw (le→ltb (2 ^ 32 - 1) (length ds) (omega arith)) (
    >>-Emits (write-Emits wrap (encode_header op_rep_devlist 0))
      (>>-Emits (write-Emits wrap (u32_bytes (length ds))) (encode_devices-Emits 0 ds h)))

known_devlist : is_known_op_code op_rep_devlist ≡ true
unfolding is_known_op_code
known_devlist = refl

-- What the decoder answers for a frame with these devices, and what it leaves.
abbrev Delivers :
    {R : Type 0} ⦃io : IoReader R⦄
    → Result ((List Device × DecodeFlags) × BufReader R)
    → List Device
    → List ℕ
    → Error
    → Type 0
Delivers {R} ⦃io⦄ answer ds rest e =
    (br : BufReader R) × (answer
      ≡ ok (
        (
          map delivered ds,
          record { truncated_padded_strings = []; trailing_bytes = has_trailing_bytes br },
        ),
        br,
      ))
    × (buffered_reader.pending br ≡ rest)
    × (buffered_reader.ending br ≡ e)

module _ {R : Type 0} ⦃io : IoReader R⦄ where
  decode_devices-bytes :
      (ds : List Device) (i : ℕ) (front : List Device) (rest : List ℕ) (r : R)
      → All IsEncodable ds
      → io.pending r ≡ entries_bytes ds ++ rest
      → (r' : R) × (decode_devices (length ds) i front no_flags r
          ≡ ok ((front ++ map delivered ds, no_flags), r'))
        × (io.pending r' ≡ rest)
        × (io.ending r' ≡ io.ending r)
  unfolding decode_devices
  decode_devices-bytes [] i front rest r h e =
      (r, ap (λ l. ok ((l, no_flags), r)) (sym (append-nil front)), e, refl)
  decode_devices-bytes (d ∷ ds) i front rest r (h, hs) e =
      let (r1, q, more, ends) =
        decode_device_at-bytes d i (entries_bytes ds ++ rest) r h
          (e ∙ append_assoc (entry_bytes d) (entries_bytes ds) rest) in
      let (r', q', more', ends') =
        decode_devices-bytes ds (suc i) (front ++ (delivered d ∷ [])) rest r1 hs more in
      (
        r',
        >>=-ok (decode_devlist_device_at r i) _ _ q
            ∙ (rw (merge-no_flags no_flags i) q'
                ∙ ap (λ l. ok ((l, no_flags), r'))
                    (append_assoc front (delivered d ∷ []) (map delivered ds))),
        more',
        ends' ∙ ends,
      )

module _ {R : Type 0} ⦃io : IoReader R⦄ where
  after_header-full :
      (br br' : BufReader R) (buf : List ℕ) (n : ℕ) (ds : List Device) (br2 : BufReader R)
      → read_full devlist_count_size br ≡ full buf br'
      → u32_of buf ≡ n
      → n ≤ max_devlist_devices
      → decode_devlist_body br' n ≡ ok ((ds, no_flags), br2)
      → decode_devlist_after_header br
        ≡ ok (
          (ds, record { truncated_padded_strings = []; trailing_bytes = has_trailing_bytes br2 }),
          br2,
        )
  unfolding decode_devlist_after_header
  after_header-full br br' buf n ds br2 q u h b =
      rw (q, decode_devlist_after_header, u, le→ltb max_devlist_devices n h, b)

  decode_reply-known :
      (br br' : BufReader R) (h : Header)
      → decode_header br ≡ ok (h, br')
      → h.op ≡ op_rep_devlist
      → decode_op_rep_devlist_buffered br ≡ decode_devlist_after_header br'
  unfolding decode_op_rep_devlist_buffered
  decode_reply-known br br' h q e = >>=-ok (decode_header br) _ (h, br') q ∙ rw e

  after_header-bytes :
      (ds : List Device) (rest : List ℕ) (br : BufReader R)
      → All IsEncodable ds
      → length ds ≤ max_devlist_devices
      → buffered_reader.pending br ≡ u32_bytes (length ds) ++ (entries_bytes ds ++ rest)
      → Delivers (decode_devlist_after_header br) ds rest (buffered_reader.ending br)
  after_header-bytes ds rest br h n e =
      let (br1, q, more, ends) =
        read_full-Fills devlist_count_size (u32_bytes (length ds)) (entries_bytes ds ++ rest) br e
          refl in
      let (br2, q', more', ends') = decode_devices-bytes ds 0 [] rest br1 h more in
      (
        br2,
        after_header-full br br1 (u32_bytes (length ds)) (length ds) (map delivered ds) br2 q
            (u32_of-u32_bytes (length ds) [] (omega arith)) n (unfold decode_devlist_body in q'),
        more',
        ends' ∙ ends,
      )

  pub decode_buffered-bytes :
      (ds : List Device) (rest : List ℕ) (br : BufReader R)
      → All IsEncodable ds
      → length ds ≤ max_devlist_devices
      → buffered_reader.pending br ≡ reply_bytes ds ++ rest
      → Delivers (decode_op_rep_devlist_buffered br) ds rest (buffered_reader.ending br)
  decode_buffered-bytes ds rest br h n e =
      let (br1, q, more, ends) =
        decode-encode_header op_rep_devlist (u32_bytes (length ds) ++ (entries_bytes ds ++ rest)) br
          known_devlist (omega arith)
          (e
            ∙ append_assoc (encode_header op_rep_devlist 0)
                (u32_bytes (length ds) ++ entries_bytes ds) rest) in
      let (br2, q', more', ends') = after_header-bytes ds rest br1 h n more in
      (br2, decode_reply-known br br1 _ q refl ∙ q', more', ends' ∙ ends)

  -- With nothing behind the frame, nothing is left in the buffer.
  no_trailing : (br : BufReader R) → buffered_reader.pending br ≡ [] → has_trailing_bytes br ≡ false
  unfolding has_trailing_bytes
  no_trailing br e =
      le→ltb 0 (length br.buffered) (omega (arith, ap length e, length-append br.buffered))

  -- The reply that EncodeOpRepDevlist writes for at most 1024 encodable devices is decoded as
  -- those devices, each without its local fields and with its interfaces cut or filled with zeros
  -- to the declared number, with no string flagged. What follows the frame stays unread, and the
  -- flag for trailing bytes is clear if nothing does.
  pub decode-encode_op_rep_devlist :
      (ds : List Device) (rest : List ℕ) (r : R)
      → All IsEncodable ds
      → length ds ≤ max_devlist_devices
      → io.pending r ≡ output (encode_op_rep_devlist ds) ++ rest
      → (br : BufReader R) × (trailing : Bool) × (decode_op_rep_devlist r
          ≡ ok (
            (map delivered ds, record { truncated_padded_strings = []; trailing_bytes = trailing }),
            br,
          ))
        × (buffered_reader.pending br ≡ rest)
        × (buffered_reader.ending br ≡ io.ending r)
        × (rest ≡ [] → trailing ≡ false)
  unfolding decode_op_rep_devlist
  decode-encode_op_rep_devlist ds rest r h n e =
      let o = output-Emits (encode_op_rep_devlist-Emits ds h n) in
      let (br, q, more, ends) =
        decode_buffered-bytes ds rest (new_reader r) h n (e ∙ ap (λ l. l ++ rest) o) in
      (br, has_trailing_bytes br, q, more, ends, λ z. no_trailing br (more ∙ z))
