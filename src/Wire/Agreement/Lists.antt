-- ===== src/Wire/Agreement/Lists.antt =====
-- The devlist decoder and the chunks of the connection: only the trailing-bytes flag can tell.
use usbip_go.Prelude.{
  ℕ, zero, suc, ◌*◌, ◌≡◌, Bool, true, false, not, List, [], ◌∷◌, ◌++◌, ◌==◌, if◌then◌else◌, ltb,
}
use usbip_go.Bytes.{u32_of}
use usbip_go.Io.Errors.{
  Error, Result, ok, err, wrap, join, ◌>>=◌, sentinel, protocol_mismatch, devlist_truncated,
  unexpected_eof,
}
use usbip_go.Io.Readers.{IoReader, FullRead, full, short}
use usbip_go.Io.Readers.Agreement.{
  SameStream, Agree, both_ok, both_err, AgreeFull, both_full, both_short, read_full-AgreeFull,
  >>=-Agree, map_err-Agree,
}
use usbip_go.Io.Buffered.{BufReader, new_reader, buffered_reader}
use usbip_go.Domain.Device.{Device, Interface}
use usbip_go.Wire.Fields.{DecodeFlags, Truncation, no_flags, short_read, is_short}
use usbip_go.Wire.Header.{op_rep_devlist}
use usbip_go.Wire.Agreement.{decode_header-Agree, decode_device-Agree}
use usbip_go.Wire.Devlist.{
  decode_interfaces, interface_wire_size, parse_interfaces, decode_devlist_device_at,
  device_at_error, decode_devices, merge_device_truncation_flags, decode_devlist_body,
  decode_devlist_after_header, decode_op_rep_devlist_buffered, decode_op_rep_devlist,
  max_devlist_devices, devlist_count_size, has_trailing_bytes,
}

module _ {R S : Type 0} ⦃ior : IoReader R⦄ ⦃ios : IoReader S⦄ where
  choose-Agree :
      {A : Type 0} (b : Bool) {m n : Result (A × R)} {m' n' : Result (A × S)}
      → Agree A m m'
      → Agree A n n'
      → Agree A (if b then m else n) (if b then m' else n')
  choose-Agree true h k = h
  choose-Agree false h k = k

  interfaces_read :
      {x : FullRead R} {y : FullRead S} (count : ℕ)
      → AgreeFull x y
      → Agree
          (List Interface)
          (elim x [
            | full buf r' ↦ ok (parse_interfaces count buf, r')
            | short n e ↦
                if is_short e
                then err (join (sentinel devlist_truncated) (sentinel unexpected_eof))
                else err (wrap e)
          ])
          (elim y [
            | full buf r' ↦ ok (parse_interfaces count buf, r')
            | short n e ↦
                if is_short e
                then err (join (sentinel devlist_truncated) (sentinel unexpected_eof))
                else err (wrap e)
          ])
  interfaces_read count (both_full buf r s same) = both_ok (parse_interfaces count buf) r s same
  interfaces_read count (both_short n e) =
      choose-Agree (is_short e)
        (both_err (join (sentinel devlist_truncated) (sentinel unexpected_eof))) (both_err (wrap e))

  decode_interfaces-Agree :
      (r : R) (s : S) (count : ℕ)
      → SameStream r s
      → Agree (List Interface) (decode_interfaces r count) (decode_interfaces s count)
  unfolding decode_interfaces
  decode_interfaces-Agree r s count same =
      choose-Agree (count == 0) (both_ok [] r s same)
        (interfaces_read count (read_full-AgreeFull (count * interface_wire_size) r s same))

  device_at-Agree :
      (r : R) (s : S) (i : ℕ)
      → SameStream r s
      → Agree (Device × DecodeFlags) (decode_devlist_device_at r i) (decode_devlist_device_at s i)
  unfolding decode_devlist_device_at
  device_at-Agree r s i same =
      >>=-Agree _ _ _ _ (map_err-Agree (device_at_error i) _ _ (decode_device-Agree r s same))
        (λ p r' s' same'.
          >>=-Agree _ _ _ _ (decode_interfaces-Agree r' s' p.0.num_interfaces same')
            (λ intfs r1 s1 same1. both_ok (record (p.0) { interfaces = intfs }, p.1) r1 s1 same1))

  decode_devices-Agree :
      (n i : ℕ) (front : List Device) (flags : DecodeFlags) (r : R) (s : S)
      → SameStream r s
      → Agree
          (List Device × DecodeFlags)
          (decode_devices n i front flags r)
          (decode_devices n i front flags s)
  unfolding decode_devices
  decode_devices-Agree zero i front flags r s same = both_ok (front, flags) r s same
  decode_devices-Agree (suc n) i front flags r s same =
      >>=-Agree _ _ _ _ (device_at-Agree r s i same) (λ p r' s' same'.
        decode_devices-Agree n (suc i) (front ++ (p.0 ∷ []))
          (merge_device_truncation_flags flags p.1 i) r' s' same')

-- Answers of the devlist decoder that differ at most in the trailing-bytes flag.
pub data AgreeList {R S : Type 0}
    : Result ((List Device × DecodeFlags) × R)
      → Result ((List Device × DecodeFlags) × S)
      → Type 0 where
  same_list :
      (ds : List Device) (truncated : List Truncation) (b c : Bool) (r : R) (s : S)
      → AgreeList
          (ok ((ds, record { truncated_padded_strings = truncated; trailing_bytes = b }), r))
          (ok ((ds, record { truncated_padded_strings = truncated; trailing_bytes = c }), s))
  same_error : (e : Error) → AgreeList (err e) (err e)

module _ {R S : Type 0} ⦃ior : IoReader R⦄ ⦃ios : IoReader S⦄ where
  flagged :
      {m : Result ((List Device × DecodeFlags) × BufReader R)}
      {m' : Result ((List Device × DecodeFlags) × BufReader S)}
      → Agree (List Device × DecodeFlags) m m'
      → AgreeList
          (m >>= λ p. ok ((p.0.0, record (p.0.1) { trailing_bytes = has_trailing_bytes p.1 }), p.1))
          (m' >>= λ p.
            ok ((p.0.0, record (p.0.1) { trailing_bytes = has_trailing_bytes p.1 }), p.1))
  flagged (both_ok (ds, flags) r s same) =
      same_list ds flags.truncated_padded_strings (has_trailing_bytes r) (has_trailing_bytes s) r s
  flagged (both_err e) = same_error e

  choose_list :
      (b : Bool) (e : Error) {m : Result ((List Device × DecodeFlags) × BufReader R)}
      {m' : Result ((List Device × DecodeFlags) × BufReader S)}
      → AgreeList m m'
      → AgreeList (if b then err e else m) (if b then err e else m')
  choose_list true e h = same_error e
  choose_list false e h = h

  counted :
      {x : FullRead (BufReader R)} {y : FullRead (BufReader S)}
      → AgreeFull x y
      → AgreeList
          (elim x [
            | short n e ↦ err (short_read e)
            | full count_buf br' ↦
                if ltb max_devlist_devices (u32_of count_buf)
                then err (wrap (sentinel protocol_mismatch))
                else (decode_devlist_body br' (u32_of count_buf) >>= λ p.
                    ok ((p.0.0, record (p.0.1) { trailing_bytes = has_trailing_bytes p.1 }), p.1))
          ])
          (elim y [
            | short n e ↦ err (short_read e)
            | full count_buf br' ↦
                if ltb max_devlist_devices (u32_of count_buf)
                then err (wrap (sentinel protocol_mismatch))
                else (decode_devlist_body br' (u32_of count_buf) >>= λ p.
                    ok ((p.0.0, record (p.0.1) { trailing_bytes = has_trailing_bytes p.1 }), p.1))
          ])
  unfolding decode_devlist_body
  counted (both_full buf r s same) =
      choose_list (ltb max_devlist_devices (u32_of buf)) (wrap (sentinel protocol_mismatch))
        (flagged (decode_devices-Agree (u32_of buf) 0 [] no_flags r s same))
  counted (both_short n e) = same_error (short_read e)

  then_list :
      {A : Type 0} {m : Result (A × BufReader R)} {m' : Result (A × BufReader S)}
      (f : A × BufReader R → Result ((List Device × DecodeFlags) × BufReader R))
      (f' : A × BufReader S → Result ((List Device × DecodeFlags) × BufReader S))
      → Agree A m m'
      → ((a : A) (r : BufReader R) (s : BufReader S)
          → SameStream r s
          → AgreeList (f (a, r)) (f' (a, s)))
      → AgreeList (m >>= f) (m' >>= f')
  then_list f f' (both_ok a r s same) h = h a r s same
  then_list f f' (both_err e) h = same_error e

  after_header-AgreeList :
      (r : BufReader R) (s : BufReader S)
      → SameStream r s
      → AgreeList (decode_devlist_after_header r) (decode_devlist_after_header s)
  unfolding decode_devlist_after_header
  after_header-AgreeList r s same = counted (read_full-AgreeFull devlist_count_size r s same)

  -- Two connections, of any kinds, that will deliver the same bytes and end with the same error
  -- give the same device list and the same string flags, or the same error, however the bytes are
  -- cut into chunks; only the trailing-bytes flag may differ.
  pub decode_op_rep_devlist-AgreeList :
      (r : R) (s : S)
      → ior.pending r ≡ ios.pending s
      → ior.ending r ≡ ios.ending s
      → AgreeList (decode_op_rep_devlist r) (decode_op_rep_devlist s)
  unfolding decode_op_rep_devlist decode_op_rep_devlist_buffered
  decode_op_rep_devlist-AgreeList r s p e =
      then_list _ _
        (decode_header-Agree (new_reader r) (new_reader s)
          (record { same_pending = p; same_ending = e }))
        (λ h r' s' same.
          choose_list (not (h.op == op_rep_devlist)) (wrap (sentinel protocol_mismatch))
            (after_header-AgreeList r' s' same))
