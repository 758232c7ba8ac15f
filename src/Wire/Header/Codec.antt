-- ===== src/Wire/Header/Codec.antt =====
-- The OP header on the wire: what is written is read back, what is read is what was written, and
-- the error of every other input.
use usbip_go.Prelude.{
  ℕ, ◌+◌, ◌*◌, ◌/◌, ◌%◌, ◌≡◌, refl, sym, ap, ◌∙◌, inl, inr, true, not, List, [], ◌∷◌, ◌++◌, arith,
  length, take, take-append-drop, length-take_le, ◌==◌, All, All-take, if◌then◌else◌,
}
use usbip_go.Bytes.{IsByte, IsU16, IsU32, u16_bytes, u32_bytes, u32_of-u32_bytes}
use usbip_go.Io.Errors.{
  Error, Result, ok, err, wrap, ◌>>=◌, >>=-ok, >>=-eq-ok, ok_first, ok_second, sentinel,
  protocol_error,
}
use usbip_go.Io.Readers.{IoReader, read_full, full, short}
use usbip_go.Io.Readers.ReadFull.{read_full-Fills, read_full_cases}
use usbip_go.Domain.Device.{protocol_version}
use usbip_go.Wire.Header.{
  Header, encode_header, parse_header, decode_header, decode_header_allow_status, is_known_op_code,
  header_size, map_header_read_err,
}

pub header_bytes :
    (op status : ℕ) → encode_header op status ≡ 1 ∷ 17 ∷ (u16_bytes op ++ u32_bytes status)
unfolding encode_header
header_bytes op status = refl

pub parse-encode_header :
    (op status : ℕ)
    → is_known_op_code op ≡ true
    → IsU16 op
    → IsU32 status
    → parse_header (encode_header op status)
      ≡ ok (record { version = protocol_version; op = op; status = status })
unfolding parse_header encode_header
parse-encode_header op status known h k =
    let e : op / 256 % 256 * 256 + op % 256 ≡ op = omega arith in
    rw (e, known)
      (ap (λ n. ok (record { version = protocol_version; op = op; status = n }))
        (u32_of-u32_bytes status [] k))

-- Eight bytes that pass the checks are the encoding of the header that they give.
parse_header-bytes :
    (buf : List ℕ) (h : Header)
    → length buf ≡ header_size
    → All IsByte buf
    → parse_header buf ≡ ok h
    → (h.version ≡ protocol_version)
      × (is_known_op_code h.op ≡ true)
      × (buf ≡ encode_header h.op h.status)
unfolding parse_header encode_header
parse_header-bytes (b0 ∷ b1 ∷ b2 ∷ b3 ∷ b4 ∷ b5 ∷ b6 ∷ b7 ∷ []) h n bytes e = ground arith
parse_header-bytes _ h n bytes e = absurd (omega arith)

pub length-encode_header : (op status : ℕ) → length (encode_header op status) ≡ header_size
unfolding encode_header
length-encode_header op status = refl

module _ {R : Type 0} ⦃io : IoReader R⦄ where
  -- A read of the header that fills its buffer, and one that does not.
  pub decode_allow-full :
      (r r' : R) (buf : List ℕ)
      → read_full header_size r ≡ full buf r'
      → decode_header_allow_status r ≡ (parse_header buf >>= λ h. ok (h, r'))
  unfolding decode_header_allow_status
  decode_allow-full r r' buf e = rw (e, decode_header_allow_status)

  pub decode_allow-short :
      (r : R) (n : ℕ) (e : Error)
      → read_full header_size r ≡ short n e
      → decode_header_allow_status r ≡ err (map_header_read_err n e)
  unfolding decode_header_allow_status
  decode_allow-short r n e h = rw (h, decode_header_allow_status)

  -- A header with a known opcode and any status, written in front of a stream, is read back, and
  -- the stream behind it is left.
  pub decode-encode_header_allow :
      (op status : ℕ) (rest : List ℕ) (r : R)
      → is_known_op_code op ≡ true
      → IsU16 op
      → IsU32 status
      → io.pending r ≡ encode_header op status ++ rest
      → (r' : R) × (decode_header_allow_status r
          ≡ ok (record { version = protocol_version; op = op; status = status }, r'))
        × (io.pending r' ≡ rest)
        × (io.ending r' ≡ io.ending r)
  decode-encode_header_allow op status rest r known h k e =
      let (r', q, more, ends) =
        read_full-Fills header_size (encode_header op status) rest r e
          (length-encode_header op status) in
      (
        r',
        decode_allow-full r r' _ q
            ∙ ap (λ x. x >>= λ p. ok (p, r')) (parse-encode_header op status known h k),
        more,
        ends,
      )

  -- The status check of DecodeHeader.
  pub decode_header-zero :
      (r r' : R) (h : Header)
      → decode_header_allow_status r ≡ ok (h, r')
      → h.status ≡ 0
      → decode_header r ≡ ok (h, r')
  unfolding decode_header
  decode_header-zero r r' h e z = >>=-ok (decode_header_allow_status r) _ (h, r') e ∙ rw (z)

  -- A header with a known opcode and status zero is read back by DecodeHeader too.
  pub decode-encode_header :
      (op : ℕ) (rest : List ℕ) (r : R)
      → is_known_op_code op ≡ true
      → IsU16 op
      → io.pending r ≡ encode_header op 0 ++ rest
      → (r' : R) × (decode_header r
          ≡ ok (record { version = protocol_version; op = op; status = 0 }, r'))
        × (io.pending r' ≡ rest)
        × (io.ending r' ≡ io.ending r)
  decode-encode_header op rest r known h e =
      let (r', q, more, ends) = decode-encode_header_allow op 0 rest r known h (omega arith) e in
      (r', decode_header-zero r r' _ q refl, more, ends)

  -- A header that is read without error, on a stream of bytes, has the protocol's version and a
  -- known opcode, and exactly its encoding has been taken off the stream.
  pub encode-decode_header_allow :
      (r r' : R) (h : Header)
      → All IsByte (io.pending r)
      → decode_header_allow_status r ≡ ok (h, r')
      → (h.version ≡ protocol_version)
        × (is_known_op_code h.op ≡ true)
        × (io.pending r ≡ encode_header h.op h.status ++ io.pending r')
        × (io.ending r' ≡ io.ending r)
  encode-decode_header_allow r r' h bytes e = elim (read_full_cases header_size r) [
    | inl (enough, (r1, q, more, ends)) ↦
        let buf = take header_size (io.pending r) in
        let (h1, p, same) =
          >>=-eq-ok (parse_header buf) (λ k. ok (k, r1)) (sym (decode_allow-full r r1 buf q) ∙ e) in
        let (v, known, b) =
          parse_header-bytes buf h (length-take_le header_size _ enough)
            (All-take IsByte header_size _ bytes) (p ∙ ap ok (ok_first same)) in
        (
          v,
          known,
          sym (take-append-drop header_size (io.pending r)) ∙ rw (b, ← more, ok_second same),
          ap io.ending (sym (ok_second same)) ∙ ends,
        )
    | inr (less, q) ↦ cc (decode_allow-short r _ _ q)
  ]

  status_checked :
      (r r' : R) (h k : Header)
      → ◌≡◌ {A = Result (Header × R)}
          (if not (k.status == 0) then err (wrap (sentinel protocol_error)) else ok (k, r'))
          (ok (h, r))
      → (k ≡ h) × (r' ≡ r) × (h.status ≡ 0)
  status_checked r r' h k e = ground arith

  pub decode_header-ok :
      (r r' : R) (h : Header)
      → decode_header r ≡ ok (h, r')
      → (decode_header_allow_status r ≡ ok (h, r')) × (h.status ≡ 0)
  unfolding decode_header
  decode_header-ok r r' h e =
      let ((k, r1), q, p) = >>=-eq-ok (decode_header_allow_status r) _ e in
      let (same, next, z) = status_checked r' r1 h k p in
      (q ∙ ap (λ p. ok (p, r1)) same ∙ ap (λ p. ok (h, p)) next, z)

  -- A header that DecodeHeader accepts, on a stream of bytes, has the protocol's version, a known
  -- opcode and status zero, and exactly its encoding has been taken off the stream.
  pub encode-decode_header :
      (r r' : R) (h : Header)
      → All IsByte (io.pending r)
      → decode_header r ≡ ok (h, r')
      → (h.version ≡ protocol_version)
        × (is_known_op_code h.op ≡ true)
        × (h.status ≡ 0)
        × (io.pending r ≡ encode_header h.op 0 ++ io.pending r')
        × (io.ending r' ≡ io.ending r)
  encode-decode_header r r' h bytes e =
      let (q, z) = decode_header-ok r r' h e in
      let (v, known, b, ends) = encode-decode_header_allow r r' h bytes q in
      (v, known, z, b ∙ ap (λ n. encode_header h.op n ++ io.pending r') z, ends)
