-- ===== src/App/Limits/Stream.antt =====
-- The capped reader is a reader of the capped stream, so that every decoder runs on it.
use usbip_go.Prelude.{
  ℕ, zero, suc, ◌+◌, ◌-◌, ◌≤◌, ◌<◌, ◌≡◌, refl, ap, ◌∙◌, false, Option, none, some, List, [], ◌∷◌,
  ◌++◌, min, length, take, ltb, ◌==◌, if◌then◌else◌, arith, length-append, ==→eq, ==→ne, if_rule,
}
use usbip_go.Io.Errors.{Error}
use usbip_go.Io.Readers.{IoReader, ReadResult}
use usbip_go.Io.Errors.{ok}
use usbip_go.Io.Writers.{output}
use usbip_go.Domain.BusId.{validate_wire_bus_id}
use usbip_go.Wire.ImportOp.{encode_op_req_import, decode_op_req_import}
use usbip_go.Wire.ImportOp.Codec.{decode-encode_op_req_import, length-encode_op_req_import}
use usbip_go.App.Limits.{
  new_limit_reader, LimitReader, classify_option, classify_read_err, limit_read, limit_pending,
  limit_ending,
}

take-append_le :
    (k : ℕ) (xs ys : List ℕ) → length xs ≤ k → take k (xs ++ ys) ≡ xs ++ take (k - length xs) ys
take-append_le k [] ys h = ap (λ m. take m ys) (omega arith)
take-append_le zero (x ∷ xs) ys h = absurd (omega arith)
take-append_le (suc k) (x ∷ xs) ys h =
    ap (◌∷◌ x) (take-append_le k xs ys (omega arith))
    ∙ ap (λ m. x ∷ (xs ++ take m ys)) (omega arith)

classify-none : (o : Option Error) → classify_option o ≡ none → o ≡ none
classify-none none h = refl
classify-none (some e) h = cc

classify-some :
    (o : Option Error) {e : Error}
    → classify_option o ≡ some e
    → (e' : Error) × (o ≡ some e') × (e ≡ classify_read_err e')
classify-some none h = cc
classify-some (some e') h = (e', refl, cc)

-- The end of the stream stays the same while bytes are taken off both the stream and the limit.
same_end :
    (limit count taken rest whole : ℕ) {e e' : Error} (cap : Error)
    → taken ≤ limit - count
    → whole ≡ taken + rest
    → e ≡ e'
    → (if ltb rest (limit - (count + taken)) then classify_read_err e else cap)
      ≡ (if ltb whole (limit - count) then classify_read_err e' else cap)
same_end limit count taken rest whole {e} {e'} cap fits all same =
    let tests : ltb rest (limit - (count + taken)) ≡ ltb whole (limit - count) = ground arith in
    ap (λ b. if b then classify_read_err e else cap) tests
    ∙ ap (λ x. if ltb whole (limit - count) then classify_read_err x else cap) same

spent_end :
    (k n : ℕ) {cap e : Error} (x : Error)
    → k ≡ 0
    → ◌≡◌ {A = Option Error} (some cap) (some e)
    → e ≡ (if ltb n k then x else cap)
spent_end k n x z q = ground arith

ended : (k n : ℕ) (cap x : Error) → n ≡ 0 → ¬ (k ≡ 0) → x ≡ (if ltb n k then x else cap)
ended k n cap x z ne = ground arith

take-nil : (k : ℕ) → ◌≡◌ {A = List ℕ} (take k []) []
take-nil zero = refl
take-nil (suc k) = refl

min_pos : (m k : ℕ) → 0 < m → ¬ (k ≡ 0) → 0 < min m k
min_pos m k p ne = grind arith

module _ {R : Type 0} ⦃io : IoReader R⦄ where
  pub limit_pending-step :
      (m : ℕ) (h : LimitReader R)
      → 0 < m
      → (limit_read m h).error ≡ none
      → limit_pending h ≡ (limit_read m h).bytes ++ limit_pending (limit_read m h).next
  unfolding limit_read limit_pending
  limit_pending-step m h p =
      let P = λ (x : ReadResult (LimitReader R)).
        x.error ≡ none → limit_pending h ≡ x.bytes ++ limit_pending x.next in
      if_rule P (h.limit == 0) _ _
        (λ free e. rw free (io.read_pending m h.inner p (classify-none _ e)))
        (λ capped.
          if_rule P (h.limit - h.count == 0) _ _ (λ spent e. cc)
            (λ room e.
              let want = min m (h.limit - h.count) in
              let left = ==→ne (h.limit - h.count) 0 room in
              let some_want : 0 < want = min_pos m (h.limit - h.count) p left in
              let quiet = classify-none (io.read want h.inner).error e in
              let (most, ends, less) = io.read_rest want h.inner some_want quiet in
              let fits : length (io.read want h.inner).bytes ≤ h.limit - h.count = omega arith in
              rw capped (
                ap (take (h.limit - h.count)) (io.read_pending want h.inner some_want quiet)
                ∙ take-append_le (h.limit - h.count) (io.read want h.inner).bytes
                    (io.pending (io.read want h.inner).next) fits
                ∙ ap
                    (λ j.
                      (io.read want h.inner).bytes
                      ++ take j (io.pending (io.read want h.inner).next))
                    (omega arith))))

  pub limit_rest-step :
      (m : ℕ) (h : LimitReader R)
      → 0 < m
      → (limit_read m h).error ≡ none
      → (length (limit_read m h).bytes ≤ m)
        × (limit_ending (limit_read m h).next ≡ limit_ending h)
        × (io.budget (limit_read m h).next.inner < io.budget h.inner)
  unfolding limit_read limit_ending
  limit_rest-step m h p =
      let P = λ (x : ReadResult (LimitReader R)).
        x.error ≡ none
        → (length x.bytes ≤ m)
          × (limit_ending x.next ≡ limit_ending h)
          × (io.budget x.next.inner < io.budget h.inner) in
      if_rule P (h.limit == 0) _ _
        (λ free e.
          let (most, ends, less) = io.read_rest m h.inner p (classify-none _ e) in
          rw free (most, ap classify_read_err ends, less))
        (λ capped.
          if_rule P (h.limit - h.count == 0) _ _ (λ spent e. cc)
            (λ room e.
              let want = min m (h.limit - h.count) in
              let left = ==→ne (h.limit - h.count) 0 room in
              let some_want : 0 < want = min_pos m (h.limit - h.count) p left in
              let quiet = classify-none (io.read want h.inner).error e in
              let (most, ends, less) = io.read_rest want h.inner some_want quiet in
              let all =
                ap length (io.read_pending want h.inner some_want quiet)
                ∙ length-append (io.read want h.inner).bytes
                    (io.pending (io.read want h.inner).next) in
              (omega arith, rw capped (same_end _ _ _ _ _ _ (omega arith) all ends), less)))

  pub limit_end-step :
      (m : ℕ) (h : LimitReader R) {e : Error}
      → 0 < m
      → (limit_read m h).error ≡ some e
      → ((limit_read m h).bytes ≡ []) × (limit_pending h ≡ []) × (e ≡ limit_ending h)
  unfolding limit_read limit_ending limit_pending
  limit_end-step m h {e} p =
      let P = λ (x : ReadResult (LimitReader R)).
        x.error ≡ some e → (x.bytes ≡ []) × (limit_pending h ≡ []) × (e ≡ limit_ending h) in
      if_rule P (h.limit == 0) _ _
        (λ free q.
          let (e', o, same) = classify-some (io.read m h.inner).error q in
          let (none_read, done, is) = io.read_end m h.inner p o in
          rw free (none_read, done, same ∙ ap classify_read_err is))
        (λ capped.
          if_rule P (h.limit - h.count == 0) _ _
            (λ spent q.
              let z = ==→eq (h.limit - h.count) 0 spent in
              rw capped (refl, ap (λ k. take k (io.pending h.inner)) z, spent_end _ _ _ z q))
            (λ room q.
              let want = min m (h.limit - h.count) in
              let left = ==→ne (h.limit - h.count) 0 room in
              let some_want : 0 < want = min_pos m (h.limit - h.count) p left in
              let (e', o, same) = classify-some (io.read want h.inner).error q in
              let (none_read, done, is) = io.read_end want h.inner some_want o in
              rw capped (
                none_read,
                ap (take (h.limit - h.count)) done ∙ take-nil (h.limit - h.count),
                same ∙ ap classify_read_err is ∙ ended _ _ _ _ (ap length done) left,
              )))

-- The capped reader, whatever reader it caps.
instance abbrev pub limit_reader : {R : Type 0} ⦃io : IoReader R⦄ → IoReader (LimitReader R)
limit_reader {R} ⦃io⦄ = record {
  read = λ m h. limit_read m h;
  pending = λ h. limit_pending h;
  ending = λ h. limit_ending h;
  budget = λ h. io.budget h.inner;
  read_pending = λ m h p q. limit_pending-step m h p q;
  read_rest = λ m h p q. limit_rest-step m h p q;
  read_end = λ m h p q. limit_end-step m h p q;
}

no_zero : (limit : ℕ) → 40 ≤ limit → (limit == 0) ≡ false
no_zero limit h = ground arith

module _ {R : Type 0} ⦃io : IoReader R⦄ where
  -- An exporter that caps a handshake at no fewer than 40 bytes decodes the import request of a bus id
  -- that passes the wire check, whatever reader brings it and whatever follows; what it leaves unread
  -- of the capped stream is cut at the limit.
  pub decode_op_req_import-capped :
      (b rest : List ℕ) (r : R) (limit : ℕ)
      → validate_wire_bus_id b ≡ ok b
      → io.pending r ≡ output (encode_op_req_import b) ++ rest
      → 40 ≤ limit
      → (r' : LimitReader R) × (decode_op_req_import (new_limit_reader r limit) ≡ ok (b, r'))
        × (limit_reader.pending r' ≡ take (limit - 40) rest)
  unfolding new_limit_reader limit_pending
  decode_op_req_import-capped b rest r limit h e enough =
      let sent = output (encode_op_req_import b) in
      let size = length-encode_op_req_import b h in
      let capped : limit_reader.pending (new_limit_reader r limit)
          ≡ sent ++ take (limit - 40) rest =
        rw (no_zero limit enough) (
          ap (take (limit - 0)) e
          ∙ take-append_le (limit - 0) sent rest (omega arith)
          ∙ ap (λ j. sent ++ take j rest) (omega arith)) in
      let (r', q, more, ends) =
        decode-encode_op_req_import b (take (limit - 40) rest) (new_limit_reader r limit) h
          capped in
      (r', q, more)
