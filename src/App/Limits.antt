-- ===== src/App/Limits.antt =====
-- internal/app/limits.go: the reader that caps the bytes of a handshake.
pub mod Stream
use usbip_go.Prelude.{
  ℕ, zero, suc, ◌+◌, ◌-◌, ◌≤◌, ◌<◌, ◌≡◌, refl, sym, ap, ◌∙◌, Bool, true, false, Option, none, some,
  List, [], ◌∷◌, ◌++◌, min, length, take, ltb, ◌==◌, if◌then◌else◌, Bool-cases, inl, inr, arith,
  length-append, subst, ==→eq, ==→ne,
}
use usbip_go.Io.Errors.{Error, sentinel, wrap, eof, errors_is, handshake_too_large}
use usbip_go.Io.Readers.{IoReader, ReadResult}

-- handshakeLimitReader.
pub record LimitReader (R : Type 0) : Type 0 where
  pub inner : R
  pub count : ℕ
  pub limit : ℕ

-- newHandshakeLimitReader.
unfoldable pub new_limit_reader : {R : Type 0} → R → ℕ → LimitReader R
new_limit_reader r limit = record { inner = r; count = 0; limit = limit }

-- classifyReadErr of an error; `nil` stays `nil`.
unfoldable pub classify_read_err : Error → Error
classify_read_err e = if errors_is e eof then sentinel eof else wrap e

abbrev pub classify_option : Option Error → Option Error
classify_option none = none
classify_option (some e) = some (classify_read_err e)

module _ {R : Type 0} ⦃io : IoReader R⦄ where
  -- A call of the inner Read, whose bytes are counted if there is a limit.
  abbrev pub read_inner : ℕ → Bool → LimitReader R → ReadResult (LimitReader R)
  read_inner want counted h =
      let result = io.read want h.inner in
      record {
        bytes = result.bytes;
        error = classify_option result.error;
        next = record {
          inner = result.next;
          count = if counted then h.count + length result.bytes else h.count;
          limit = h.limit;
        };
      }

  abbrev pub too_large : LimitReader R → ReadResult (LimitReader R)
  too_large h = record { bytes = []; error = some (sentinel handshake_too_large); next = h }

  -- handshakeLimitReader.Read.
  unfoldable pub limit_read : ℕ → LimitReader R → ReadResult (LimitReader R)
  limit_read m h =
      let remaining = h.limit - h.count in
      if h.limit == 0
      then read_inner m false h
      else if remaining == 0
      then too_large h
      else read_inner (min m remaining) true h

  -- The stream that is left: the inner one, cut at the limit and then ended by ErrHandshakeTooLarge.
  unfoldable pub limit_pending : LimitReader R → List ℕ
  limit_pending h =
      if h.limit == 0 then io.pending h.inner else take (h.limit - h.count) (io.pending h.inner)

  unfoldable pub limit_ending : LimitReader R → Error
  limit_ending h =
      if h.limit == 0
      then classify_read_err (io.ending h.inner)
      else if ltb (length (io.pending h.inner)) (h.limit - h.count)
      then classify_read_err (io.ending h.inner)
      else sentinel handshake_too_large
