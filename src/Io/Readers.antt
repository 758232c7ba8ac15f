-- ===== src/Io/Readers.antt =====
-- What the decoders ask of an io.Reader, and io.ReadFull over it.
pub mod ReadFull
pub mod Agreement
use usbip_go.Prelude.{
  ℕ, zero, suc, ◌-◌, ◌≤◌, ◌<◌, ◌≡◌, Option, none, some, List, [], ◌++◌, ◌&&◌, not, length, leb,
  ◌==◌, if◌then◌else◌,
}
use usbip_go.Io.Errors.{Error, sentinel, unexpected_eof, out_of_fuel, is_eof_value}

-- One call of Read: the bytes stored, the error, and the reader afterwards.
pub record ReadResult (R : Type 0) : Type 0 where
  pub bytes : List ℕ
  pub error : Option Error
  pub next : R

-- An io.Reader with the stream that it stands for: the bytes still to come and the error after
-- them. `budget` bounds the calls that bring neither bytes nor an error.
pub record IoReader (R : Type 0) : Type 0 where
  pub read : ℕ → R → ReadResult R
  pub pending : R → List ℕ
  pub ending : R → Error
  pub budget : R → ℕ
  pub read_pending :
      (n : ℕ) (r : R)
      → 0 < n
      → (read n r).error ≡ none
      → pending r ≡ (read n r).bytes ++ pending (read n r).next
  pub read_rest :
      (n : ℕ) (r : R)
      → 0 < n
      → (read n r).error ≡ none
      → (length (read n r).bytes ≤ n)
        × (ending (read n r).next ≡ ending r)
        × (budget (read n r).next < budget r)
  pub read_end :
      (n : ℕ) (r : R) {e : Error}
      → 0 < n
      → (read n r).error ≡ some e
      → ((read n r).bytes ≡ []) × (pending r ≡ []) × (e ≡ ending r)

-- io.ReadFull's answer: the buffer filled, or how many bytes came before which error.
pub data FullRead (R : Type 0) : Type 0 where
  full : List ℕ → R → FullRead R
  short : ℕ → Error → FullRead R

-- An end of input inside the buffer is io.ErrUnexpectedEOF.
abbrev pub short_error : ℕ → Error → Error
short_error n e = if not (n == 0) && is_eof_value e then sentinel unexpected_eof else e

module _ {R : Type 0} ⦃io : IoReader R⦄ where
  -- The loop of io.ReadAtLeast, with `n` bytes missing and `buf` read so far.
  unfoldable pub read_loop : ℕ → ℕ → List ℕ → R → FullRead R
  read_loop zero n buf r = short (length buf) (sentinel out_of_fuel)
  read_loop (suc fuel) n buf r =
      let result = io.read n r in
      let buf' = buf ++ result.bytes in
      let more = read_loop fuel (n - length result.bytes) buf' result.next in
      if n == 0 then full buf r else elim result.error [
        | none ↦ more
        | some e ↦
            if leb n (length result.bytes)
            then full buf' result.next
            else short (length buf') (short_error (length buf') e)
      ]

  unfoldable pub read_full : ℕ → R → FullRead R
  read_full n r = read_loop (suc (io.budget r)) n [] r
