-- ===== src/Wire/Fields.antt =====
-- internal/adapter/wire/fields.go: NUL-padded strings of a fixed width.
pub mod PaddedStrings
use usbip_go.Prelude.{
  ℕ, ◌-◌, Bool, true, false, ◌&&◌, ◌||◌, List, [], ◌∷◌, ◌++◌, length, replicate, ltb, leb, ◌==◌,
  if◌then◌else◌,
}
use usbip_go.Io.Errors.{
  Error, Result, ok, err, wrap, sentinel, eof, unexpected_eof, busid_invalid, protocol_error,
  errors_is,
}
use usbip_go.Io.Readers.{IoReader, full, short, read_full}
use usbip_go.Io.Writers.{Encoder, write, fail}
use usbip_go.Domain.Device.{bus_id_size}

-- The two string fields of a device.
pub data Field : Type 0 where
  device_path device_bus_id : Field

-- PaddedStringTruncation.
pub record Truncation : Type 0 where
  pub field : Field
  pub device_index : ℕ

-- DecodeFlags.
pub record DecodeFlags : Type 0 where
  pub truncated_padded_strings : List Truncation
  pub trailing_bytes : Bool

-- The zero value DecodeFlags{}.
abbrev pub no_flags : DecodeFlags
no_flags = record { truncated_padded_strings = []; trailing_bytes = false }

-- overflowErr.
unfoldable pub overflow_err : ℕ → Error
overflow_err size =
    if size == bus_id_size then wrap (sentinel busid_invalid) else wrap (sentinel protocol_error)

-- WritePaddedString.
unfoldable pub write_padded_string : List ℕ → ℕ → Encoder (Unit {0})
write_padded_string s size =
    if leb size (length s)
    then fail (overflow_err size)
    else write wrap (s ++ replicate (size - length s) 0)

abbrev pub min_printable_ascii : ℕ
min_printable_ascii = 0x20

abbrev pub max_printable_ascii : ℕ
max_printable_ascii = 0x7e

abbrev pub is_unprintable : ℕ → Bool
is_unprintable b = ltb b min_printable_ascii || ltb max_printable_ascii b

-- isAllPrintable.
unfoldable pub is_all_printable : List ℕ → Bool
is_all_printable [] = true
is_all_printable (b ∷ buf) = if is_unprintable b then false else is_all_printable buf

-- The first and the last value of `bytes.Cut(buf, []byte{0})`.
unfoldable pub cut_before : List ℕ → List ℕ
cut_before [] = []
cut_before (b ∷ buf) = if b == 0 then [] else b ∷ cut_before buf

unfoldable pub cut_found : List ℕ → Bool
cut_found [] = false
cut_found (b ∷ buf) = if b == 0 then true else cut_found buf

-- The byte-by-byte scan of the slow path: `buf[:i]` for the first unprintable byte `i`, else `buf`.
unfoldable pub slow_scan : List ℕ → List ℕ
slow_scan [] = []
slow_scan (b ∷ buf) = if is_unprintable b then [] else b ∷ slow_scan buf

-- paddedStringFromBytes.
unfoldable pub padded_string_from_bytes : List ℕ → List ℕ × Bool
padded_string_from_bytes buf =
    let before = cut_before buf in
    if cut_found buf && is_all_printable before then (before, false) else (slow_scan buf, true)

-- `errors.Is(err, io.ErrUnexpectedEOF) || errors.Is(err, io.EOF)`.
abbrev pub is_short : Error → Bool
is_short e = errors_is e unexpected_eof || errors_is e eof

-- The error return that ReadPaddedString and DecodeDevice share: both ends of input become a
-- wrapped io.ErrUnexpectedEOF.
abbrev pub short_read : Error → Error
short_read e = if is_short e then wrap (sentinel unexpected_eof) else wrap e

-- ReadPaddedString.
unfoldable pub read_padded_string :
    {R : Type 0} ⦃io : IoReader R⦄ → R → ℕ → Result ((List ℕ × Bool) × R)
read_padded_string r size = elim (read_full size r) [
  | full buf r' ↦ ok (padded_string_from_bytes buf, r')
  | short n e ↦ err (short_read e)
]
