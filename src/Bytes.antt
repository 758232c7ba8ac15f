-- ===== src/Bytes.antt =====
-- encoding/binary's big-endian fields over a byte buffer.
use usbip_go.Prelude.{
  ℕ, ◌+◌, ◌*◌, ◌/◌, ◌%◌, ◌^◌, ◌<◌, ◌≡◌, List, [], ◌∷◌, ◌++◌, arith, length, take, drop, All, get_or,
}

abbrev pub IsByte : ℕ → Type 0
IsByte b = b < 256

abbrev pub IsU16 : ℕ → Type 0
IsU16 v = v < 2 ^ 16

abbrev pub IsU32 : ℕ → Type 0
IsU32 v = v < 2 ^ 32

-- The bytes that PutUint16 and PutUint32 store.
abbrev pub u16_bytes : ℕ → List ℕ
u16_bytes v = v / 256 % 256 ∷ v % 256 ∷ []

abbrev pub u32_bytes : ℕ → List ℕ
u32_bytes v = v / 2 ^ 24 % 256 ∷ v / 2 ^ 16 % 256 ∷ v / 2 ^ 8 % 256 ∷ v % 256 ∷ []

-- `copy(buf[off:], bytes)` inside the buffer.
abbrev pub put_at : ℕ → List ℕ → List ℕ → List ℕ
put_at off bytes buf = take off buf ++ (bytes ++ drop (off + length bytes) buf)

-- Uint16 and Uint32 of the front of a slice. (Go panics on a shorter one; no caller has one.)
abbrev pub u16_of : List ℕ → ℕ
u16_of buf = get_or buf 0 0 * 256 + get_or buf 1 0

abbrev pub u32_of : List ℕ → ℕ
u32_of buf =
    get_or buf 0 0 * 2 ^ 24 + get_or buf 1 0 * 2 ^ 16 + get_or buf 2 0 * 2 ^ 8 + get_or buf 3 0

-- Uint32(buf[off:]) and Uint16(buf[off:]).
abbrev pub u16_at : List ℕ → ℕ → ℕ
u16_at buf off = u16_of (drop off buf)

abbrev pub u32_at : List ℕ → ℕ → ℕ
u32_at buf off = u32_of (drop off buf)

pub u16_of-u16_bytes : (v : ℕ) (rest : List ℕ) → IsU16 v → u16_of (u16_bytes v ++ rest) ≡ v
u16_of-u16_bytes v rest h = omega arith

pub u32_of-u32_bytes : (v : ℕ) (rest : List ℕ) → IsU32 v → u32_of (u32_bytes v ++ rest) ≡ v
u32_of-u32_bytes v rest h = omega arith

pub u16_bytes-IsByte : (v : ℕ) → All IsByte (u16_bytes v)
u16_bytes-IsByte v = omega arith

pub u32_bytes-IsByte : (v : ℕ) → All IsByte (u32_bytes v)
u32_bytes-IsByte v = omega arith
