-- ===== src/Kernel/Netdevs/Hex.antt =====
-- The flags that are written read back as the flags without IFF_UP.
use usbip_go.Prelude.{
  ℕ, zero, suc, ◌+◌, ◌-◌, ◌*◌, ◌/◌, ◌%◌, ◌^◌, ◌<◌, ◌≡◌, refl, ap, ◌∙◌, inl, inr, false, Option,
  none, some, List, [], ◌∷◌, ltb, ◌==◌, if◌then◌else◌, All, arith, lt→ltb, ltb→lt, ltb→le,
  Bool-cases,
}
use usbip_go.Io.Errors.{ok, >>=-ok}
use usbip_go.Kernel.Text.{has_prefix, is_nothing, digit_of, parse_digits, parse_uint}
use usbip_go.Kernel.Sysfs.{Fs, read_line, parsed_or_error}
use usbip_go.Kernel.Drivers.{trim_prefix}
use usbip_go.Kernel.Netdevs.{
  hex_digit, format_hex_loop, format_hex, cleared_flags, read_netdev_flags_hex,
}

digit_of-hex_digit : (d : ℕ) → d < 16 → digit_of (hex_digit d) ≡ some d
unfolding digit_of
digit_of-hex_digit d h = ground arith

parse_digits-hex_digit :
    (d acc : ℕ) (s : List ℕ)
    → d < 16
    → parse_digits 16 acc (hex_digit d ∷ s) ≡ parse_digits 16 (acc * 16 + d) s
unfolding parse_digits
parse_digits-hex_digit d acc s h =
    let next = λ (v : ℕ). parse_digits 16 (acc * 16 + v) s in
    ap (λ (o : Option ℕ). elim o [ none ↦ none | some v ↦ if ltb v 16 then next v else none ])
      (digit_of-hex_digit d h)
    ∙ ap (λ c. if c then next d else none) (lt→ltb d 16 h)

shorter : (fuel n : ℕ) → n < 16 ^ suc fuel → n / 16 < 16 ^ fuel
shorter fuel n h = omega arith

parse_digits-format_hex_loop :
    (fuel n : ℕ) (acc : List ℕ)
    → n < 16 ^ fuel
    → parse_digits 16 0 (format_hex_loop fuel n acc) ≡ parse_digits 16 n acc
unfolding format_hex_loop
parse_digits-format_hex_loop zero n acc h = ap (λ m. parse_digits 16 m acc) (omega arith)
parse_digits-format_hex_loop (suc fuel) n acc h =
    let low : n % 16 < 16 = omega arith in
    elim (Bool-cases (ltb n 16)) [
      | inl q ↦
          let e : 0 * 16 + n % 16 ≡ n = omega (arith, ltb→lt n 16 q) in
          rw q (parse_digits-hex_digit (n % 16) 0 acc low ∙ ap (λ m. parse_digits 16 m acc) e)
      | inr q ↦
          let big = ltb→le n 16 q in
          let e : n / 16 * 16 + n % 16 ≡ n = omega arith in
          rw q (
            parse_digits-format_hex_loop fuel (n / 16) (hex_digit (n % 16) ∷ acc) (shorter fuel n h)
            ∙ parse_digits-hex_digit (n % 16) (n / 16) acc low
            ∙ ap (λ m. parse_digits 16 m acc) e)
    ]

-- Not the letter that a second prefix would have.
abbrev IsNotX : ℕ → Type 0
IsNotX b = (b == b'X') ≡ false

hex_digit-IsNotX : (d : ℕ) → d < 16 → IsNotX (hex_digit d)
hex_digit-IsNotX d h = ground arith

format_hex_loop-IsNotX :
    (fuel n : ℕ) (acc : List ℕ) → All IsNotX acc → All IsNotX (format_hex_loop fuel n acc)
unfolding format_hex_loop
format_hex_loop-IsNotX zero n acc h = h
format_hex_loop-IsNotX (suc fuel) n acc h =
    let digit = hex_digit-IsNotX (n % 16) (omega arith) in
    elim (Bool-cases (ltb n 16)) [
      | inl q ↦ rw q (digit, h)
      | inr q ↦ rw q (format_hex_loop-IsNotX fuel (n / 16) (hex_digit (n % 16) ∷ acc) (digit, h))
    ]

format_hex_loop-some :
    (fuel n b : ℕ) (acc : List ℕ) → is_nothing (format_hex_loop fuel n (b ∷ acc)) ≡ false
unfolding format_hex_loop
format_hex_loop-some zero n b acc = refl
format_hex_loop-some (suc fuel) n b acc = elim (Bool-cases (ltb n 16)) [
  | inl q ↦ rw q
  | inr q ↦ rw q (format_hex_loop-some fuel (n / 16) (hex_digit (n % 16)) (b ∷ acc))
]

format_hex-some : (n : ℕ) → is_nothing (format_hex n) ≡ false
unfolding format_hex format_hex_loop
format_hex-some n = elim (Bool-cases (ltb n 16)) [
  | inl q ↦ rw q
  | inr q ↦ rw q (format_hex_loop-some 7 (n / 16) (hex_digit (n % 16)) [])
]

has_prefix-IsNotX : (s : List ℕ) → All IsNotX s → has_prefix s (b'0' ∷ b'X' ∷ []) ≡ false
unfolding has_prefix
has_prefix-IsNotX [] h = refl
has_prefix-IsNotX (a ∷ []) h = ground arith
has_prefix-IsNotX (a ∷ b ∷ s) h = ground arith

trim_prefix-IsNotX : (s : List ℕ) → All IsNotX s → trim_prefix s (b'0' ∷ b'X' ∷ []) ≡ s
unfolding trim_prefix
trim_prefix-IsNotX s h = rw (has_prefix-IsNotX s h)

trim_prefix-hex : (s : List ℕ) → trim_prefix (b'0' ∷ b'x' ∷ s) (b'0' ∷ b'x' ∷ []) ≡ s
unfolding trim_prefix has_prefix
trim_prefix-hex s = refl

parse_uint-format_hex : (n : ℕ) → n < 2 ^ 32 → parse_uint 16 32 (format_hex n) ≡ some n
unfolding parse_uint format_hex parse_digits
parse_uint-format_hex n h =
    rw (format_hex-some n, parse_digits-format_hex_loop 8 n [] (omega arith), lt→ltb n (2 ^ 32) h)

-- Where a flags file reads as the text that was written for 32-bit flags, its flags are those without
-- the lowest bit, so that IFF_UP is not set any more.
pub read_netdev_flags-cleared :
    (fs : Fs) (path : List ℕ) (current : ℕ)
    → current < 2 ^ 32
    → read_line fs path ≡ ok (cleared_flags current)
    → (read_netdev_flags_hex fs path ≡ ok (current - current % 2))
      × ((current - current % 2) % 2 ≡ 0)
unfolding read_netdev_flags_hex cleared_flags format_hex
read_netdev_flags-cleared fs path current h e =
    let n = current - current % 2 in
    (
      >>=-ok (read_line fs path) _ _ e
          ∙ ap (λ s. parsed_or_error (parse_uint 16 32 s))
              (ap (λ s. trim_prefix s (b'0' ∷ b'X' ∷ [])) (trim_prefix-hex (format_hex n))
                ∙ trim_prefix-IsNotX (format_hex n) (format_hex_loop-IsNotX 8 n [] tt))
          ∙ ap parsed_or_error (parse_uint-format_hex n (omega arith)),
      omega arith,
    )
