-- ===== src/Kernel/Text/Numbers.antt =====
-- Decimal numbers are read back from their text, alone and among other words.
use usbip_go.Prelude.{
  ℕ, zero, suc, ◌+◌, ◌*◌, ◌/◌, ◌%◌, ◌^◌, ◌≤◌, ◌<◌, ◌≡◌, refl, sym, ap, ◌∙◌, false, Option, none,
  some, List, [], ◌∷◌, ◌++◌, ltb, if◌then◌else◌, All, arith, lt→ltb, ltb→lt, ltb→le, Bool-cases,
  inl, inr, append-nil, append_assoc,
}
use usbip_go.Kernel.Text.{
  is_space, is_nothing, push_word, fields_loop, fields, digit_of, parse_digits, parse_uint,
  format_loop, format_uint,
}

-- A decimal digit.
abbrev pub IsDigit : ℕ → Type 0
IsDigit b = (b'0' ≤ b) × (b ≤ b'9')

digit_of-digit : (d : ℕ) → d < 10 → digit_of (b'0' + d) ≡ some d
unfolding digit_of
digit_of-digit d h = ground arith

parse_digits-digit :
    (d acc : ℕ) (s : List ℕ)
    → d < 10
    → parse_digits 10 acc ((b'0' + d) ∷ s) ≡ parse_digits 10 (acc * 10 + d) s
unfolding parse_digits
parse_digits-digit d acc s h =
    let next = λ (v : ℕ). parse_digits 10 (acc * 10 + v) s in
    ap (λ (o : Option ℕ). elim o [ none ↦ none | some v ↦ if ltb v 10 then next v else none ])
      (digit_of-digit d h)
    ∙ ap (λ c. if c then next d else none) (lt→ltb d 10 h)

shorter : (fuel n : ℕ) → n < 10 ^ suc fuel → n / 10 < 10 ^ fuel
shorter fuel n h = omega arith

parse_digits-format_loop :
    (fuel n : ℕ) (acc : List ℕ)
    → n < 10 ^ fuel
    → parse_digits 10 0 (format_loop fuel n acc) ≡ parse_digits 10 n acc
unfolding format_loop
parse_digits-format_loop zero n acc h = ap (λ m. parse_digits 10 m acc) (omega arith)
parse_digits-format_loop (suc fuel) n acc h =
    let low : n % 10 < 10 = omega arith in
    elim (Bool-cases (ltb n 10)) [
      | inl q ↦
          let e : 0 * 10 + n % 10 ≡ n = omega (arith, ltb→lt n 10 q) in
          rw q (parse_digits-digit (n % 10) 0 acc low ∙ ap (λ m. parse_digits 10 m acc) e)
      | inr q ↦
          let big = ltb→le n 10 q in
          let e : n / 10 * 10 + n % 10 ≡ n = omega arith in
          rw q (
            parse_digits-format_loop fuel (n / 10) ((b'0' + n % 10) ∷ acc) (shorter fuel n h)
            ∙ parse_digits-digit (n % 10) (n / 10) acc low
            ∙ ap (λ m. parse_digits 10 m acc) e)
    ]

-- What the loop puts in front is digits.
format_loop-IsDigit :
    (fuel n : ℕ) (acc : List ℕ) → All IsDigit acc → All IsDigit (format_loop fuel n acc)
unfolding format_loop
format_loop-IsDigit zero n acc h = h
format_loop-IsDigit (suc fuel) n acc h =
    let digit : IsDigit (b'0' + n % 10) = omega arith in
    elim (Bool-cases (ltb n 10)) [
      | inl q ↦ rw q (digit, h)
      | inr q ↦ rw q (format_loop-IsDigit fuel (n / 10) ((b'0' + n % 10) ∷ acc) (digit, h))
    ]

format_loop-some : (fuel n b : ℕ) (acc : List ℕ) → is_nothing (format_loop fuel n (b ∷ acc)) ≡ false
unfolding format_loop
format_loop-some zero n b acc = refl
format_loop-some (suc fuel) n b acc = elim (Bool-cases (ltb n 10)) [
  | inl q ↦ rw q
  | inr q ↦ rw q (format_loop-some fuel (n / 10) (b'0' + n % 10) (b ∷ acc))
]

pub format_uint-IsDigit : (n : ℕ) → All IsDigit (format_uint n)
unfolding format_uint
format_uint-IsDigit n = format_loop-IsDigit 20 n [] tt

pub format_uint-some : (n : ℕ) → is_nothing (format_uint n) ≡ false
unfolding format_uint format_loop
format_uint-some n = elim (Bool-cases (ltb n 10)) [
  | inl q ↦ rw q
  | inr q ↦ rw q (format_loop-some 19 (n / 10) (b'0' + n % 10) [])
]

-- A number below the width's bound is parsed back from the text that prints it.
pub parse_uint-format_uint :
    (bits n : ℕ) → n < 2 ^ bits → n < 10 ^ 20 → parse_uint 10 bits (format_uint n) ≡ some n
unfolding parse_uint format_uint parse_digits
parse_uint-format_uint bits n h small =
    rw (format_uint-some n, parse_digits-format_loop 20 n [] small, lt→ltb n (2 ^ bits) h)

digit-not_space : (b : ℕ) → IsDigit b → is_space b ≡ false
digit-not_space b h = ground arith

fields_loop-digits :
    (w word s : List ℕ) → All IsDigit w → fields_loop word (w ++ s) ≡ fields_loop (word ++ w) s
unfolding fields_loop
fields_loop-digits [] word s h = ap (λ v. fields_loop v s) (sym (append-nil word))
fields_loop-digits (b ∷ w) word s h = rw (digit-not_space b h.0) (
    fields_loop-digits w (word ++ (b ∷ [])) s h.1
    ∙ ap (λ v. fields_loop v s) (append_assoc word (b ∷ []) w))

push_word-some : (w : List ℕ) (ws : List (List ℕ)) → is_nothing w ≡ false → push_word w ws ≡ w ∷ ws
push_word-some [] ws h = cc
push_word-some (b ∷ w) ws h = refl

-- A number with a space behind it is the first word, and a number alone is the only one.
pub fields-number_space :
    (n : ℕ) (s : List ℕ) → fields (format_uint n ++ (32 ∷ s)) ≡ format_uint n ∷ fields s
unfolding fields fields_loop
fields-number_space n s =
    fields_loop-digits (format_uint n) [] (32 ∷ s) (format_uint-IsDigit n)
    ∙ push_word-some (format_uint n) (fields_loop [] s) (format_uint-some n)

pub fields-number : (n : ℕ) → fields (format_uint n) ≡ format_uint n ∷ []
unfolding fields fields_loop
fields-number n =
    ap (λ s. fields_loop [] s) (sym (append-nil (format_uint n)))
    ∙ fields_loop-digits (format_uint n) [] [] (format_uint-IsDigit n)
    ∙ push_word-some (format_uint n) [] (format_uint-some n)

pub parse_uint-lt :
    (base bits : ℕ) (s : List ℕ) {v : ℕ} → parse_uint base bits s ≡ some v → v < 2 ^ bits
unfolding parse_uint
parse_uint-lt base bits s h = ground arith
