-- ===== src/Kernel/Text.antt =====
-- What the kernel adapter uses of Go's packages strings, strconv and bufio, on ASCII text.
pub mod Numbers
pub mod Equality
use usbip_go.Prelude.{
  ℕ, zero, suc, ◌+◌, ◌-◌, ◌*◌, ◌/◌, ◌%◌, ◌^◌, Bool, true, false, ◌&&◌, ◌||◌, Option, none, some,
  List, [], ◌∷◌, ◌++◌, ltb, leb, ◌==◌, if◌then◌else◌,
}

-- `s == t`.
unfoldable pub text_eq : List ℕ → List ℕ → Bool
text_eq [] [] = true
text_eq (a ∷ s) (b ∷ t) = a == b && text_eq s t
text_eq [] (b ∷ t) = false
text_eq (a ∷ s) [] = false

-- strings.HasPrefix.
unfoldable pub has_prefix : List ℕ → List ℕ → Bool
has_prefix s [] = true
has_prefix [] (b ∷ p) = false
has_prefix (a ∷ s) (b ∷ p) = a == b && has_prefix s p

abbrev pub is_space : ℕ → Bool
is_space b = b == 32 || (leb 9 b && leb b 13)

abbrev pub is_nothing : List ℕ → Bool
is_nothing [] = true
is_nothing (b ∷ s) = false

trim_left : List ℕ → List ℕ
trim_left [] = []
trim_left (b ∷ s) = elim (is_space b) [ true ↦ trim_left s | false ↦ b ∷ s ]

trim_right : List ℕ → List ℕ
trim_right [] = []
trim_right (b ∷ s) =
    let rest = trim_right s in if is_nothing rest && is_space b then [] else b ∷ rest

-- strings.TrimSpace.
unfoldable pub trim_space : List ℕ → List ℕ
unfolding trim_left trim_right
trim_space s = trim_right (trim_left s)

abbrev pub push_word : List ℕ → List (List ℕ) → List (List ℕ)
push_word [] words = words
push_word (b ∷ s) words = (b ∷ s) ∷ words

-- strings.Fields, with the word read so far.
unfoldable pub fields_loop : List ℕ → List ℕ → List (List ℕ)
fields_loop word [] = push_word word []
fields_loop word (b ∷ s) =
    let rest = fields_loop (if is_space b then [] else word ++ (b ∷ [])) s in
    if is_space b then push_word word rest else rest

unfoldable pub fields : List ℕ → List (List ℕ)
fields s = fields_loop [] s

-- The value of a digit of a base up to 36.
unfoldable pub digit_of : ℕ → Option ℕ
digit_of b =
    if leb b'0' b && leb b b'9'
    then some (b - b'0')
    else if leb b'a' b && leb b b'z'
    then some (b - b'a' + 10)
    else if leb b'A' b && leb b b'Z'
    then some (b - b'A' + 10)
    else none

unfoldable pub parse_digits : ℕ → ℕ → List ℕ → Option ℕ
parse_digits base acc [] = some acc
parse_digits base acc (b ∷ s) = elim (digit_of b) [
  | none ↦ none
  | some d ↦ let rest = parse_digits base (acc * base + d) s in if ltb d base then rest else none
]

-- strconv.ParseUint with a base that is not zero; `none` is its error.
unfoldable pub parse_uint : ℕ → ℕ → List ℕ → Option ℕ
parse_uint base bits s = if is_nothing s then none else elim (parse_digits base 0 s) [
  | none ↦ none
  | some v ↦ if ltb v (2 ^ bits) then some v else none
]

-- strconv.FormatUint in base 10; a 64-bit number has at most 20 digits.
unfoldable pub format_loop : ℕ → ℕ → List ℕ → List ℕ
format_loop zero n acc = acc
format_loop (suc fuel) n acc =
    let acc' = (b'0' + n % 10) ∷ acc in
    let more = format_loop fuel (n / 10) acc' in if ltb n 10 then acc' else more

unfoldable pub format_uint : ℕ → List ℕ
format_uint n = format_loop 20 n []
