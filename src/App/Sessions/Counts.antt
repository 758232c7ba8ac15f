-- ===== src/App/Sessions/Counts.antt =====
-- The counts by peer, and the sessions that they count.
use usbip_go.Prelude.{
  ℕ, suc, ◌-◌, ◌≡◌, refl, sym, ap, ◌∙◌, inl, inr, true, false, List, [], ◌∷◌, ltb, ◌==◌,
  if◌then◌else◌, Bool-cases, arith, subst, ==→eq,
}
use usbip_go.Kernel.Text.{text_eq}
use usbip_go.Kernel.Text.Equality.{text_eq→eq, text_eq_refl}
use usbip_go.App.Sessions.{SessionHandle, get_count, set_count, delete_count, release_peer}

pub true_not_false : true ≡ false → ⊥
true_not_false h = cc

-- Two different keys are not both equal to a third.
text_eq-apart : (a b c : List ℕ) → text_eq a b ≡ false → text_eq a c ≡ true → text_eq b c ≡ false
text_eq-apart a b c apart h = elim (Bool-cases (text_eq b c)) [
  | inl q ↦
      let same = text_eq→eq a c h ∙ sym (text_eq→eq b c q) in
      absurd (true_not_false (sym (text_eq_refl b) ∙ ap (λ s. text_eq s b) (sym same) ∙ apart))
  | inr q ↦ q
]

get_count-delete_count :
    (key k : List ℕ) (counts : List (List ℕ × ℕ))
    → get_count (delete_count key counts) k ≡ (if text_eq key k then 0 else get_count counts k)
get_count-delete_count key k [] = ground arith
get_count-delete_count key k ((j, n) ∷ counts) =
    let rest = get_count-delete_count key k counts in
    elim (Bool-cases (text_eq key j)) [
      | inl q ↦ let same = ap (λ s. text_eq s k) (text_eq→eq key j q) in ground arith
      | inr q ↦ elim (Bool-cases (text_eq key k)) [
        | inl here ↦ let other = text_eq-apart key j k q here in ground arith
        | inr away ↦ ground arith
      ]
    ]

pub get_count-set_count :
    (key k : List ℕ) (n : ℕ) (counts : List (List ℕ × ℕ))
    → get_count (set_count key n counts) k ≡ (if text_eq key k then n else get_count counts k)
get_count-set_count key k n counts = let rest = get_count-delete_count key k counts in ground arith

get_count-same :
    (key k : List ℕ) (counts : List (List ℕ × ℕ))
    → text_eq key k ≡ true
    → get_count counts k ≡ get_count counts key
get_count-same key k counts h = ap (get_count counts) (sym (text_eq→eq key k h))

get_count-lowered :
    (key k : List ℕ) (counts : List (List ℕ × ℕ))
    → get_count
        (if ltb 0 (get_count counts key)
          then set_count key (get_count counts key - 1) counts
          else counts)
        k
      ≡ (if text_eq key k then get_count counts key - 1 else get_count counts k)
get_count-lowered key k counts = elim (Bool-cases (ltb 0 (get_count counts key))) [
  | inl q ↦ rw q (get_count-set_count key k (get_count counts key - 1) counts)
  | inr q ↦ elim (Bool-cases (text_eq key k)) [
    | inl here ↦ let same = get_count-same key k counts here in rw (q, here) (ground arith)
    | inr away ↦ rw (q, away) refl
  ]
]

-- The count that was lowered to zero.
zero_case :
    (key k : List ℕ) (counts lowered : List (List ℕ × ℕ))
    → get_count lowered key ≡ 0
    → get_count lowered k ≡ (if text_eq key k then get_count counts key - 1 else get_count counts k)
    → (if text_eq key k then 0 else get_count lowered k)
      ≡ (if text_eq key k then get_count counts key - 1 else get_count counts k)
zero_case key k counts lowered z at = elim (Bool-cases (text_eq key k)) [
  | inl here ↦ let same = get_count-same key k lowered here in rw here (ground arith)
  | inr away ↦ rw away (
      subst
        (λ b. get_count lowered k ≡ (if b then get_count counts key - 1 else get_count counts k))
        away at)
]

-- Releasing a peer lowers its count by one, stopping at zero, and no other count.
pub get_count-release_peer :
    (key k : List ℕ) (counts : List (List ℕ × ℕ))
    → get_count (release_peer key counts) k
      ≡ (if text_eq key k then get_count counts key - 1 else get_count counts k)
unfolding release_peer
get_count-release_peer key k counts =
    let lowered =
      if ltb 0 (get_count counts key)
      then set_count key (get_count counts key - 1) counts
      else counts in
    let at = get_count-lowered key k counts in
    elim (Bool-cases (get_count lowered key == 0)) [
      | inl q ↦ rw q (
          get_count-delete_count key k lowered
          ∙ zero_case key k counts lowered (==→eq (get_count lowered key) 0 q) at)
      | inr q ↦ rw q at
    ]

-- The sessions of one peer.
unfoldable pub count_peer : List ℕ → List SessionHandle → ℕ
count_peer key [] = 0
count_peer key (h ∷ hs) =
    let rest = count_peer key hs in if text_eq h.peer_key key then suc rest else rest
