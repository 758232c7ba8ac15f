-- ===== src/Kernel/Text/Equality.antt =====
-- The test of two texts for equality decides it.
use usbip_go.Prelude.{
  ℕ, ◌≡◌, ◌≢◌, refl, sym, ap, ◌∙◌, true, false, List, [], ◌∷◌, arith, eq→==, subst,
}
use usbip_go.Kernel.Text.{text_eq}

pub text_eq→eq : (s t : List ℕ) → text_eq s t ≡ true → s ≡ t
unfolding text_eq
text_eq→eq [] [] h = refl
text_eq→eq [] (b ∷ t) h = cc
text_eq→eq (a ∷ s) [] h = cc
text_eq→eq (a ∷ s) (b ∷ t) h =
    let heads : a ≡ b = ground arith in
    ap (λ c. c ∷ s) heads ∙ ap (◌∷◌ b) (text_eq→eq s t (ground arith))

pub text_eq_refl : (s : List ℕ) → text_eq s s ≡ true
unfolding text_eq
text_eq_refl [] = refl
text_eq_refl (a ∷ s) = rw (eq→== a a refl, text_eq_refl s) refl

pub text_eq→ne : (s t : List ℕ) → text_eq s t ≡ false → s ≢ t
text_eq→ne s t h e = clash (sym (text_eq_refl t) ∙ subst (λ x. text_eq x t ≡ false) e h)
  where
    clash : true ≡ false → ⊥
    clash q = cc
