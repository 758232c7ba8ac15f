-- ===== src/App/Tracking/Maps.antt =====
-- Maps that are functions.
use usbip_go.Prelude.{
  ℕ, ◌≡◌, sym, ap, ◌∙◌, inl, inr, ◌⊎◌, true, false, Option, none, some, ◌==◌, if◌then◌else◌,
  Bool-cases, subst, ==→eq, arith,
}
use usbip_go.App.Tracking.{put, is_at}

module _ {A : Type 0} where
  -- Where an entry of a changed map comes from.
  pub put-cases :
      (k : ℕ) (v : A) (m : ℕ → A) (j : ℕ) {x : A}
      → put k v m j ≡ x
      → ((j ≡ k) × (v ≡ x)) ⊎ (((j == k) ≡ false) × (m j ≡ x))
  unfolding put
  put-cases k v m j {x} h = elim (Bool-cases (j == k)) [
    | inl q ↦ inl (==→eq j k q, subst (λ b. (if b then v else m j) ≡ x) q h)
    | inr q ↦ inr (q, subst (λ b. (if b then v else m j) ≡ x) q h)
  ]

  pub put-same : (k : ℕ) (v : A) (m : ℕ → A) → put k v m k ≡ v
  unfolding put
  put-same k v m = ground arith

  pub put-other : (k : ℕ) (v : A) (m : ℕ → A) (j : ℕ) → (j == k) ≡ false → put k v m j ≡ m j
  unfolding put
  put-other k v m j h = rw h

-- A field that a change of an object leaves alone.
pub put-field :
    {A B : Type 0} (field : A → B) (k : ℕ) (v : A) (m : ℕ → A) (j : ℕ)
    → field v ≡ field (m k)
    → field (put k v m j) ≡ field (m j)
unfolding put
put-field field k v m j h = elim (Bool-cases (j == k)) [
  | inl q ↦ rw q (h ∙ ap (λ i. field (m i)) (sym (==→eq j k q)))
  | inr q ↦ rw q
]

pub is_at-eq : (o : Option ℕ) (p : ℕ) → is_at o p ≡ true → o ≡ some p
unfolding is_at
is_at-eq none p h = cc
is_at-eq (some cur) p h = ap some (==→eq cur p h)
