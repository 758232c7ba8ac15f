-- ===== src/Kernel/Ports/Lowest.antt =====
-- lowestFreePort finds a free port of the wanted hub if there is one, and then the lowest.
use usbip_go.Prelude.{
  ℕ, ◌≤◌, ◌≡◌, ◌↔◌, ◌-◌, ◌^◌, subst, All-imp, Any-imp, Any-All, refl, sym, ap, ◌∙◌, inl, inr, ◌⊎◌,
  Bool, true, false, ◌&&◌, List, [], ◌∷◌, All, Any, arith,
}
use usbip_go.Kernel.Text.{text_eq}
use usbip_go.Kernel.Ports.{ParsedPort, is_free_status, better_port, lowest_loop, lowest_free_port}

-- A free port of the wanted hub.
abbrev pub is_candidate : List ℕ → ParsedPort → Bool
is_candidate desired r = text_eq r.hub desired && is_free_status r.status

module _ (desired : List ℕ) where
  -- What a round makes of a candidate and of a best port that is there.
  better_port-candidate :
      (best : ℕ × Bool) (r : ParsedPort)
      → is_candidate desired r ≡ true
      → ((better_port desired best r).1 ≡ true) × ((better_port desired best r).0 ≤ r.port)
  unfolding better_port
  better_port-candidate (l, f) r h = ground arith

  better_port-kept :
      (l : ℕ) (r : ParsedPort)
      → ((better_port desired (l, true) r).1 ≡ true) × ((better_port desired (l, true) r).0 ≤ l)
  unfolding better_port
  better_port-kept l r = ground arith

  better_port-from :
      (best : ℕ × Bool) (r : ParsedPort)
      → (better_port desired best r ≡ best)
        ⊎ ((is_candidate desired r ≡ true) × (better_port desired best r ≡ (r.port, true)))
  unfolding better_port
  better_port-from (l, f) r = ground arith

  -- The answer is at most each candidate and the best so far, and is one of them.
  record Bounds (best answer : ℕ × Bool) (rows : List ParsedPort) : Type 0 where
    lower :
        All (λ r. (is_candidate desired r ≡ false) ⊎ ((answer.1 ≡ true) × (answer.0 ≤ r.port))) rows
    keeps : (best.1 ≡ false) ⊎ ((answer.1 ≡ true) × (answer.0 ≤ best.0))
    from :
        (answer ≡ best)
        ⊎ Any (λ r. (is_candidate desired r ≡ true) × (answer ≡ (r.port, true))) rows

  keeps-head :
      (best : ℕ × Bool) (r : ParsedPort) (answer : ℕ × Bool)
      → ((better_port desired best r).1 ≡ false)
        ⊎ ((answer.1 ≡ true) × (answer.0 ≤ (better_port desired best r).0))
      → ((is_candidate desired r ≡ false) ⊎ ((answer.1 ≡ true) × (answer.0 ≤ r.port)))
        × ((best.1 ≡ false) ⊎ ((answer.1 ≡ true) × (answer.0 ≤ best.0)))
  unfolding better_port
  keeps-head (l, f) r answer h = ground arith

  lowest_loop-Bounds :
      (rows : List ParsedPort) (best : ℕ × Bool) → Bounds best (lowest_loop rows desired best) rows
  unfolding lowest_loop
  lowest_loop-Bounds [] (l, true) = record {
    lower = tt;
    keeps = inr (refl, omega arith);
    from = inl refl;
  }
  lowest_loop-Bounds [] (l, false) = record { lower = tt; keeps = inl refl; from = inl refl }
  lowest_loop-Bounds (r ∷ rows) best =
      let more = lowest_loop-Bounds rows (better_port desired best r) in
      let (head, kept) = keeps-head best r _ more.keeps in
      record {
        lower = (head, more.lower);
        keeps = kept;
        from = elim more.from [
          | inr any ↦ inr (inr any)
          | inl same ↦ elim (better_port-from best r) [
            | inl old ↦ inl (same ∙ old)
            | inr (c, new) ↦ inr (inl (c, same ∙ new))
          ]
        ];
      }

-- The port that lowestFreePort finds is that of a free row of the wanted hub, and no free row of
-- that hub has a lower one.
pub lowest_free_port-found :
    (rows : List ParsedPort) (desired : List ℕ) {p : ℕ}
    → lowest_free_port rows desired ≡ (p, true)
    → Any (λ r. (is_candidate desired r ≡ true) × (r.port ≡ p)) rows
      × All (λ r. (is_candidate desired r ≡ false) ⊎ (p ≤ r.port)) rows
unfolding lowest_free_port
lowest_free_port-found rows desired h =
    let b = lowest_loop-Bounds desired rows (2 ^ 32 - 1, false) in
    (
      elim b.from [
        | inl same ↦ absurd (cc)
        | inr any ↦ Any-imp (λ r c. (c.0, ap (λ a. a.0) (sym c.1 ∙ h))) rows any
      ],
      All-imp
          (λ r c. elim c [
            | inl taken ↦ inl taken
            | inr le ↦ inr (subst (λ a. a.0 ≤ r.port) h le.1)
          ])
          rows b.lower,
    )

none-All :
    (rows : List ParsedPort) (desired : List ℕ) (answer : ℕ × Bool)
    → answer.1 ≡ false
    → All (λ r. (is_candidate desired r ≡ false) ⊎ ((answer.1 ≡ true) × (answer.0 ≤ r.port))) rows
    → All (λ r. is_candidate desired r ≡ false) rows
none-All rows desired answer h b =
    All-imp (λ r c. elim c [ inl taken ↦ taken | inr le ↦ absurd (cc) ]) rows b

-- lowestFreePort finds nothing exactly if no row of the wanted hub is free.
pub lowest_free_port-none :
    (rows : List ParsedPort) (desired : List ℕ)
    → ((lowest_free_port rows desired).1 ≡ false) ↔ All (λ r. is_candidate desired r ≡ false) rows
unfolding lowest_free_port
lowest_free_port-none rows desired =
    let b = lowest_loop-Bounds desired rows (2 ^ 32 - 1, false) in
    (
      λ h. none-All rows desired (lowest_free_port rows desired) h b.lower,
      λ a. elim b.from [
        | inl same ↦ ap (λ x. x.1) same
        | inr any ↦ Any-All (λ r c no. absurd (cc)) rows any a
      ],
    )
