-- ===== src/Kernel/Topology/Count.antt =====
-- probeControllerCount counts the status files up to the first that is missing.
use usbip_go.Prelude.{
  ℕ, zero, suc, ◌+◌, ◌≤◌, ◌<◌, ◌≡◌, sym, ap, ◌∙◌, inl, inr, true, false, ◌==◌, if◌then◌else◌, arith,
  Bool-cases, subst, ==→eq, ==→ne,
}
use usbip_go.Io.Errors.{ok, >>=-ok, >>=-eq-ok, guard-ok, ok-injective}
use usbip_go.Kernel.Sysfs.{Fs}
use usbip_go.Kernel.Topology.{status_file_state, probe_loop, probe_controller_count}

-- The status files up to the n-th are there, and the n-th is not.
pub record IsCount (fs : Fs) (from n : ℕ) : Type 0 where
  pub present : (i : ℕ) → from ≤ i → i < n → status_file_state fs i ≡ ok true
  pub missing : status_file_state fs n ≡ ok false

probe_loop-first :
    (fuel : ℕ) (fs : Fs) (i n : ℕ)
    → i ≤ n
    → n < i + fuel
    → IsCount fs i n
    → probe_loop fuel fs i i ≡ ok n
unfolding probe_loop
probe_loop-first zero fs i n le lt c = absurd (omega arith)
probe_loop-first (suc fuel) fs i n le lt c = elim (Bool-cases (i == n)) [
  | inl e ↦
      let same : i ≡ n = ground arith in
      >>=-ok (status_file_state fs i) _ false
        (subst (λ m. status_file_state fs m ≡ ok false) (sym same) c.missing)
      ∙ ap ok same
  | inr e ↦
      let below : i < n = ground arith in
      >>=-ok (status_file_state fs i) _ true (c.present i (omega arith) below)
      ∙ probe_loop-first fuel fs (suc i) n (omega arith) (omega arith)
          (record { present = λ j h l. c.present j (omega arith) l; missing = c.missing })
]

IsCount-cons :
    (fs : Fs) (i n : ℕ) → status_file_state fs i ≡ ok true → IsCount fs (suc i) n → IsCount fs i n
IsCount-cons fs i n h c = record {
  present = λ j le l. elim (Bool-cases (i == j)) [
    | inl e ↦ subst (λ m. status_file_state fs m ≡ ok true) (==→eq i j e) h
    | inr e ↦ let ne = ==→ne i j e in c.present j (grind arith) l
  ];
  missing = c.missing;
}

probe_loop-IsCount :
    (fuel : ℕ) (fs : Fs) (i : ℕ) {n : ℕ} → probe_loop fuel fs i i ≡ ok n → (i ≤ n) × IsCount fs i n
unfolding probe_loop
probe_loop-IsCount zero fs i e = cc
probe_loop-IsCount (suc fuel) fs i {n} e =
    let (there, q, more) = >>=-eq-ok (status_file_state fs i) _ e in
    elim (Bool-cases there) [
      | inl yes_there ↦
          let later : probe_loop fuel fs (suc i) (suc i) ≡ ok n =
            subst (λ b. (if b then probe_loop fuel fs (suc i) (suc i) else ok i) ≡ ok n) yes_there
              more in
          let (le, c) = probe_loop-IsCount fuel fs (suc i) later in
          (omega arith, IsCount-cons fs i n (q ∙ ap ok yes_there) c)
      | inr no_more ↦
          let here : i ≡ n = ok-injective (
            subst (λ b. (if b then probe_loop fuel fs (suc i) (suc i) else ok i) ≡ ok n) no_more
              more) in
          (
            omega arith,
            record {
              present = λ j h l. absurd (omega arith);
              missing = subst (λ m. status_file_state fs m ≡ ok false) here (q ∙ ap ok no_more);
            },
          )
    ]

-- The number that probeControllerCount returns is not zero, and it counts the status files up to the
-- first gap.
pub probe_controller_count-IsCount :
    (fuel : ℕ) (fs : Fs) {n : ℕ} → probe_controller_count fuel fs ≡ ok n → (0 < n) × IsCount fs 0 n
unfolding probe_controller_count
probe_controller_count-IsCount fuel fs {n} e =
    let (count, q, more) = >>=-eq-ok (probe_loop fuel fs 0 0) _ e in
    let (ne, same) = guard-ok (count == 0) _ _ more in
    let positive = ==→ne count 0 ne in
    let is : count ≡ n = ok-injective same in
    (grind arith, subst (IsCount fs 0) is (probe_loop-IsCount fuel fs 0 q).1)

-- With more fuel than there are status files, probeControllerCount returns their number, counted up
-- to the first gap, if there is at least one.
pub probe_controller_count-first :
    (fuel : ℕ) (fs : Fs) (n : ℕ)
    → 0 < n
    → n < fuel
    → IsCount fs 0 n
    → probe_controller_count fuel fs ≡ ok n
unfolding probe_controller_count
probe_controller_count-first fuel fs n p h c =
    >>=-ok (probe_loop fuel fs 0 0) _ n (probe_loop-first fuel fs 0 n (omega arith) (omega arith) c)
    ∙ ground arith
