-- ===== src/Kernel/Actions/Costs.antt =====
-- Bounds on the waits of an action and on the number of its writes to one file.
use usbip_go.Prelude.{
  ℕ, ◌+◌, ◌≤◌, ◌≡◌, refl, ap, Bool, true, false, List, [], ◌∷◌, if◌then◌else◌, arith,
}
use usbip_go.Io.Errors.{Error, Result, ok, err}
use usbip_go.Kernel.Text.{text_eq}
use usbip_go.Kernel.Sysfs.{Write}
use usbip_go.Kernel.Actions.{
  World, Step, Act, give, attempt, or_return, ◌and_then◌, write, sleep, done_or_sleep,
}
use usbip_go.Kernel.Actions.Writes.{written, slept_ms, IsReading}

-- How many of the writes go to a file.
abbrev pub write_weight : List ℕ → List ℕ → ℕ
write_weight target to = if text_eq to target then 1 else 0

abbrev pub count_writes : List ℕ → List Write → ℕ
count_writes target [] = 0
count_writes target (s ∷ writes) = write_weight target s.target + count_writes target writes

-- An action that waits at most so many milliseconds, and writes to the file at most so many times.
pub record Costs {A : Type 0} (target : List ℕ) (ms times : ℕ) (act : Act A) : Type 0 where
  pub waits : (w : World) (log : List Step) → slept_ms (act w log).log ≤ ms + slept_ms log
  pub tries :
      (w : World) (log : List Step)
      → count_writes target (written (act w log).log) ≤ times + count_writes target (written log)

le_of_eq : {a b : ℕ} → a ≡ b → a ≤ b
le_of_eq e = omega arith

le_of_eq_zero : {a b : ℕ} → a ≡ b → a ≤ 0 + b
le_of_eq_zero e = omega arith

add_bounds : (a b m n z : ℕ) → a ≤ m + z → b ≤ n + a → b ≤ m + n + z
add_bounds a b m n z p q = omega arith

module _ {target : List ℕ} {A : Type 0} where
  pub Costs-IsReading : (act : Act A) → IsReading act → Costs target 0 0 act
  Costs-IsReading act r = record {
    waits = λ w log. le_of_eq_zero (r.awake w log);
    tries = λ w log. le_of_eq_zero (ap (count_writes target) (r.same w log));
  }

  pub Costs-weaken :
      (m n m' n' : ℕ) (act : Act A)
      → m ≤ m'
      → n ≤ n'
      → Costs target m n act
      → Costs target m' n' act
  Costs-weaken m n m' n' act p q c = record {
    waits = λ w log. (let h = c.waits w log in omega arith);
    tries = λ w log. (let h = c.tries w log in omega arith);
  }

  pub Costs-give : (m n : ℕ) (r : Result A) → Costs target m n (give r)
  unfolding give
  Costs-give m n r = record { waits = λ w log. omega arith; tries = λ w log. omega arith }

  pub Costs-if :
      (m n : ℕ) (b : Bool) (x y : Act A)
      → Costs target m n x
      → Costs target m n y
      → Costs target m n (if b then x else y)
  Costs-if m n true x y p q = p
  Costs-if m n false x y p q = q

sleep_costs :
    (b : Bool) (ms : ℕ) (e : Error) (w : World) (log : List Step)
    → (slept_ms (done_or_sleep b ms e w log).log ≤ ms + slept_ms log)
      × (written (done_or_sleep b ms e w log).log ≡ written log)
sleep_costs true ms e w log = (omega arith, refl)
sleep_costs false ms e w log = (omega arith, refl)

module _ {target : List ℕ} where
  pub Costs-write :
      (n : ℕ) (to text : List ℕ) → write_weight target to ≡ n → Costs target 0 n (write to text)
  unfolding write
  Costs-write n to text e = record {
    waits = λ w log. omega arith;
    tries = λ w log. le_of_eq (ap (λ k. k + count_writes target (written log)) e);
  }

  pub Costs-sleep : (ms : ℕ) (e : Error) → Costs target ms 0 (sleep ms e)
  unfolding sleep
  Costs-sleep ms e = record {
    waits = λ w log. (sleep_costs (w.is_done log) ms e w log).0;
    tries = λ w log.
        le_of_eq_zero (ap (count_writes target) (sleep_costs (w.is_done log) ms e w log).1);
  }

module _ {target : List ℕ} {A B : Type 0} where
  pub Costs-attempt :
      (m n m' n' : ℕ) (act : Act A) (rest : Result A → Act B)
      → Costs target m n act
      → ((r : Result A) → Costs target m' n' (rest r))
      → Costs target (m + m') (n + n') (attempt act rest)
  unfolding attempt
  Costs-attempt m n m' n' act rest a r = record {
    waits = λ w log.
        add_bounds _ _ m m' _ (a.waits w log) ((r (act w log).result).waits w (act w log).log);
    tries = λ w log.
        add_bounds _ _ n n' _ (a.tries w log) ((r (act w log).result).tries w (act w log).log);
  }

  Costs-or_return :
      (m n : ℕ) (rest : A → Act B)
      → ((a : A) → Costs target m n (rest a))
      → (r : Result A) → Costs target m n (or_return rest r)
  Costs-or_return m n rest f (err e) = Costs-give m n (err e)
  Costs-or_return m n rest f (ok a) = f a

  pub Costs-and_then :
      (m n m' n' : ℕ) (act : Act A) (rest : A → Act B)
      → Costs target m n act
      → ((a : A) → Costs target m' n' (rest a))
      → Costs target (m + m') (n + n') (act and_then rest)
  Costs-and_then m n m' n' act rest a r =
      Costs-attempt m n m' n' act (or_return rest) a (Costs-or_return m' n' rest r)
