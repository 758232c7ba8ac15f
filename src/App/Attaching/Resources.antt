-- ===== src/App/Attaching/Resources.antt =====
-- The connection, the kernel's port and the slot of an attachment at its end.
use usbip_go.Prelude.{ℕ, ◌≡◌, Bool, true, false, List, ◌∷◌, if◌then◌else◌}
use usbip_go.Io.Errors.{Error, Result, ok, err}
use usbip_go.Domain.Device.{Device}
use usbip_go.App.Attaching.{
  Effect, opened_conn, closed_conn, kernel_attached, detach_called, watcher_spawned, compensating,
  Attaching,
}

abbrev pub Outcome : Type 0
Outcome = Attaching × Result (ℕ × ℕ)

-- How an attachment ends whose connection was opened on the effects `base`.
pub data IsDialed (auto : Bool) (base : List Effect) (x : Outcome) : Type 0 where
  hung_up :
      (e : Error)
      → x.0.effects ≡ closed_conn ∷ opened_conn ∷ base
      → x.1 ≡ err e
      → IsDialed auto base x
  lost :
      (id : ℕ) (e : Error)
      → x.0.effects ≡ detach_called id ∷ kernel_attached id ∷ opened_conn ∷ base
      → x.1 ≡ err e
      → IsDialed auto base x
  kept :
      (id g : ℕ)
      → auto ≡ false
      → x.0.effects ≡ kernel_attached id ∷ opened_conn ∷ base
      → x.1 ≡ ok (id, g)
      → IsDialed auto base x
  watched :
      (id g : ℕ)
      → auto ≡ true
      → x.0.effects ≡ watcher_spawned g ∷ kernel_attached id ∷ opened_conn ∷ base
      → x.1 ≡ ok (id, g)
      → IsDialed auto base x
  compensated :
      (id g a : ℕ)
      → x.0.effects ≡ compensating g a ∷ kernel_attached id ∷ opened_conn ∷ base
      → x.1 ≡ ok (id, g)
      → IsDialed auto base x

pub data IsOutcome (auto : Bool) (base : List Effect) (x : Outcome) : Type 0 where
  refused : (e : Error) → x.0.effects ≡ base → x.1 ≡ err e → IsOutcome auto base x
  dialed : IsDialed auto base x → IsOutcome auto base x

-- What holds of an attachment that a guard refuses and of one that goes on holds of both.
pub after_guard :
    (P : Outcome → Type 0) (b : Bool) (x y : Outcome) → P x → P y → P (if b then x else y)
after_guard P true x y p q = p
after_guard P false x y p q = q
