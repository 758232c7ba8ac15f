-- ===== src/App/Detaching/Owner.antt =====
-- What the owner of a detach leaves behind, and what it answers.
use usbip_go.Prelude.{ℕ, ◌≡◌, refl, true, false, Option, none, some, ◌∷◌, if_rule, arith}
use usbip_go.Io.Errors.{Error, wrap, errors_is, device_not_bound}
use usbip_go.App.Tracking.{Tracker, put, is_at, cancel_if, delete_exact_handle}
use usbip_go.App.Detaching.{
  DetachPeer, Detaching, on_current, called, detach_handle, after_detach_port,
}

-- The handle holds its port.
abbrev pub IsHolding : Detaching → ℕ → ℕ → Type 0
IsHolding s id g = is_at (s.tracker.handles id) g ≡ true

abbrev pub IsGone : Detaching → ℕ → ℕ → Type 0
IsGone s id g = is_at (s.tracker.handles id) g ≡ false

-- How detachHandle ends that found the tables as `s` behind its wait for the watcher.
pub data IsDetached (peer : DetachPeer) (s : Detaching) (id g : ℕ) (x : Detaching × Option Error)
    : Type 0 where
  superseded : IsGone s id g → x ≡ (s, none) → IsDetached peer s id g x
  released :
      IsHolding s id g
      → peer.answer ≡ none
      → x.0.calls ≡ id ∷ s.calls
      → IsGone x.0 id g
      → x.1 ≡ none
      → IsDetached peer s id g x
  was_free :
      (e : Error)
      → IsHolding s id g
      → peer.answer ≡ some e
      → errors_is e device_not_bound ≡ true
      → x.0.calls ≡ id ∷ s.calls
      → IsGone x.0 id g
      → x.1 ≡ some (wrap e)
      → IsDetached peer s id g x
  kept_for_retry :
      (e : Error)
      → IsHolding s id g
      → peer.answer ≡ some e
      → errors_is e device_not_bound ≡ false
      → x ≡ (called peer s id, some (wrap e))
      → IsDetached peer s id g x

is_at-none : (g : ℕ) → is_at none g ≡ false
unfolding is_at
is_at-none g = refl

is_at-put : (id g : ℕ) (m : ℕ → Option ℕ) → is_at (put id none m id) g ≡ false
unfolding is_at put
is_at-put id g m = ground arith

pub delete_exact_handle-gone :
    (t : Tracker) (id g : ℕ) → is_at ((delete_exact_handle t id g).handles id) g ≡ false
unfolding delete_exact_handle
delete_exact_handle-gone t id g =
    if_rule (λ x. is_at (x.handles id) g ≡ false) (is_at (t.handles id) g)
      (record t { handles = put id none t.handles }) t (λ q. is_at-put id g t.handles) (λ q. q)

module _ (peer : DetachPeer) (s : Detaching) (id g : ℕ) where
  after_detach_port-IsDetached :
      IsHolding s id g
      → (o : Option Error) → peer.answer ≡ o
      → IsDetached peer s id g (after_detach_port id g (called peer s id) o)
  after_detach_port-IsDetached h none q =
      released h q refl (delete_exact_handle-gone (peer.mutating s.tracker) id g) refl
  after_detach_port-IsDetached h (some e) q =
      if_rule (IsDetached peer s id g) (errors_is e device_not_bound)
        (
          record (called peer s id) {
            tracker = delete_exact_handle (peer.mutating s.tracker) id g;
          },
          some (wrap e),
        )
        (called peer s id, some (wrap e))
        (λ free.
          was_free e h q free refl (delete_exact_handle-gone (peer.mutating s.tracker) id g) refl)
        (λ other. kept_for_retry e h q other refl)

  on_current-IsDetached : IsDetached peer s id g (on_current peer s id g)
  on_current-IsDetached =
      if_rule (IsDetached peer s id g) (is_at (s.tracker.handles id) g)
        (after_detach_port id g (called peer s id) peer.answer) (s, none)
        (λ h. after_detach_port-IsDetached h peer.answer refl) (λ gone. superseded gone refl)

-- The owner of a detach has the kernel detach the port exactly where this very handle still holds it
-- behind the wait for the watcher, and answers nil otherwise. The handle holds its port no more after
-- the kernel detached it and after the kernel found it free, which is an error; after any other error
-- the tables stay as they were, for another try.
pub detach_handle-IsDetached :
    (peer : DetachPeer) (s : Detaching) (id g : ℕ)
    → IsDetached peer
        (record s { tracker = peer.waiting (cancel_if (some g) s.tracker) })
        id
        g
        (detach_handle peer s id g)
unfolding detach_handle
detach_handle-IsDetached peer s id g =
    on_current-IsDetached peer (record s { tracker = peer.waiting (cancel_if (some g) s.tracker) })
      id g
