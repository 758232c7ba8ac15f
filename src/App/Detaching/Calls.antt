-- ===== src/App/Detaching/Calls.antt =====
-- How often a detach has the kernel detach a port, and which.
use usbip_go.Prelude.{ℕ, ◌≡◌, refl, true, false, Option, none, some, List, [], ◌∷◌, if_rule}
use usbip_go.Io.Errors.{Error, Result, ok, err, wrap, errors_is, device_not_bound}
use usbip_go.App.Tracking.{
  Tracker, DetachTarget, on_reservation, on_handle, on_untracked, acquire_detach_target, is_at,
  delete_exact_handle, cancel_if,
}
use usbip_go.App.Detaching.{
  DetachPeer, Detaching, DetachResult, answered, waits, on_current, detach_handle,
  detach_untracked_port, detach_published_target, Publication, gave_up, completed,
  after_publication, called, on_target, detach, after_detach_port, on_attempt,
}

-- DetachPort was called for the port at most once, and not at all where the call joined another or
-- still waits.
pub data IsOnce (id : ℕ) (s : Detaching) (x : Detaching × DetachResult) : Type 0 where
  never : x.0.calls ≡ s.calls → IsOnce id s x
  once : (e : Option Error) → x.0.calls ≡ id ∷ s.calls → x.1 ≡ answered e → IsOnce id s x

-- The same of a call that always answers.
data Once (id : ℕ) (s : Detaching) (x : Detaching × Option Error) : Type 0 where
  unasked : x.0.calls ≡ s.calls → Once id s x
  asked : x.0.calls ≡ id ∷ s.calls → Once id s x

after_detach_port-calls :
    (id g : ℕ) (s : Detaching) (o : Option Error) → (after_detach_port id g s o).0.calls ≡ s.calls
after_detach_port-calls id g s none = refl
after_detach_port-calls id g s (some e) =
    if_rule {X = Detaching × Option Error} (λ x. x.0.calls ≡ s.calls) (errors_is e device_not_bound)
      (record s { tracker = delete_exact_handle s.tracker id g }, some (wrap e)) (s, some (wrap e))
      (λ q. refl) (λ q. refl)

on_current-Once :
    (peer : DetachPeer) (s : Detaching) (id g : ℕ) → Once id s (on_current peer s id g)
on_current-Once peer s id g =
    if_rule (Once id s) (is_at (s.tracker.handles id) g)
      (after_detach_port id g (called peer s id) peer.answer) (s, none)
      (λ q. asked (after_detach_port-calls id g (called peer s id) peer.answer)) (λ q. unasked refl)

detach_handle-Once :
    (peer : DetachPeer) (s : Detaching) (id g : ℕ) → Once id s (detach_handle peer s id g)
unfolding detach_handle
detach_handle-Once peer s id g =
    let s' = record s { tracker = peer.waiting (cancel_if (some g) s.tracker) } in
    elim (on_current-Once peer s' id g) [ unasked q ↦ unasked q | asked q ↦ asked q ]

detach_published_target-IsOnce :
    (peer : DetachPeer) (s : Detaching) (id : ℕ) (target : DetachTarget)
    → IsOnce id s (detach_published_target peer s id target)
unfolding detach_published_target detach_untracked_port
detach_published_target-IsOnce peer s id (on_reservation r) = never refl
detach_published_target-IsOnce peer s id (on_handle g a false) = never refl
detach_published_target-IsOnce peer s id (on_handle g a true) =
    elim (detach_handle-Once peer s id g) [ unasked q ↦ never q | asked q ↦ once _ q refl ]
detach_published_target-IsOnce peer s id (on_untracked a false) = never refl
detach_published_target-IsOnce peer s id (on_untracked a true) = once _ refl refl

on_target-IsOnce :
    (wait : Detaching → ℕ → Detaching × DetachResult) (peer : DetachPeer) (s : Detaching) (id : ℕ)
    → ((s' : Detaching) (r : ℕ) → IsOnce id s' (wait s' r))
    → (x : Tracker × Result DetachTarget) → IsOnce id s (on_target wait peer s id x)
on_target-IsOnce wait peer s id w (t, err e) = never refl
on_target-IsOnce wait peer s id w (t, ok (on_reservation r)) =
    elim (w (record s { tracker = t }) r) [ never q ↦ never q | once e q j ↦ once e q j ]
on_target-IsOnce wait peer s id w (t, ok (on_handle g a owner)) =
    elim (detach_published_target-IsOnce peer (record s { tracker = t }) id (on_handle g a owner)) [
      | never q ↦ never q
      | once e q j ↦ once e q j
    ]
on_target-IsOnce wait peer s id w (t, ok (on_untracked a owner)) =
    elim (detach_published_target-IsOnce peer (record s { tracker = t }) id
      (on_untracked a owner)) [ never q ↦ never q | once e q j ↦ once e q j ]

on_attempt-IsOnce :
    (id : ℕ) (again : Detaching → Detaching × DetachResult) (s : Detaching)
    → ((s' : Detaching) → IsOnce id s' (again s'))
    → (o : Option ℕ) → IsOnce id s (on_attempt again s o)
on_attempt-IsOnce id again s w (some a) = never refl
on_attempt-IsOnce id again s w none = w s

after_publication-IsOnce :
    (id : ℕ) (again : Detaching → Detaching × DetachResult) (s : Detaching) (r : ℕ)
    → ((s' : Detaching) → IsOnce id s' (again s'))
    → (p : Publication) → IsOnce id s (after_publication again s r p)
unfolding after_publication
after_publication-IsOnce id again s r w (gave_up e) = never refl
after_publication-IsOnce id again s r w (completed others) =
    elim (on_attempt-IsOnce id again (record s { tracker = others s.tracker }) w
      ((others s.tracker).reservation_at r).detach_attempt) [
        | never q ↦ never q
        | once e q j ↦ once e q j
      ]

-- However often it has to wait for a reservation and whatever others do meanwhile, a detach has the
-- kernel detach its own port at most once and no other port, and not at all when it joins another
-- caller's attempt or still waits.
pub detach-IsOnce :
    (peer : DetachPeer) (publications : List Publication) (s : Detaching) (id : ℕ)
    → IsOnce id s (detach peer publications s id)
unfolding detach
detach-IsOnce peer [] s id =
    on_target-IsOnce (λ s' r. (s', waits r)) peer s id (λ s' r. never refl)
      (acquire_detach_target s.tracker id)
detach-IsOnce peer (p ∷ publications) s id =
    on_target-IsOnce (λ s' r. after_publication (λ s''. detach peer publications s'' id) s' r p)
      peer s id
      (λ s' r.
        after_publication-IsOnce id (λ s''. detach peer publications s'' id) s' r
          (λ s''. detach-IsOnce peer publications s'' id) p)
      (acquire_detach_target s.tracker id)
