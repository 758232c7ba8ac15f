-- ===== src/App/Attaching/Slots.antt =====
-- The slot that keeps a second attachment of the same device out while one is under way.
use usbip_go.Prelude.{
  ◌≡◌, refl, Bool, true, false, not, List, [], ◌∷◌, if◌then◌else◌, arith, subst, sym, Option, none,
  some,
}
use usbip_go.Io.Errors.{
  Error, Result, ok, err, wrap, sentinel, importer_closed, busid_invalid, options_invalid,
}
use usbip_go.Io.Readers.{IoReader}
use usbip_go.App.Tracking.{
  Tracker, AttachKey, key_eq, has_key, remove_key, acquire_attach_slot, release_attach_slot,
}
use usbip_go.App.Attaching.{
  AttachRequest, Peer, Attaching, with_slot, with_endpoint, attach, key_of,
}
use usbip_go.Domain.BusId.{is_valid}
use usbip_go.App.Attaching.Resources.{Outcome, after_guard}

remove_if :
    (key k : AttachKey) (keys : List AttachKey) (b : Bool)
    → key_eq k key ≡ b
    → has_key key keys ≡ false
    → has_key key (if b then keys else k ∷ keys) ≡ false
remove_if key k keys true q h = h
remove_if key k keys false q h = ground arith

has_key-remove_key :
    (key : AttachKey) (keys : List AttachKey) → has_key key (remove_key key keys) ≡ false
has_key-remove_key key [] = refl
has_key-remove_key key (k ∷ keys) =
    remove_if key k (remove_key key keys) (key_eq k key) refl (has_key-remove_key key keys)

-- The key is not in flight.
abbrev pub IsIdle : AttachKey → Outcome → Type 0
IsIdle key x = has_key key x.0.tracker.in_flight ≡ false

acquired :
    (t t' : Tracker) (key : AttachKey) (e : Error)
    → acquire_attach_slot t key ≡ (t', err e)
    → t' ≡ t
unfolding acquire_attach_slot
acquired t t' key e h = ground arith

module _ {R : Type 0} ⦃io : IoReader R⦄ (peer : Peer R) (request : AttachRequest) where
  with_slot-IsIdle :
      (s : Attaching)
      → has_key (key_of request) s.tracker.in_flight ≡ false
      → (x : Tracker × Result (Unit {0})) → acquire_attach_slot s.tracker (key_of request) ≡ x
      → IsIdle (key_of request) (with_slot peer request s x)
  unfolding release_attach_slot
  with_slot-IsIdle s h (t, err e) q =
      subst (λ u. has_key (key_of request) u.in_flight ≡ false)
        (sym (acquired s.tracker t (key_of request) e q)) h
  with_slot-IsIdle s h (t, ok held) q = has_key-remove_key (key_of request) _

  with_endpoint-IsIdle :
      (s : Attaching)
      → has_key (key_of request) s.tracker.in_flight ≡ false
      → (o : Option Error) → IsIdle (key_of request) (with_endpoint peer request s o)
  with_endpoint-IsIdle s h (some e) = h
  with_endpoint-IsIdle s h none =
      let P = IsIdle (key_of request) in
      let slot = acquire_attach_slot s.tracker (key_of request) in
      after_guard P (not (is_valid request.bus_id)) (s, err (wrap (sentinel busid_invalid)))
        (if request.has_negative_attempts
          then (s, err (wrap (sentinel options_invalid)))
          else with_slot peer request s slot)
        h
        (after_guard P request.has_negative_attempts (s, err (wrap (sentinel options_invalid)))
          (with_slot peer request s slot) h (with_slot-IsIdle s h slot refl))

  -- However an attachment ends, and whatever the rest of the program made of the importer meanwhile,
  -- its slot is free again if it was free before.
  pub attach-IsIdle :
      (s : Attaching)
      → has_key (key_of request) s.tracker.in_flight ≡ false
      → IsIdle (key_of request) (attach peer request s)
  unfolding attach
  attach-IsIdle s h =
      after_guard (IsIdle (key_of request)) s.tracker.closed (s, err (sentinel importer_closed))
        (with_endpoint peer request s request.endpoint_error) h
        (with_endpoint-IsIdle s h request.endpoint_error)
