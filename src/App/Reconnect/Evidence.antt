-- ===== src/App/Reconnect/Evidence.antt =====
-- On what evidence the watcher takes its port for detached.
use usbip_go.Prelude.{
  ◌==◌, subst, if◌then◌else◌, Bool-cases, ==→eq, ==→ne, ◌≢◌, ℕ, ◌≡◌, refl, sym, inl, inr, ◌⊎◌, Bool,
  true, false, List, [], ◌∷◌, Any, arith, ap, ◌∙◌,
}
use usbip_go.Io.Errors.{Result, ok, err}
use usbip_go.Kernel.Ports.{Port, status_null}
use usbip_go.App.Tracking.{Tracker, is_at}
use usbip_go.App.Reconnect.{
  ReconnectParams, port_detached, other_event, Source, by_uevent, by_poll, listed_as_free,
  port_is_detached, is_current_handle, is_detach_signal, Sight, cancelled, events_closed, event,
  timer, DetectTick, detected, stopped, goes_on, wait_for_detach_tick, Detection, lost_by,
  next_tick, wait_from, wait_for_detach,
}

-- The first row of the port says that it is null, which is 0, or no row is of the port.
pub data IsNullOrMissing (id : ℕ) : List Port → Type 0 where
  missing : IsNullOrMissing id []
  null_here :
      (p : Port) (ports : List Port) → p.id ≡ id → p.status ≡ 0 → IsNullOrMissing id (p ∷ ports)
  later :
      (p : Port) (ports : List Port)
      → p.id ≢ id
      → IsNullOrMissing id ports
      → IsNullOrMissing id (p ∷ ports)

listed_as_free-IsNullOrMissing :
    (ports : List Port) (id : ℕ) → listed_as_free ports id ≡ true → IsNullOrMissing id ports
unfolding listed_as_free
listed_as_free-IsNullOrMissing [] id h = missing
listed_as_free-IsNullOrMissing (p ∷ ports) id h = elim (Bool-cases (p.id == id)) [
  | inl q ↦ null_here p ports (==→eq p.id id q) (
      ==→eq p.status 0
        (subst (λ b. (if b then p.status == status_null else listed_as_free ports id) ≡ true) q h))
  | inr q ↦ later p ports (==→ne p.id id q) (
      listed_as_free-IsNullOrMissing ports id
        (subst (λ b. (if b then p.status == status_null else listed_as_free ports id) ≡ true) q h))
]

-- The kernel's list was read, and it does not show the port in use.
abbrev pub IsFreed : Result (List Port) → ℕ → Type 0
IsFreed (err e) id = ⊥
IsFreed (ok ports) id = IsNullOrMissing id ports

-- What shows that the port of the watcher's own handle is detached: an event of this port, or the poll
-- timer, and both times the handle still holds the port and the kernel confirms it.
abbrev pub IsEvidence : ReconnectParams → Source → Sight → Type 0
IsEvidence p source cancelled = ⊥
IsEvidence p source events_closed = ⊥
IsEvidence p source (event e t ports) =
    (source ≡ by_uevent)
    × (e ≡ port_detached p.port_id)
    × (is_at (t.handles p.port_id) p.handle ≡ true)
    × IsFreed ports p.port_id
IsEvidence p source (timer t ports) =
    (source ≡ by_poll)
    × (p.polls ≡ true)
    × (is_at (t.handles p.port_id) p.handle ≡ true)
    × IsFreed ports p.port_id

port_is_detached-IsFreed :
    (ports : Result (List Port)) (id : ℕ) → port_is_detached ports id ≡ true → IsFreed ports id
unfolding port_is_detached
port_is_detached-IsFreed (err e) id h = cc
port_is_detached-IsFreed (ok ports) id h = listed_as_free-IsNullOrMissing ports id h

signal_sound :
    (t : Tracker) (ports : Result (List Port)) (id : ℕ) (p : ReconnectParams)
    → is_detach_signal t ports (port_detached id) p ≡ true
    → (id ≡ p.port_id)
      × (is_at (t.handles p.port_id) p.handle ≡ true)
      × (port_is_detached ports p.port_id ≡ true)
unfolding is_detach_signal is_current_handle
signal_sound t ports id p h = ground arith

tick-IsEvidence :
    (p : ReconnectParams) (armed : Bool) (s : Sight) (source : Source)
    → (armed ≡ true → p.polls ≡ true)
    → wait_for_detach_tick p armed s ≡ detected source
    → IsEvidence p source s
unfolding wait_for_detach_tick is_current_handle is_detach_signal
tick-IsEvidence p armed cancelled source a q = cc
tick-IsEvidence p armed events_closed source a q = cc
tick-IsEvidence p armed (event other_event t ports) source a q = ground arith
tick-IsEvidence p armed (event (port_detached id) t ports) source a q =
    let (same, current, freed) = signal_sound t ports id p (ground arith) in
    (
      ground arith,
      ap (λ n. port_detached n) same,
      current,
      port_is_detached-IsFreed ports p.port_id freed,
    )
tick-IsEvidence p false (timer t ports) source a q = cc
tick-IsEvidence p true (timer t ports) source a q =
    (ground arith, a refl, ground arith, port_is_detached-IsFreed ports p.port_id (ground arith))

tick-armed :
    (p : ReconnectParams) (armed armed' : Bool) (s : Sight)
    → wait_for_detach_tick p armed s ≡ goes_on armed'
    → armed' ≡ armed
unfolding wait_for_detach_tick
tick-armed p armed armed' cancelled q = cc
tick-armed p armed armed' events_closed q = cc
tick-armed p armed armed' (event e t ports) q = ground arith
tick-armed p false armed' (timer t ports) q = ground arith
tick-armed p true armed' (timer t ports) q = ground arith

next_tick-lost_by :
    (rest : Bool → Detection) (tick : DetectTick) (source : Source)
    → next_tick rest tick ≡ lost_by source
    → (tick ≡ detected source)
      ⊎ ((armed : Bool) × (tick ≡ goes_on armed) × (rest armed ≡ lost_by source))
next_tick-lost_by rest (detected source') source q = inl cc
next_tick-lost_by rest stopped source q = cc
next_tick-lost_by rest (goes_on armed) source q = inr (armed, refl, q)

wait_from-IsEvidence :
    (p : ReconnectParams) (armed : Bool) (sights : List Sight) (source : Source)
    → (armed ≡ true → p.polls ≡ true)
    → wait_from p armed sights ≡ lost_by source
    → Any (IsEvidence p source) sights
unfolding wait_from
wait_from-IsEvidence p armed [] source a q = cc
wait_from-IsEvidence p armed (s ∷ sights) source a q =
    elim (next_tick-lost_by (λ b. wait_from p b sights) (wait_for_detach_tick p armed s) source q) [
      | inl e ↦ inl (tick-IsEvidence p armed s source a e)
      | inr (armed', e, more) ↦ inr (
          wait_from-IsEvidence p armed' sights source
            (λ h. a (sym (tick-armed p armed armed' s e) ∙ h)) more)
    ]

-- The watcher takes its port for detached only when an event names this very port, or its poll timer
-- fires, while its own handle still holds the port and, in a list of ports that was read without an
-- error, the first row of this port says null or there is no such row; and it reports the source that
-- saw it.
pub wait_for_detach-IsEvidence :
    (p : ReconnectParams) (sights : List Sight) (source : Source)
    → wait_for_detach p sights ≡ lost_by source
    → Any (IsEvidence p source) sights
unfolding wait_for_detach
wait_for_detach-IsEvidence p sights source q =
    wait_from-IsEvidence p p.polls sights source (λ h. h) q
