-- ===== src/App/Accepting.antt =====
-- internal/app/exporter.go: Serve, its accept loop and what Shutdown does to them, with the access
-- list of internal/app/cidr.go. Listeners, connections and calls of Serve are numbers.
pub mod Admission
pub mod Lifecycle
use usbip_go.Prelude.{
  ℕ, Bool, true, false, not, ◌||◌, Option, none, some, List, [], ◌∷◌, ◌==◌, if◌then◌else◌,
}
use usbip_go.Io.Errors.{Error, Result, ok, err, wrap, sentinel, already_running, already_shutdown}

-- The fields of Exporter that Serve and Shutdown share; the registry of sessions stands apart.
pub record Server : Type 0 where
  pub shutdown : Bool
  pub serving : Bool
  pub listener : Option ℕ
  pub serve_cancel : Option ℕ

abbrev pub new_server : Server
new_server = record { shutdown = false; serving = false; listener = none; serve_cancel = none }

-- startServing, of a call of Serve.
unfoldable pub start_serving : ℕ → Server → Server × Result (Unit {0})
start_serving serve e =
    if e.shutdown
    then (e, err (sentinel already_shutdown))
    else if e.serving
    then (e, err (sentinel already_running))
    else (record e { serving = true; listener = none; serve_cancel = some serve }, ok tt)

-- installServingListener.
unfoldable pub install_serving_listener : ℕ → Server → Server × Result (Unit {0})
install_serving_listener listener e =
    if e.shutdown
    then (e, err (sentinel already_shutdown))
    else (record e { listener = some listener }, ok tt)

-- stopServing, and the call whose context it cancels.
unfoldable pub stop_serving : Server → Server × Option ℕ
stop_serving e =
    (record e { serving = false; listener = none; serve_cancel = none }, e.serve_cancel)

-- What captureShutdownState takes down: whether it is the first shutdown, the listener, and the call
-- to cancel.
pub record ShutdownState : Type 0 where
  pub first_shutdown : Bool
  pub listener : Option ℕ
  pub serve_cancel : Option ℕ

-- captureShutdownState, as far as the listener goes.
unfoldable pub capture_listener : Server → Server × ShutdownState
capture_listener e = (
  if e.shutdown then e else record e { shutdown = true; listener = none },
  record { first_shutdown = not e.shutdown; listener = e.listener; serve_cancel = e.serve_cancel },
)

-- What Shutdown does with it, outside the mutex: the listener that it closes and the call whose
-- context it cancels.
unfoldable pub release_listener : ShutdownState → Option ℕ × Option ℕ
release_listener s = if s.first_shutdown then (s.listener, s.serve_cancel) else (none, none)

-- Shutdown, as far as the listener goes.
unfoldable pub shutdown_listener : Server → Server × Option ℕ × Option ℕ
shutdown_listener e =
    let (e', s) = capture_listener e in
    let (closed, cancelled) = release_listener s in (e', closed, cancelled)

-- aclChecker, with package net's `Contains` and what ipFromAddr finds, if it finds an address.
module _ {Net Ip : Type 0} (contains : Net → Ip → Bool) where
  unfoldable pub any_contains : List Net → Ip → Bool
  any_contains [] ip = false
  any_contains (n ∷ nets) ip = contains n ip || any_contains nets ip

  -- aclChecker.allow.
  unfoldable pub allow : List Net → Option Ip → Bool
  allow [] ip = true
  allow (n ∷ nets) none = false
  allow (n ∷ nets) (some ip) = any_contains (n ∷ nets) ip

-- What Accept returns: a connection with the address of its peer, or an error, with whether the
-- context is done then and the error is net.ErrClosed.
pub data Accepted (Ip : Type 0) : Type 0 where
  connection : ℕ → Option Ip → Accepted Ip
  failed : Error → Bool → Bool → Accepted Ip

-- What the loop does with a connection: it closes it, or starts a handler for it.
pub data Dispatch : Type 0 where
  closes handles : ℕ → Dispatch

-- acceptShouldStop.
unfoldable pub accept_should_stop : Bool → Bool → Bool
accept_should_stop is_done is_closed = is_done || is_closed

-- `acceptLim` is package rate's limiter: its state, and Allow.
module _ {Net Ip Limiter : Type 0} (contains : Net → Ip → Bool)
    (take_token : Limiter → Limiter × Bool) (nets : List Net) where
  abbrev pub dispatch_by : ℕ → Limiter × Bool → Limiter × Dispatch
  dispatch_by conn (l, true) = (l, handles conn)
  dispatch_by conn (l, false) = (l, closes conn)

  -- The body of the loop, of a connection.
  unfoldable pub dispatch : ℕ → Option Ip → Limiter → Limiter × Dispatch
  dispatch conn ip l =
      if not (allow contains nets ip) then (l, closes conn) else dispatch_by conn (take_token l)

  abbrev pub add_dispatch :
      (Limiter → List Dispatch × Option (Result (Unit {0})))
      → Limiter × Dispatch
      → List Dispatch × Option (Result (Unit {0}))
  add_dispatch rest (l, d) = let (ds, r) = rest l in (d ∷ ds, r)

  -- acceptLoop on what Accept returns: what it did, in order, and its result; `none` is a loop that
  -- waits for the next connection.
  unfoldable pub accept_loop :
      List (Accepted Ip) → Limiter → List Dispatch × Option (Result (Unit {0}))
  accept_loop [] l = ([], none)
  accept_loop (connection conn ip ∷ more) l = add_dispatch (accept_loop more) (dispatch conn ip l)
  accept_loop (failed e is_done is_closed ∷ more) l =
      if accept_should_stop is_done is_closed then ([], some (ok tt)) else ([], some (err (wrap e)))
