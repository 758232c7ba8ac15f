-- ===== src/App/Accepting/Lifecycle.antt =====
-- Calls of Serve and of Shutdown in any order.
use usbip_go.Prelude.{
  ℕ, ◌≡◌, Bool, true, false, Option, none, some, List, [], ◌∷◌, Any, if◌then◌else◌,
}
use usbip_go.Io.Errors.{Result, ok, err}
use usbip_go.App.Accepting.{
  Server, new_server, start_serving, install_serving_listener, stop_serving, shutdown_listener,
}

-- A server with the call of Serve that is past startServing and before stopServing, the listener that
-- this call installed, the listeners that were closed, and the calls whose contexts were cancelled.
pub record World : Type 0 where
  pub server : Server
  pub active : Option ℕ
  pub installed : Option ℕ
  pub closed : List ℕ
  pub cancelled : List ℕ

abbrev pub idle : World
idle = record { server = new_server; active = none; installed = none; closed = []; cancelled = [] }

abbrev pub note : Option ℕ → List ℕ → List ℕ
note none l = l
note (some n) l = n ∷ l

abbrev pub on_start : ℕ → World → Server × Result (Unit {0}) → World
on_start serve w (e, ok u) = record w { server = e; active = some serve; installed = none }
on_start serve w (e, err x) = record w { server = e }

-- A listener that could not be installed is closed by the call of Serve.
abbrev pub on_install : ℕ → World → Server × Result (Unit {0}) → World
on_install listener w (e, ok u) = record w { server = e; installed = some listener }
on_install listener w (e, err x) = record w { server = e; closed = listener ∷ w.closed }

abbrev pub on_stop : World → Server × Option ℕ → World
on_stop w (e, c) = record w {
  server = e;
  active = none;
  installed = none;
  cancelled = note c w.cancelled;
}

abbrev pub on_shutdown : World → Server × Option ℕ × Option ℕ → World
on_shutdown w (e, l, c) = record w {
  server = e;
  closed = note l w.closed;
  cancelled = note c w.cancelled;
}

pub data Step : World → World → Type 0 where
  starts : (w : World) (serve : ℕ) → Step w (on_start serve w (start_serving serve w.server))
  installs :
      (w : World) (serve listener : ℕ)
      → w.active ≡ some serve
      → Step w (on_install listener w (install_serving_listener listener w.server))
  stops :
      (w : World) (serve : ℕ) → w.active ≡ some serve → Step w (on_stop w (stop_serving w.server))
  shuts : (w : World) → Step w (on_shutdown w (shutdown_listener w.server))

pub data IsReachable : World → Type 0 where
  start : IsReachable idle
  next : (w w' : World) → IsReachable w → Step w w' → IsReachable w'

abbrev pub Has : Option ℕ → List ℕ → Type 0
Has none l = Unit {0}
Has (some n) l = Any (λ m. m ≡ n) l

abbrev pub is_some : Option ℕ → Bool
is_some none = false
is_some (some n) = true

pub record IsSafe (w : World) : Type 0 where
  pub cancel_of : w.server.serve_cancel ≡ w.active
  pub serving_of : w.server.serving ≡ is_some w.active
  pub listener_of : w.server.shutdown ≡ false → w.server.listener ≡ w.installed
  pub cancelled_of : w.server.shutdown ≡ true → Has w.active w.cancelled
  pub closed_of : w.server.shutdown ≡ true → Has w.installed w.closed

-- Only the first shutdown does anything.
abbrev first_only : Server → Bool → Server × Option ℕ × Option ℕ
first_only e down =
    if down
    then (e, none, none)
    else (record e { shutdown = true; listener = none }, e.listener, e.serve_cancel)
