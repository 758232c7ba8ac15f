-- ===== src/App/Accepting/Admission.antt =====
-- Which connections get a handler.
use usbip_go.Prelude.{
  ℕ, ◌≡◌, refl, ap, ◌∙◌, Bool, true, false, not, Option, some, List, [], ◌∷◌, if◌then◌else◌,
  if_rule,
}
use usbip_go.Io.Errors.{Result, ok, err, wrap}
use usbip_go.App.Accepting.{
  allow, Accepted, connection, failed, Dispatch, closes, handles, accept_should_stop, dispatch_by,
  dispatch, add_dispatch, accept_loop,
}

abbrev pub handled : List Dispatch → List ℕ
handled [] = []
handled (closes conn ∷ ds) = handled ds
handled (handles conn ∷ ds) = conn ∷ handled ds

abbrev pub seen : List Dispatch → List ℕ
seen [] = []
seen (closes conn ∷ ds) = conn ∷ seen ds
seen (handles conn ∷ ds) = conn ∷ seen ds

module _ {Net Ip Limiter : Type 0} (contains : Net → Ip → Bool)
    (take_token : Limiter → Limiter × Bool) (nets : List Net) where
  -- The connections before the first error.
  abbrev pub connections : List (Accepted Ip) → List ℕ
  connections [] = []
  connections (connection conn ip ∷ more) = conn ∷ connections more
  connections (failed e is_done is_closed ∷ more) = []

  -- Those among them whose peers the list allows.
  abbrev pub allowed : List (Accepted Ip) → List ℕ
  allowed [] = []
  allowed (connection conn ip ∷ more) =
      let rest = allowed more in if allow contains nets ip then conn ∷ rest else rest
  allowed (failed e is_done is_closed ∷ more) = []

  abbrev pub admit_by : (Limiter → List ℕ) → ℕ → Limiter × Bool → List ℕ
  admit_by rest conn (l, true) = conn ∷ rest l
  admit_by rest conn (l, false) = rest l

  -- Those for which the limiter has a token, when it is asked for these and no others.
  abbrev pub admitted : List ℕ → Limiter → List ℕ
  admitted [] l = []
  admitted (conn ∷ conns) l = admit_by (admitted conns) conn (take_token l)

  add_dispatch-handled :
      (rest : Limiter → List Dispatch × Option (Result (Unit {0}))) (conn : ℕ) (x : Limiter × Bool)
      → handled
          (add_dispatch contains take_token nets rest
            (dispatch_by contains take_token nets conn x)).0
        ≡ admit_by (λ l. handled (rest l).0) conn x
  add_dispatch-handled rest conn (l, true) = refl
  add_dispatch-handled rest conn (l, false) = refl

  admit_by-same :
      (f g : Limiter → List ℕ) (conn : ℕ) (x : Limiter × Bool)
      → ((l : Limiter) → f l ≡ g l)
      → admit_by f conn x ≡ admit_by g conn x
  admit_by-same f g conn (l, true) h = ap (λ cs. conn ∷ cs) (h l)
  admit_by-same f g conn (l, false) h = h l

  by_access :
      (b : Bool) (conn : ℕ) (conns : List ℕ) (l : Limiter)
      (rest : Limiter → List Dispatch × Option (Result (Unit {0})))
      → ((l' : Limiter) → handled (rest l').0 ≡ admitted conns l')
      → handled
          (add_dispatch contains take_token nets rest (
            if not b
            then (l, closes conn)
            else dispatch_by contains take_token nets conn (take_token l))).0
        ≡ admitted (if b then conn ∷ conns else conns) l
  by_access true conn conns l rest h =
      add_dispatch-handled rest conn (take_token l)
      ∙ admit_by-same (λ l'. handled (rest l').0) (admitted conns) conn (take_token l) h
  by_access false conn conns l rest h = h l

  -- Handlers are started for exactly the connections that the access list allows and for which the
  -- limiter then has a token, in the order in which they came; a connection that the list refuses
  -- takes no token; and behind an error of Accept nothing is started.
  pub accept_loop-admitted :
      (accepts : List (Accepted Ip)) (l : Limiter)
      → handled (accept_loop contains take_token nets accepts l).0 ≡ admitted (allowed accepts) l
  unfolding accept_loop dispatch
  accept_loop-admitted [] l = refl
  accept_loop-admitted (connection conn ip ∷ more) l =
      by_access (allow contains nets ip) conn (allowed more) l
        (accept_loop contains take_token nets more) (λ l'. accept_loop-admitted more l')
  accept_loop-admitted (failed e is_done is_closed ∷ more) l =
      if_rule {X = List Dispatch × Option (Result (Unit {0}))} (λ x. handled x.0 ≡ [])
        (accept_should_stop is_done is_closed) ([], some (ok tt)) ([], some (err (wrap e)))
        (λ q. refl) (λ q. refl)

  add_dispatch-seen :
      (rest : Limiter → List Dispatch × Option (Result (Unit {0}))) (conns : List ℕ) (conn : ℕ)
      (x : Limiter × Bool)
      → ((l : Limiter) → seen (rest l).0 ≡ conns)
      → seen
          (add_dispatch contains take_token nets rest
            (dispatch_by contains take_token nets conn x)).0
        ≡ conn ∷ conns
  add_dispatch-seen rest conns conn (l, true) h = ap (λ cs. conn ∷ cs) (h l)
  add_dispatch-seen rest conns conn (l, false) h = ap (λ cs. conn ∷ cs) (h l)

  -- Every connection that Accept returns before its first error gets a handler or is closed, never
  -- both, in the order in which they came.
  pub accept_loop-seen :
      (accepts : List (Accepted Ip)) (l : Limiter)
      → seen (accept_loop contains take_token nets accepts l).0 ≡ connections accepts
  unfolding accept_loop dispatch
  accept_loop-seen [] l = refl
  accept_loop-seen (connection conn ip ∷ more) l =
      let rest = accept_loop contains take_token nets more in
      if_rule {X = Limiter × Dispatch}
        (λ x. seen (add_dispatch contains take_token nets rest x).0 ≡ conn ∷ connections more)
        (not (allow contains nets ip)) (l, closes conn)
        (dispatch_by contains take_token nets conn (take_token l))
        (λ q. ap (λ cs. conn ∷ cs) (accept_loop-seen more l))
        (λ q.
          add_dispatch-seen rest (connections more) conn (take_token l)
            (λ l'. accept_loop-seen more l'))
  accept_loop-seen (failed e is_done is_closed ∷ more) l =
      if_rule {X = List Dispatch × Option (Result (Unit {0}))} (λ x. seen x.0 ≡ [])
        (accept_should_stop is_done is_closed) ([], some (ok tt)) ([], some (err (wrap e)))
        (λ q. refl) (λ q. refl)
