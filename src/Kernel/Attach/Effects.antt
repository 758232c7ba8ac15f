-- ===== src/Kernel/Attach/Effects.antt =====
-- What attaching and detaching write, and when.
use usbip_go.Prelude.{
  ◌<◌, ◌*◌, ◌%◌, ◌^◌, ℕ, ◌≡◌, refl, ap, ◌∙◌, inl, inr, ◌⊎◌, Bool, true, false, not, ◌||◌, Option,
  none, List, [], ◌∷◌, ◌==◌, if◌then◌else◌, Any, Bool-cases, Option-cases, subst, ==→eq, if_rule,
}
use usbip_go.Io.Errors.{
  Error, Result, ok, err, ◌>>=◌, errors_is, system, join, sentinel, device_not_bound,
}
use usbip_go.Kernel.Text.{format_uint}
use usbip_go.Kernel.Sysfs.{
  FsError, classify_fs_err, write_result, Write, Outcome, silent, write_classified,
  modules_available,
}
use usbip_go.Kernel.Topology.{StatusTopology, discover_status_topology}
use usbip_go.Kernel.Ports.{
  ParsedPort, read_status_rows_with_topology, find_free_port_with_topology, hub_type_for_speed,
  is_free_status,
}
use usbip_go.Kernel.Attach.{
  Env, RemoteDeviceSpec, validate_port_in_range, format_attach_payload, ◌then_do◌,
  attach_at_port_with_topology, reserve, attach_remote, status_for_port, detach_port, detach_attr,
  attach_attr, map_result, detach_result,
}
use usbip_go.Kernel.Attach.Choice.{
  find_free_port-found, IsHubFor, hub_type_for_speed-IsHubFor, IsTaken, is_free_status-IsTaken,
  IsLowest, lowest_free_port-IsLowest, validate_port_in_range-below,
}

module _ {ℓ κ} {A : Type ℓ} {B : Type κ} where
  -- A property of an operation that begins with a check: it holds of an error without a write, and
  -- of what follows a check that is passed.
  then_do_rule :
      (P : Outcome B → Type 0) (r : Result A) (k : A → Outcome B)
      → ((e : Error) → P (silent (err e)))
      → ((a : A) → r ≡ ok a → P (k a))
      → P (r then_do k)
  then_do_rule P (err e) k quiet go = quiet e
  then_do_rule P (ok a) k quiet go = go a refl

-- No write, and an error.
abbrev pub IsQuiet : {A : Type 0} → Outcome A → Type 0
IsQuiet o = (o.writes ≡ []) × ((e : Error) × (o.result ≡ err e))

IsQuiet-silent : {A : Type 0} (e : Error) → IsQuiet {A = A} (silent (err e))
IsQuiet-silent e = (refl, (e, refl))

abbrev pub detach_write : ℕ → Write
detach_write id = record { target = detach_attr; text = format_uint id }

-- What became of a write: an error, or success with a value that the kernel accepted it for.
abbrev pub IsAnswered : {A : Type 0} → Env → Write → A → Outcome A → Type 0
IsAnswered env w a o =
    ((env.answer w ≡ none) × (o.result ≡ ok a)) ⊎ ((e : Error) × (o.result ≡ err e))

-- One write of the port to the detach attribute, of a port whose row was read as neither null nor
-- available.
pub record IsDetach (env : Env) (id : ℕ) (o : Outcome (Unit {0})) : Type 0 where
  pub topo : StatusTopology
  pub rows : List ParsedPort
  pub discovered : discover_status_topology env.fuel env.fs ≡ ok topo
  pub in_range : id < topo.n_controllers * topo.vhci_ports % 2 ^ 32
  pub read : read_status_rows_with_topology env.fs topo ≡ ok rows
  pub occupied : Any (λ r. (r.port ≡ id) × IsTaken r) rows
  pub written : o.writes ≡ detach_write id ∷ []
  pub answered : IsAnswered env (detach_write id) tt o

status_for_port-Any :
    (rows : List ParsedPort) (id : ℕ)
    → (not (status_for_port rows id).1 || is_free_status (status_for_port rows id).0) ≡ false
    → Any (λ r. (r.port ≡ id) × IsTaken r) rows
unfolding status_for_port
status_for_port-Any [] id h = cc
status_for_port-Any (r ∷ rows) id h =
    let answer = λ (b : Bool). if b then (r.status, true) else status_for_port rows id in
    let P = λ (b : Bool). (not (answer b).1 || is_free_status (answer b).0) ≡ false in
    elim (Bool-cases (r.port == id)) [
      | inl e ↦ inl (==→eq r.port id e, is_free_status-IsTaken r (subst P e h))
      | inr e ↦ inr (status_for_port-Any rows id (subst P e h))
    ]

detach_failed : (x : Error) → (e : Error) × (detach_result (err x) ≡ err e)
unfolding detach_result
detach_failed x = elim (Bool-cases (errors_is x (system 22))) [
  | inl q ↦ (join (sentinel device_not_bound) x, rw q refl)
  | inr q ↦ (x, rw q refl)
]

detach_done : detach_result (ok tt) ≡ ok tt
unfolding detach_result
detach_done = refl

detach-IsAnswered :
    (env : Env) (id : ℕ)
    → IsAnswered env
        (detach_write id)
        tt
        (map_result detach_result (write_classified env.answer detach_attr (format_uint id)))
unfolding write_classified
detach-IsAnswered env id =
    let answer = env.answer (detach_write id) in
    elim (Option-cases answer) [
      | inl q ↦ inl (q, ap (λ o. detach_result (write_result detach_attr o)) q ∙ detach_done)
      | inr (e, q) ↦
          let (x, failed) = detach_failed (classify_fs_err detach_attr e) in
          inr (x, ap (λ o. detach_result (write_result detach_attr o)) q ∙ failed)
    ]

-- DetachPort writes nothing and fails, or it writes once, the port's number to the detach attribute,
-- and then the number is below the controllers times the ports of each, taken in 32 bits, and a row
-- that it read of this port is neither null nor available.
pub detach_port-effect :
    (env : Env) (id : ℕ) → IsQuiet (detach_port env id) ⊎ IsDetach env id (detach_port env id)
unfolding detach_port write_classified
detach_port-effect env id =
    let P = λ (o : Outcome (Unit {0})). IsQuiet o ⊎ IsDetach env id o in
    then_do_rule P (modules_available env.fs) _ (λ e. inl (IsQuiet-silent e))
      (λ a loaded.
        then_do_rule P (discover_status_topology env.fuel env.fs) _ (λ e. inl (IsQuiet-silent e))
          (λ topo d.
            then_do_rule P (validate_port_in_range topo id) _ (λ e. inl (IsQuiet-silent e))
              (λ v valid.
                then_do_rule P (read_status_rows_with_topology env.fs topo) _
                  (λ e. inl (IsQuiet-silent e))
                  (λ rows q.
                    if_rule P
                      (not (status_for_port rows id).1
                        || is_free_status (status_for_port rows id).0)
                      _ _ (λ free. inl (IsQuiet-silent _))
                      (λ taken. inr (record {
                        topo = topo;
                        rows = rows;
                        discovered = d;
                        in_range = validate_port_in_range-below topo id valid;
                        read = q;
                        occupied = status_for_port-Any rows id taken;
                        written = refl;
                        answered = detach-IsAnswered env id;
                      }))))))

abbrev pub attach_write : ℕ → ℕ → RemoteDeviceSpec → Write
attach_write p n spec = record {
  target = attach_attr;
  text = format_attach_payload p n spec.dev_id spec.speed;
}

-- One write to the attach attribute, for the lowest free port of the hub that the speed needs.
pub record IsAttach (env : Env) (fd : Result ℕ) (spec : RemoteDeviceSpec) (o : Outcome ℕ)
    : Type 0 where
  pub port : ℕ
  pub descriptor : ℕ
  pub topo : StatusTopology
  pub rows : List ParsedPort
  pub discovered : discover_status_topology env.fuel env.fs ≡ ok topo
  pub read : read_status_rows_with_topology env.fs topo ≡ ok rows
  pub hub : List ℕ
  pub needed : IsHubFor spec.speed hub
  pub chosen : IsLowest rows hub port
  pub reserved : reserve spec.reserve_local_port port ≡ ok tt
  pub duplicated : fd ≡ ok descriptor
  pub written : o.writes ≡ attach_write port descriptor spec ∷ []
  pub answered : IsAnswered env (attach_write port descriptor spec) port o

attach-IsAnswered :
    (env : Env) (p n : ℕ) (spec : RemoteDeviceSpec)
    → IsAnswered env (attach_write p n spec) p (
        map_result
          (λ r. r >>= λ done. ok p)
          (write_classified env.answer attach_attr
            (format_attach_payload p n spec.dev_id spec.speed)))
unfolding write_classified
attach-IsAnswered env p n spec =
    let then_port = λ (o : Option FsError). write_result attach_attr o >>= λ done. ok p in
    elim (Option-cases (env.answer (attach_write p n spec))) [
      | inl q ↦ inl (q, ap then_port q)
      | inr (e, q) ↦ inr (classify_fs_err attach_attr e, ap then_port q)
    ]

-- AttachRemote writes nothing and fails, or it writes once, to the attach attribute, for the lowest
-- free port among the rows it read of the hub that the device's speed needs, that of super speed for
-- the two super speeds and that of high speed for others, which the reservation took; and it returns
-- that port only if the kernel accepted the write.
pub attach_remote-effect :
    (env : Env) (fd : Result ℕ) (spec : RemoteDeviceSpec)
    → IsQuiet (attach_remote env fd spec) ⊎ IsAttach env fd spec (attach_remote env fd spec)
unfolding attach_remote attach_at_port_with_topology write_classified
attach_remote-effect env fd spec =
    let P = λ (o : Outcome ℕ). IsQuiet o ⊎ IsAttach env fd spec o in
    then_do_rule P (modules_available env.fs) _ (λ e. inl (IsQuiet-silent e))
      (λ a loaded.
        then_do_rule P (discover_status_topology env.fuel env.fs) _ (λ e. inl (IsQuiet-silent e))
          (λ topo d.
            then_do_rule P (find_free_port_with_topology env.fs topo spec.speed) _
              (λ e. inl (IsQuiet-silent e))
              (λ p found.
                then_do_rule P (reserve spec.reserve_local_port p) _ (λ e. inl (IsQuiet-silent e))
                  (λ r taken.
                    then_do_rule P (validate_port_in_range topo p) _ (λ e. inl (IsQuiet-silent e))
                      (λ v valid.
                        then_do_rule P fd _ (λ e. inl (IsQuiet-silent e))
                          (λ n dup.
                            let (rows, q, best) =
                              find_free_port-found env.fs topo spec.speed found in
                            inr (record {
                              port = p;
                              descriptor = n;
                              topo = topo;
                              rows = rows;
                              discovered = d;
                              read = q;
                              hub = hub_type_for_speed spec.speed;
                              needed = hub_type_for_speed-IsHubFor spec.speed;
                              chosen = lowest_free_port-IsLowest rows _ best;
                              reserved = taken;
                              duplicated = dup;
                              written = refl;
                              answered = attach-IsAnswered env p n spec;
                            })))))))
