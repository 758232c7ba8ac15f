-- ===== src/Kernel/Netdevs/Flags.antt =====
-- Taking down network devices writes to nothing but the files of their flags.
use usbip_go.Prelude.{ℕ, ◌%◌, ◌≡◌, refl, List, [], ◌∷◌, ◌==◌}
use usbip_go.Io.Errors.{Result, ok, err}
use usbip_go.Kernel.Sysfs.{Write}
use usbip_go.Kernel.Actions.{give}
use usbip_go.Kernel.Actions.Writes.{
  Writes, Writes-IsReading, IsReading, IsReading-attempt, IsReading-give, IsReading-look,
  Writes-attempt, Writes-give, Writes-write, Writes-if, Writes-look,
}
use usbip_go.Kernel.Netdevs.{
  flags_path, cleared_flags, add_netdevs_from, bus_id_interface_dirs, add_from_all,
  collect_netdev_names, clear_up, deactivate_all, deactivate_netdevs, names_or_none, in_map_order,
}

-- The write that clears IFF_UP of a network device with the given flags.
abbrev pub IsFlagWrite : Write → Type 0
IsFlagWrite w =
    (name : List ℕ) × ((current : ℕ) × ((w.target ≡ flags_path name)
        × (w.text ≡ cleared_flags current)))

IsReading-add_netdevs_from :
    (seen : List (List ℕ)) (root : List ℕ) → IsReading (add_netdevs_from seen root)
unfolding add_netdevs_from
IsReading-add_netdevs_from seen root =
    IsReading-attempt _ _ (IsReading-look _) (λ names. IsReading-give _)

IsReading-bus_id_interface_dirs : (bus_id : List ℕ) → IsReading (bus_id_interface_dirs bus_id)
unfolding bus_id_interface_dirs
IsReading-bus_id_interface_dirs bus_id =
    IsReading-attempt _ _ (IsReading-look _) (λ names. IsReading-give _)

IsReading-add_from_all : (seen dirs : List (List ℕ)) → IsReading (add_from_all seen dirs)
unfolding add_from_all
IsReading-add_from_all seen [] = IsReading-give _
IsReading-add_from_all seen (dir ∷ dirs) =
    IsReading-attempt _ _ (IsReading-add_netdevs_from seen _)
      (λ more. IsReading-add_from_all (names_or_none more) dirs)

IsReading-in_map_order : (seen : List (List ℕ)) → IsReading (in_map_order seen)
unfolding give
IsReading-in_map_order seen = record { same = λ w log. refl; awake = λ w log. refl }

pub IsReading-collect_netdev_names : (bus_id : List ℕ) → IsReading (collect_netdev_names bus_id)
unfolding collect_netdev_names
IsReading-collect_netdev_names bus_id =
    IsReading-attempt _ _ (IsReading-add_netdevs_from [] _) (λ seen.
      IsReading-attempt _ _ (IsReading-bus_id_interface_dirs bus_id) (λ dirs.
        IsReading-attempt _ _ (IsReading-add_from_all _ _) (λ all. IsReading-in_map_order _)))

Writes-clear_up : (name : List ℕ) (flags : Result ℕ) → Writes IsFlagWrite (clear_up name flags)
Writes-clear_up name (err e) = Writes-give (ok tt)
Writes-clear_up name (ok current) =
    Writes-if (current % 2 == 0) _ _ (Writes-give (ok tt))
      (Writes-write IsFlagWrite _ _ (name, (current, (refl, refl))))

Writes-deactivate_all : (names : List (List ℕ)) → Writes IsFlagWrite (deactivate_all names)
unfolding deactivate_all
Writes-deactivate_all [] = Writes-give (ok tt)
Writes-deactivate_all (name ∷ names) =
    Writes-attempt _ _ (Writes-attempt _ _ (Writes-look _) (Writes-clear_up name))
      (λ r. Writes-deactivate_all names)

pub Writes-deactivate_netdevs : (bus_id : List ℕ) → Writes IsFlagWrite (deactivate_netdevs bus_id)
unfolding deactivate_netdevs
Writes-deactivate_netdevs bus_id =
    Writes-attempt _ _ (Writes-IsReading _ (IsReading-collect_netdev_names bus_id))
      (λ names. Writes-deactivate_all (names_or_none names))
