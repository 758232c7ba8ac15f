-- ===== src/Kernel/Netdevs.antt =====
-- internal/adapter/kernel/bind.go: taking down the network devices of a device in front of binding it.
pub mod Flags
pub mod Hex
use usbip_go.Prelude.{
  ℕ, zero, suc, ◌+◌, ◌-◌, ◌/◌, ◌%◌, Bool, true, false, ◌||◌, Option, none, some, List, [], ◌∷◌,
  ◌++◌, ltb, ◌==◌, if◌then◌else◌,
}
use usbip_go.Io.Errors.{Result, ok, err, ◌>>=◌}
use usbip_go.Kernel.Text.{text_eq, has_prefix, parse_uint}
use usbip_go.Kernel.Sysfs.{
  Fs, sysfs_usb_devices, path_join, fs_path_from_abs, classify_fs_err, read_line, parsed_or_error,
}
use usbip_go.Kernel.Actions.{
  Sys, DirRead, listing, no_listing, Act, give, attempt, ◌ignoring◌, look, write, World, Step,
}
use usbip_go.Kernel.Drivers.{trim_prefix, device_attr}

abbrev pub class_net : List ℕ
class_net = (47 ∷ 115 ∷ 121 ∷ 115 ∷ 47 ∷ 99 ∷ 108 ∷ 97 ∷ 115 ∷ 115 ∷ 47 ∷ 110 ∷ 101 ∷ 116 ∷ [])

-- The file of a network device's flags.
abbrev pub flags_path : List ℕ → List ℕ
flags_path name = path_join (path_join class_net name) (102 ∷ 108 ∷ 97 ∷ 103 ∷ 115 ∷ [])

-- `s < t`.
abbrev pub text_less : List ℕ → List ℕ → Bool
text_less s [] = false
text_less [] (b ∷ t) = true
text_less (a ∷ s) (b ∷ t) = let rest = text_less s t in if a == b then rest else ltb a b

abbrev pub insert_string : List ℕ → List (List ℕ) → List (List ℕ)
insert_string s [] = s ∷ []
insert_string s (t ∷ ts) =
    let rest = insert_string s ts in if text_less t s then t ∷ rest else s ∷ t ∷ ts

-- sort.Strings.
unfoldable pub sort_strings : List (List ℕ) → List (List ℕ)
sort_strings [] = []
sort_strings (s ∷ ts) = insert_string s (sort_strings ts)

abbrev pub dir_result : List ℕ → DirRead → Result (List (List ℕ))
dir_result path (listing names) = ok (sort_strings names)
dir_result path (no_listing e) = err (classify_fs_err path e)

-- ListDirEntries.
unfoldable pub list_dir_entries : Sys → List ℕ → Result (List (List ℕ))
list_dir_entries sys path = dir_result path (sys.dir (fs_path_from_abs path))

-- The keys of the map `seen`.
unfoldable pub is_seen : List ℕ → List (List ℕ) → Bool
is_seen name [] = false
is_seen name (s ∷ seen) = text_eq name s || is_seen name seen

unfoldable pub add_names : List (List ℕ) → List (List ℕ) → List (List ℕ)
add_names seen [] = seen
add_names seen (name ∷ names) = add_names (if is_seen name seen then seen else name ∷ seen) names

abbrev pub add_listed : List (List ℕ) → Result (List (List ℕ)) → List (List ℕ)
add_listed seen (ok names) = add_names seen names
add_listed seen (err e) = seen

-- addNetdevsFrom.
unfoldable pub add_netdevs_from : List (List ℕ) → List ℕ → Act (List (List ℕ))
add_netdevs_from seen net_root =
    attempt (look (λ sys. list_dir_entries sys net_root))
      (λ names. give (ok (add_listed seen names)))

abbrev pub with_prefix : List ℕ → List (List ℕ) → List (List ℕ)
with_prefix p [] = []
with_prefix p (name ∷ names) =
    let rest = with_prefix p names in if has_prefix name p then name ∷ rest else rest

abbrev pub interface_names : List ℕ → Result (List (List ℕ)) → List (List ℕ)
interface_names bus_id (ok names) = with_prefix (bus_id ++ (b':' ∷ [])) names
interface_names bus_id (err e) = []

-- busIDInterfaceDirs.
unfoldable pub bus_id_interface_dirs : List ℕ → Act (List (List ℕ))
bus_id_interface_dirs bus_id =
    attempt (look (λ sys. list_dir_entries sys sysfs_usb_devices))
      (λ names. give (ok (interface_names bus_id names)))

abbrev pub names_or_none : Result (List (List ℕ)) → List (List ℕ)
names_or_none (ok names) = names
names_or_none (err e) = []

-- The loop of collectNetdevNames over the directories of interfaces.
unfoldable pub add_from_all : List (List ℕ) → List (List ℕ) → Act (List (List ℕ))
add_from_all seen [] = give (ok seen)
add_from_all seen (dir ∷ dirs) =
    attempt (add_netdevs_from seen (device_attr dir (110 ∷ 101 ∷ 116 ∷ [])))
      (λ more. add_from_all (names_or_none more) dirs)

abbrev pub in_map_order : List (List ℕ) → Act (List (List ℕ))
in_map_order seen w log = give (ok (w.map_order log seen)) w log

-- collectNetdevNames.
unfoldable pub collect_netdev_names : List ℕ → Act (List (List ℕ))
collect_netdev_names bus_id =
    attempt (add_netdevs_from [] (device_attr bus_id (110 ∷ 101 ∷ 116 ∷ []))) (λ seen.
      attempt (bus_id_interface_dirs bus_id) (λ dirs.
        attempt (add_from_all (names_or_none seen) (names_or_none dirs))
          (λ all. in_map_order (names_or_none all))))

-- readNetdevFlagsHex.
unfoldable pub read_netdev_flags_hex : Fs → List ℕ → Result ℕ
read_netdev_flags_hex fs path = read_line fs path >>= λ line.
    parsed_or_error
      (parse_uint 16 32 (trim_prefix (trim_prefix line (48 ∷ 120 ∷ [])) (48 ∷ 88 ∷ [])))

abbrev pub hex_digit : ℕ → ℕ
hex_digit n = if ltb n 10 then b'0' + n else b'a' + (n - 10)

-- `%x`; a 32-bit number has at most eight digits.
unfoldable pub format_hex_loop : ℕ → ℕ → List ℕ → List ℕ
format_hex_loop zero n acc = acc
format_hex_loop (suc fuel) n acc =
    let acc' = hex_digit (n % 16) ∷ acc in
    let more = format_hex_loop fuel (n / 16) acc' in if ltb n 16 then acc' else more

unfoldable pub format_hex : ℕ → List ℕ
format_hex n = format_hex_loop 8 n []

-- `current &^ iffUp`, in the format of the flags file.
unfoldable pub cleared_flags : ℕ → List ℕ
cleared_flags current = b'0' ∷ b'x' ∷ format_hex (current - current % 2)

-- What the loop of deactivateNetdevs does with the flags that it read.
abbrev pub clear_up : List ℕ → Result ℕ → Act (Unit {0})
clear_up name (err e) = give (ok tt)
clear_up name (ok current) =
    if current % 2 == 0 then give (ok tt) else write (flags_path name) (cleared_flags current)

-- The loop of deactivateNetdevs.
unfoldable pub deactivate_all : List (List ℕ) → Act (Unit {0})
deactivate_all [] = give (ok tt)
deactivate_all (name ∷ names) =
    attempt (look (λ sys. read_netdev_flags_hex sys.files (flags_path name))) (clear_up name)
    ignoring deactivate_all names

-- deactivateNetdevs.
unfoldable pub deactivate_netdevs : List ℕ → Act (Unit {0})
deactivate_netdevs bus_id =
    attempt (collect_netdev_names bus_id) (λ names. deactivate_all (names_or_none names))
