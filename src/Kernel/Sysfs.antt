-- ===== src/Kernel/Sysfs.antt =====
-- internal/adapter/kernel/sysfs.go, modules.go and the write of bind.go: files of sysfs by path, and
-- what their errors become.
use usbip_go.Prelude.{
  ℕ, Bool, true, false, ◌||◌, Option, none, some, List, [], ◌∷◌, ◌++◌, ◌==◌, if◌then◌else◌,
}
use usbip_go.Io.Errors.{
  Error, Result, ok, err, ◌>>=◌, wrap, join, sentinel, system, bad_number, permission,
  device_already_bound, device_not_found, kernel_module_missing,
}
use usbip_go.Kernel.Text.{text_eq, has_prefix, trim_space, parse_uint}

abbrev pub sysfs_usb_devices : List ℕ
sysfs_usb_devices =
    (47 ∷ 115 ∷ 121 ∷ 115 ∷ 47 ∷ 98 ∷ 117 ∷ 115 ∷ 47 ∷ 117 ∷ 115 ∷ 98 ∷ 47 ∷ 100 ∷ 101 ∷ 118 ∷ 105
      ∷ 99 ∷ 101 ∷ 115 ∷ [])

abbrev pub sysfs_usbip_host_driver : List ℕ
sysfs_usbip_host_driver =
    (47 ∷ 115 ∷ 121 ∷ 115 ∷ 47 ∷ 98 ∷ 117 ∷ 115 ∷ 47 ∷ 117 ∷ 115 ∷ 98 ∷ 47 ∷ 100 ∷ 114 ∷ 105 ∷ 118
      ∷ 101 ∷ 114 ∷ 115 ∷ 47 ∷ 117 ∷ 115 ∷ 98 ∷ 105 ∷ 112 ∷ 45 ∷ 104 ∷ 111 ∷ 115 ∷ 116 ∷ [])

abbrev pub sysfs_vhci_hcd : List ℕ
sysfs_vhci_hcd =
    (47 ∷ 115 ∷ 121 ∷ 115 ∷ 47 ∷ 100 ∷ 101 ∷ 118 ∷ 105 ∷ 99 ∷ 101 ∷ 115 ∷ 47 ∷ 112 ∷ 108 ∷ 97 ∷ 116
      ∷ 102 ∷ 111 ∷ 114 ∷ 109 ∷ 47 ∷ 118 ∷ 104 ∷ 99 ∷ 105 ∷ 95 ∷ 104 ∷ 99 ∷ 100 ∷ 46 ∷ 48 ∷ [])

abbrev pub sysfs_module_dir : List ℕ
sysfs_module_dir = (47 ∷ 115 ∷ 121 ∷ 115 ∷ 47 ∷ 109 ∷ 111 ∷ 100 ∷ 117 ∷ 108 ∷ 101 ∷ [])

abbrev pub module_usbip_core : List ℕ
module_usbip_core = (117 ∷ 115 ∷ 98 ∷ 105 ∷ 112 ∷ 95 ∷ 99 ∷ 111 ∷ 114 ∷ 101 ∷ [])

abbrev pub module_vhci_hcd : List ℕ
module_vhci_hcd = (118 ∷ 104 ∷ 99 ∷ 105 ∷ 95 ∷ 104 ∷ 99 ∷ 100 ∷ [])

-- path.Join of two clean paths; it does not clean `.`, `..` or a doubled slash in a name.
abbrev pub path_join : List ℕ → List ℕ → List ℕ
path_join dir name = dir ++ (b'/' ∷ name)

-- What the file system answers: a number of the operating system, fs.ErrNotExist, fs.ErrPermission
-- or another error.
pub data FsError : Type 0 where
  errno : ℕ → FsError
  not_exist no_permission : FsError
  other_error : ℕ → FsError

pub data FileRead : Type 0 where
  content : List ℕ → FileRead
  failed : FsError → FileRead

-- The file system by path: whether a file opens, what reading it gives, and what Stat answers.
pub record Fs : Type 0 where
  pub open_error : List ℕ → Option FsError
  pub read_all : List ℕ → FileRead
  pub stat_error : List ℕ → Option FsError

-- `errors.Is(err, fs.ErrNotExist)`, which holds of ENOENT too.
abbrev pub is_not_exist : FsError → Bool
is_not_exist (errno n) = n == 2
is_not_exist not_exist = true
is_not_exist no_permission = false
is_not_exist (other_error n) = false

-- fsPathFromAbs.
unfoldable pub fs_path_from_abs : List ℕ → List ℕ
fs_path_from_abs [] = []
fs_path_from_abs (b ∷ p) = if b == b'/' then p else b ∷ p

pub data PathKind : Type 0 where
  kind_device kind_driver kind_controller kind_module kind_other : PathKind

abbrev pub is_under : List ℕ → List ℕ → Bool
is_under root p = has_prefix p (root ++ (b'/' ∷ [])) || text_eq p root

-- classifyPath.
unfoldable pub classify_path : List ℕ → PathKind
classify_path p =
    if is_under sysfs_usb_devices p
    then kind_device
    else if is_under sysfs_usbip_host_driver p
    then kind_driver
    else if is_under sysfs_vhci_hcd p
    then kind_controller
    else if is_under sysfs_module_dir p
    then kind_module
    else kind_other

-- classifyENOENT.
unfoldable pub classify_enoent : PathKind → ℕ → Error
classify_enoent kind_device n = wrap (sentinel device_not_found)
classify_enoent kind_driver n = wrap (sentinel kernel_module_missing)
classify_enoent kind_controller n = wrap (sentinel kernel_module_missing)
classify_enoent kind_module n = wrap (sentinel kernel_module_missing)
classify_enoent kind_other n = wrap (sentinel (system n))

-- classifyErrnoKind, with EACCES 13, EPERM 1, EBUSY 16, ENODEV 19 and ENOENT 2.
unfoldable pub classify_errno_kind : PathKind → ℕ → Error
classify_errno_kind kind n =
    if n == 13 || n == 1
    then join (sentinel permission) (sentinel (system n))
    else if n == 16
    then join (sentinel device_already_bound) (sentinel (system n))
    else if n == 19
    then join (sentinel device_not_found) (sentinel (system n))
    else if n == 2
    then classify_enoent kind n
    else wrap (sentinel (system n))

-- classifyErrAny.
unfoldable pub classify_err_any : List ℕ → FsError → Error
classify_err_any path (errno n) = classify_errno_kind (classify_path path) n
classify_err_any path not_exist = classify_errno_kind (classify_path path) 2
classify_err_any path no_permission = classify_errno_kind (classify_path path) 13
classify_err_any path (other_error n) = sentinel (system n)

-- classifyFSErr.
unfoldable pub classify_fs_err : List ℕ → FsError → Error
classify_fs_err path e = wrap (classify_err_any path e)

-- readFileBytes.
unfoldable pub read_file_bytes : Fs → List ℕ → Result (List ℕ)
read_file_bytes fs path = elim (fs.open_error (fs_path_from_abs path)) [
  | some e ↦ err (classify_fs_err path e)
  | none ↦ elim (fs.read_all (fs_path_from_abs path)) [
    | content data_read ↦ ok data_read
    | failed e ↦ err (classify_fs_err path e)
  ]
]

-- ReadLine.
unfoldable pub read_line : Fs → List ℕ → Result (List ℕ)
read_line fs path = read_file_bytes fs path >>= λ data_read. ok (trim_space data_read)

abbrev pub parsed_or_error : Option ℕ → Result ℕ
parsed_or_error none = err (wrap (sentinel bad_number))
parsed_or_error (some v) = ok v

-- ReadUint.
unfoldable pub read_uint : Fs → List ℕ → Result ℕ
read_uint fs path = read_line fs path >>= λ line. parsed_or_error (parse_uint 10 32 line)

-- checkModules.
unfoldable pub check_modules : Fs → List (List ℕ) → Result (Unit {0})
check_modules fs [] = ok tt
check_modules fs (name ∷ names) =
    let path = path_join sysfs_module_dir name in
    let rest = check_modules fs names in
    elim (fs.stat_error (fs_path_from_abs path)) [
      | none ↦ rest
      | some e ↦
          if is_not_exist e
          then err (wrap (sentinel kernel_module_missing))
          else err (classify_fs_err path e)
    ]

-- ImporterAdapter.ModulesAvailable.
unfoldable pub modules_available : Fs → Result (Unit {0})
modules_available fs = check_modules fs (module_usbip_core ∷ module_vhci_hcd ∷ [])

pub record Write : Type 0 where
  pub target : List ℕ
  pub text : List ℕ

-- What an operation wrote, in order, and what it returns.
pub record Outcome {ℓ} (A : Type ℓ) : Type ℓ where
  pub writes : List Write
  pub result : Result A

abbrev pub silent {ℓ} : {A : Type ℓ} → Result A → Outcome A
silent r = record { writes = []; result = r }

abbrev pub write_result : List ℕ → Option FsError → Result (Unit {0})
write_result target none = ok tt
write_result target (some e) = err (classify_fs_err target e)

-- writeClassified, where the kernel's answer is an argument.
unfoldable pub write_classified : (Write → Option FsError) → List ℕ → List ℕ → Outcome (Unit {0})
write_classified answer target text =
    let w : Write = record { target = target; text = text } in
    record { writes = w ∷ []; result = write_result target (answer w) }
