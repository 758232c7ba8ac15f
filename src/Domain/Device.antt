-- ===== src/Domain/Device.antt =====
-- pkg/domain/device.go, speed.go, status.go, deviceid.go and constants.go. A Go string is the list
-- of its bytes, an integer type a native number below its bound.
use usbip_go.Prelude.{ℕ, ◌/◌, ◌%◌, Bool, ◌||◌, List, ◌==◌, ◌^◌}
use usbip_go.Bytes.{IsByte, IsU16, IsU32}

abbrev pub protocol_version : ℕ
protocol_version = 0x0111

abbrev pub bus_id_size : ℕ
bus_id_size = 32

abbrev pub sys_path_size : ℕ
sys_path_size = 256

pub record Interface : Type 0 where
  pub class : ℕ
  pub subclass : ℕ
  pub protocol : ℕ
  pub alt : ℕ

pub record Device : Type 0 where
  pub path : List ℕ
  pub bus_id : List ℕ
  pub bus_num : ℕ
  pub dev_num : ℕ
  pub speed : ℕ
  pub vendor_id : ℕ
  pub product_id : ℕ
  pub bcd_device : ℕ
  pub class : ℕ
  pub subclass : ℕ
  pub protocol : ℕ
  pub config_value : ℕ
  pub num_configs : ℕ
  pub num_interfaces : ℕ
  pub manufacturer : List ℕ
  pub product : List ℕ
  pub interfaces : List Interface

-- The bounds that Go's field types give.
pub record InRange (d : Device) : Type 0 where
  pub bus_num_u16 : IsU16 d.bus_num
  pub dev_num_u16 : IsU16 d.dev_num
  pub speed_u32 : IsU32 d.speed
  pub vendor_id_u16 : IsU16 d.vendor_id
  pub product_id_u16 : IsU16 d.product_id
  pub bcd_device_u16 : IsU16 d.bcd_device
  pub class_u8 : IsByte d.class
  pub subclass_u8 : IsByte d.subclass
  pub protocol_u8 : IsByte d.protocol
  pub config_value_u8 : IsByte d.config_value
  pub num_configs_u8 : IsByte d.num_configs
  pub num_interfaces_u8 : IsByte d.num_interfaces

abbrev pub speed_unknown : ℕ
speed_unknown = 0

abbrev pub speed_low : ℕ
speed_low = 1

abbrev pub speed_full : ℕ
speed_full = 2

abbrev pub speed_high : ℕ
speed_high = 3

abbrev pub speed_wireless : ℕ
speed_wireless = 4

abbrev pub speed_super : ℕ
speed_super = 5

abbrev pub speed_super_plus : ℕ
speed_super_plus = 6

-- Speed.IsKnown.
unfoldable pub is_known : ℕ → Bool
is_known s =
    s == speed_unknown
    || (s == speed_low
        || (s == speed_full
            || (s == speed_high
                || (s == speed_wireless || (s == speed_super || s == speed_super_plus)))))

-- DeviceID.BusNum and DeviceID.DevNum; `>> 16` and `& 0xFFFF`.
unfoldable pub bus_num : ℕ → ℕ
bus_num d = d / 2 ^ 16 % 2 ^ 16

unfoldable pub dev_num : ℕ → ℕ
dev_num d = d % 2 ^ 16
