-- ===== src/Tests/Samples.antt =====
-- Concrete devices, bus ids and streams.
use usbip_go.Prelude.{ℕ, refl, List, [], ◌∷◌, arith}
use usbip_go.Io.Errors.{sentinel, eof}
use usbip_go.Io.Conn.{Conn}
use usbip_go.Domain.Device.{Device, Interface, is_known}
use usbip_go.Wire.Fields.{is_all_printable}
use usbip_go.Wire.Layout.Codec.{IsEncodable}

-- "1-1.2".
abbrev pub bus_1_1_2 : List ℕ
bus_1_1_2 = 49 ∷ 45 ∷ 49 ∷ 46 ∷ 50 ∷ []

abbrev pub hid : Interface
hid = record { class = 3; subclass = 1; protocol = 2; alt = 5 }

-- A mouse with two declared interfaces, of which the list holds one.
abbrev pub mouse : Device
mouse = record {
  path = 47 ∷ 115 ∷ 121 ∷ 115 ∷ [];
  bus_id = bus_1_1_2;
  bus_num = 1;
  dev_num = 300;
  speed = 2;
  vendor_id = 0x046d;
  product_id = 0xc077;
  bcd_device = 0x7200;
  class = 0;
  subclass = 0;
  protocol = 0;
  config_value = 1;
  num_configs = 1;
  num_interfaces = 2;
  manufacturer = 76 ∷ [];
  product = 77 ∷ [];
  interfaces = hid ∷ [];
}

pub mouse-IsEncodable : IsEncodable mouse
unfolding is_known is_all_printable
mouse-IsEncodable = record {
  in_range = omega arith;
  path_fits = omega arith;
  path_printable = refl;
  bus_id_fits = omega arith;
  bus_id_printable = refl;
  speed_known = refl;
}

-- A connection that delivers one chunk and closes.
abbrev pub one_chunk : List ℕ → Conn
one_chunk bytes = record { chunks = bytes ∷ []; failure = sentinel eof }

-- The same bytes one at a time.
abbrev pub singles : List ℕ → List (List ℕ)
singles [] = []
singles (b ∷ bs) = (b ∷ []) ∷ singles bs
