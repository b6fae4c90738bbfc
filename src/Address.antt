-- ===== src/Address.antt =====
-- libsponge/util/address.hh and address.cc: an IPv4 address with a port, by their numbers. The
-- names and the `sockaddr` that the class converts from and to are left to the C library.
use sponge.Prelude.{ℕ, Bool, ◌&&◌, ◌==◌}

pub record Address : Type 0 where
  pub ipv4_numeric : ℕ
  pub port : ℕ

-- The constructor from a dotted quad, here its number, and a port.
abbrev pub of_ip_port : ℕ → ℕ → Address
of_ip_port ip port = record { ipv4_numeric = ip; port = port }

abbrev pub from_ipv4_numeric : ℕ → Address
from_ipv4_numeric ip_address = of_ip_port ip_address 0

-- `operator==`, on the numbers that the bytes of the two addresses stand for.
abbrev pub is_equal : Address → Address → Bool
is_equal a other = a.ipv4_numeric == other.ipv4_numeric && a.port == other.port
