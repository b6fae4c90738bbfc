-- ===== src/FdAdapter.antt =====
-- libsponge/tcp_helpers/fd_adapter.hh and the adapter's configuration of
-- libsponge/tcp_helpers/tcp_config.hh: what every adapter keeps, and the operations by which
-- `LossyFdAdapter` and `TCPSpongeSocket` use their adapter.
pub mod Lossy
pub mod OverUdp
use sponge.Prelude.{ℕ, Bool, false, Option}
use sponge.TcpSegment.{TcpSegment}
use sponge.Address.{Address, from_ipv4_numeric}

pub record FdAdapterConfig : Type 0 where
  pub source : Address
  pub destination : Address
  pub loss_rate_dn : ℕ
  pub loss_rate_up : ℕ

-- `FdAdapterConfig{}`
abbrev pub default_config : FdAdapterConfig
default_config = record {
  source = from_ipv4_numeric 0;
  destination = from_ipv4_numeric 0;
  loss_rate_dn = 0;
  loss_rate_up = 0;
}

pub record FdAdapterBase : Type 0 where
  pub config : FdAdapterConfig
  pub listen : Bool

-- `FdAdapterBase{}`
abbrev pub new : FdAdapterBase
new = record { config = default_config; listen = false }

abbrev pub set_listening : FdAdapterBase → Bool → FdAdapterBase
set_listening a l = record a { listen = l }

abbrev pub listening : FdAdapterBase → Bool
listening a = a.listen

-- Nothing happens as time passes.
abbrev pub tick : FdAdapterBase → ℕ → FdAdapterBase
tick a ms = a

-- An adapter over a state that holds its device as well; `none` is an exception.
pub record Adapter (A : Type 0) : Type 0 where
  pub config_of : A → FdAdapterConfig
  pub set_config : A → FdAdapterConfig → A
  pub set_listen : A → Bool → A
  pub read : A → Option (A × Option TcpSegment)
  pub write : A → TcpSegment → Option A
  pub tick_ms : A → ℕ → Option A
