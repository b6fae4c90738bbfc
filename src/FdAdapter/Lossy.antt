-- ===== src/FdAdapter/Lossy.antt =====
-- libsponge/tcp_helpers/lossy_fd_adapter.hh: an adapter that drops segments at random. The generator
-- is a parameter, with its state.
pub mod Thinning
mod Tests
use sponge.Prelude.{
  ℕ, Bool, true, false, not, ◌&&◌, Option, none, some, ltb, ◌==◌, if◌then◌else◌, u16,
}
use sponge.TcpSegment.{TcpSegment}
use sponge.FdAdapter.{FdAdapterConfig, Adapter}

pub record LossyFdAdapter (R A : Type 0) : Type 0 where
  pub rand : R
  pub adapter : A

module _ {R A : Type 0} (next : R → ℕ × R) (ad : Adapter A) where
  -- `_should_drop` of a rate; the generator is asked only at a rate other than 0.
  unfoldable pub drop_at : R → ℕ → R × Bool
  drop_at rand loss =
      if loss == 0 then (rand, false) else let (x, rand') = next rand in (rand', ltb (u16 x) loss)

  -- `_should_drop`
  unfoldable pub should_drop : LossyFdAdapter R A → Bool → LossyFdAdapter R A × Bool
  should_drop l uplink =
      let cfg = ad.config_of l.adapter in
      let (rand, dropped) =
        drop_at l.rand (if uplink then cfg.loss_rate_up else cfg.loss_rate_dn) in
      (record l { rand = rand }, dropped)

  unfoldable pub read : LossyFdAdapter R A → Option (LossyFdAdapter R A × Option TcpSegment)
  read l = elim (ad.read l.adapter) [
    | none ↦ none
    | some (adapter, ret) ↦
        let (l', dropped) = should_drop (record l { adapter = adapter }) false in
        some (l', if dropped then none else ret)
  ]

  unfoldable pub write : LossyFdAdapter R A → TcpSegment → Option (LossyFdAdapter R A)
  write l seg =
      let (l', dropped) = should_drop l true in
      if dropped then some l' else elim (ad.write l'.adapter seg) [
        | none ↦ none
        | some adapter ↦ some (record l' { adapter = adapter })
      ]

  -- The passthrough functions.
  unfoldable pub tick : LossyFdAdapter R A → ℕ → Option (LossyFdAdapter R A)
  tick l ms = elim (ad.tick_ms l.adapter ms) [
    | none ↦ none
    | some adapter ↦ some (record l { adapter = adapter })
  ]

  abbrev pub lossy : Adapter (LossyFdAdapter R A)
  lossy = record {
    config_of = λ l. ad.config_of l.adapter;
    set_config = λ l cfg. record l { adapter = ad.set_config l.adapter cfg };
    set_listen = λ l on. record l { adapter = ad.set_listen l.adapter on };
    read = read;
    write = write;
    tick_ms = tick;
  }
