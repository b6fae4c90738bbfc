-- ===== src/FdAdapter/Lossy/Thinning.antt =====
-- What the random loss does to the segments that are read, libsponge/tcp_helpers/lossy_fd_adapter.hh.
use sponge.Prelude.{
  ℕ, zero, suc, ◌≡◌, refl, Bool, true, false, Option-cases, inl, inr, List, [], ◌∷◌, Option, none,
  some, if◌then◌else◌,
}
use sponge.TcpSegment.{TcpSegment}
use sponge.FdAdapter.{Adapter}
use sponge.FdAdapter.Lossy.{LossyFdAdapter, drop_at, should_drop, read, lossy}

-- A segment that was read, in front of those that follow.
abbrev pub put : Option TcpSegment → List TcpSegment → List TcpSegment
put none segs = segs
put (some seg) segs = seg ∷ segs

-- The segments that `n` calls of `read` return, and the adapter after them.
module _ {A : Type 0} (ad : Adapter A) where
  unfoldable pub reads : ℕ → A → Option (A × List TcpSegment)
  reads zero a = some (a, [])
  reads (suc n) a = elim (ad.read a) [
    | none ↦ none
    | some (a', got) ↦ elim (reads n a') [
      | none ↦ none
      | some (a'', segs) ↦ some (a'', put got segs)
    ]
  ]

-- The first list is the second without some of its segments.
pub data Thinned : List TcpSegment → List TcpSegment → Type 0 where
  done : Thinned [] []
  kept :
      (seg : TcpSegment) (xs ys : List TcpSegment) → Thinned xs ys → Thinned (seg ∷ xs) (seg ∷ ys)
  lost : (seg : TcpSegment) (xs ys : List TcpSegment) → Thinned xs ys → Thinned xs (seg ∷ ys)

Thinned-put :
    (dropped : Bool) (got : Option TcpSegment) {xs ys : List TcpSegment}
    → Thinned xs ys
    → Thinned (put (if dropped then none else got) xs) (put got ys)
Thinned-put true none t = t
Thinned-put true (some seg) {xs} {ys} t = lost seg xs ys t
Thinned-put false none t = t
Thinned-put false (some seg) {xs} {ys} t = kept seg xs ys t

module _ {R A : Type 0} (next : R → ℕ × R) (ad : Adapter A) where
  -- What the adapter below returns and what is passed on, for as many reads.
  pub data Lossless
      : Option (LossyFdAdapter R A × List TcpSegment) → Option (A × List TcpSegment) → Type 0 where
    thrown : Lossless none none
    returned :
        (l : LossyFdAdapter R A) (xs ys : List TcpSegment)
        → Thinned xs ys
        → Lossless (some (l, xs)) (some (l.adapter, ys))

  read_none : (l : LossyFdAdapter R A) → ad.read l.adapter ≡ none → read next ad l ≡ none
  unfolding read
  read_none l e = rw (e, read) refl

  read_some :
      (l : LossyFdAdapter R A) (a : A) (got : Option TcpSegment)
      → ad.read l.adapter ≡ some (a, got)
      → (rand : R) × (dropped : Bool) × (read next ad l
          ≡ some (record { rand = rand; adapter = a }, if dropped then none else got))
  unfolding read should_drop
  read_some l a got e =
      let drop = drop_at next ad l.rand (ad.config_of a).loss_rate_dn in
      (drop.0, drop.1, rw (e, read) refl)

  -- One more read in front of the others.
  Lossless-put :
      (dropped : Bool) (got : Option TcpSegment) {o : Option (LossyFdAdapter R A × List TcpSegment)}
      {p : Option (A × List TcpSegment)}
      → Lossless o p
      → Lossless
          (elim o [
            | none ↦ none
            | some (l, segs) ↦ some (l, put (if dropped then none else got) segs)
          ])
          (elim p [ none ↦ none | some (a, segs) ↦ some (a, put got segs) ])
  Lossless-put dropped got thrown = thrown
  Lossless-put dropped got (returned l xs ys t) =
      returned l (put (if dropped then none else got) xs) (put got ys) (Thinned-put dropped got t)

  -- For every generator, adapter and number of reads: the lossy adapter throws exactly if the
  -- adapter below throws; otherwise it returns the segments that the adapter below returns
  -- without some of them, in order and with none added, and leaves that adapter in the same
  -- state.
  pub reads-Thinned :
      (n : ℕ) (l : LossyFdAdapter R A) → Lossless (reads (lossy next ad) n l) (reads ad n l.adapter)
  unfolding reads
  reads-Thinned zero l = returned l [] [] done
  reads-Thinned (suc n) l = elim (Option-cases (ad.read l.adapter)) [
    | inl e ↦ rw (read_none l e, e, reads) thrown
    | inr ((a, got), e) ↦
        let (rand, dropped, r) = read_some l a got e in
        rw (r, e, reads)
          (Lossless-put dropped got (reads-Thinned n (record { rand = rand; adapter = a })))
  ]

-- With a loss rate of 0 nothing is lost, and the generator is left alone.
module _ {R A : Type 0} (next : R → ℕ × R) (ad : Adapter A) (l : LossyFdAdapter R A) where
  lossless_read :
      (a : A) (got : Option TcpSegment)
      → ad.read l.adapter ≡ some (a, got)
      → (ad.config_of a).loss_rate_dn ≡ 0
      → read next ad l ≡ some (record l { adapter = a }, got)
  unfolding read should_drop drop_at
  lossless_read a got e z = rw (e, read) (rw z refl)
