-- ===== src/EventLoop/Serving.antt =====
-- The second loop of `wait_next_event`, libsponge/util/eventloop.cc, compared with a
-- relation.
use sponge.Prelude.{
  ℕ, ◌≡◌, refl, sym, subst, Bool, true, false, ◌&&◌, ◌||◌, Bool-cases, Option-cases, inl, inr, List,
  [], ◌∷◌, Option, none, some, ◌==◌, ==_iff, if◌then◌else◌, arith, ◌∙◌,
}
use sponge.FileDescriptor.{FdWrapper}
use sponge.EventLoop.{serve, keep, first, rest}
use sponge.EventLoop.{
  Direction, input, output, Rule, Pollfd, Revents, PollReturn, Polled, is_ready, is_input,
  service_count, cancel_rule, call_rule, serve_ready, serve_rule,
}
use sponge.EventLoop.Turns.{
  uses, IsReady, HasHungUp, NoError, HasProgressed, Served, all_served, stays, leaves, Turn, called,
  cancelled, passed, is_ready-IsReady, not-IsReady,
}

module _ {W : Type 0} (fd_of : W → ℕ → FdWrapper)
    (poll : W → List Pollfd → ℕ → W × PollReturn) where
  abbrev TurnAs : W → Polled W → Revents → Option (W × Bool) → Type 0
  TurnAs w p v none = Unit
  TurnAs w p v (some (w1, kept)) = Turn fd_of poll w p v w1 kept

  count_uses :
      (d : Direction) (x : FdWrapper)
      → (if is_input d then x.read_count else x.write_count) ≡ uses d x
  count_uses input x = refl
  count_uses output x = refl

  has_progressed :
      (w w1 : W) (r : Rule W)
      → (service_count fd_of poll w r == service_count fd_of poll w1 r && r.interest w1) ≡ false
      → HasProgressed fd_of poll w w1 r
  has_progressed w w1 r h = elim (Bool-cases (r.interest w1)) [
    | inr e ↦ inr e
    | inl e ↦ inl (λ q. ground (
      arith,
      h,
      e,
      q,
      count_uses r.direction (fd_of w r.fd),
      count_uses r.direction (fd_of w1 r.fd),
    ))
  ]

  progress_of :
      (w w1 : W) (r : Rule W)
      → HasProgressed fd_of poll w w1 r
      → (service_count fd_of poll w r == service_count fd_of poll w1 r && r.interest w1) ≡ false
  progress_of w w1 r (inr e) = ground (arith, e)
  progress_of w w1 r (inl n) =
      elim (Bool-cases (service_count fd_of poll w r == service_count fd_of poll w1 r)) [
        | inr e ↦ ground (arith, e)
        | inl e ↦ absurd (
            n (
              sym (count_uses r.direction (fd_of w r.fd))
              ∙ (==_iff _ _).0 e
              ∙ count_uses r.direction (fd_of w1 r.fd)))
      ]

  call_rule-Turn :
      (w : W) (p : Polled W) (v : Revents)
      → NoError v
      → IsReady p v
      → TurnAs w p v (call_rule fd_of poll w p.rule)
  unfolding call_rule
  call_rule-Turn w p v n h = elim (Option-cases (p.rule.callback w)) [
    | inl e ↦ rw (e, call_rule) tt
    | inr (w1, e) ↦
        rw (e, call_rule)
          (elim (Bool-cases (
            service_count fd_of poll w p.rule == service_count fd_of poll w1 p.rule
            && p.rule.interest w1)) [
              | inl busy ↦ rw busy tt
              | inr fine ↦ rw fine (called n h e (has_progressed w w1 p.rule fine))
            ])
  ]

  cancel_rule-Turn :
      (w : W) (p : Polled W) (v : Revents)
      → NoError v
      → HasHungUp p v
      → TurnAs w p v (cancel_rule fd_of poll w p.rule)
  unfolding cancel_rule
  cancel_rule-Turn w p v n h = elim (Option-cases (p.rule.cancel w)) [
    | inl e ↦ rw (e, cancel_rule) tt
    | inr (w1, e) ↦ rw (e, cancel_rule) (cancelled n h e)
  ]

  serve_rule-Turn :
      (w : W) (p : Polled W) (v : Revents) → TurnAs w p v (serve_rule fd_of poll w p v)
  unfolding serve_rule serve_ready
  serve_rule-Turn w p v = elim (Bool-cases (v.pollerr || v.pollnval)) [
    | inl bad ↦ subst (TurnAs w p v) {x = none} (ground (arith, bad)) tt
    | inr fine ↦
        let n : NoError v = (ground (arith, fine), ground (arith, fine)) in
        elim (Bool-cases (is_ready p.pollfd.direction p.pollfd.asked v)) [
          | inl go ↦
              subst (TurnAs w p v) (ground (arith, fine, go))
                (call_rule-Turn w p v n (is_ready-IsReady fd_of poll p v go))
          | inr stop ↦ elim (Bool-cases (v.pollhup && p.pollfd.asked)) [
            | inl hup ↦ subst (TurnAs w p v) (ground (arith, fine, stop, hup)) (
                cancel_rule-Turn w p v n
                  (ground (arith, hup), ground (arith, hup), not-IsReady fd_of poll p v stop))
            | inr quiet ↦
                subst (TurnAs w p v) {x = some (w, true)} (ground (arith, fine, stop, quiet)) (
                  passed n (not-IsReady fd_of poll p v stop) (λ u. ground (arith, u.0, u.1, quiet)))
          ]
        ]
  ]

  ready_of :
      (p : Polled W) (v : Revents)
      → IsReady p v
      → is_ready p.pollfd.direction p.pollfd.asked v ≡ true
  ready_of p v h = elim (Bool-cases (is_ready p.pollfd.direction p.pollfd.asked v)) [
    | inl e ↦ e
    | inr e ↦ absurd (not-IsReady fd_of poll p v e h)
  ]

  not_ready_of :
      (p : Polled W) (v : Revents)
      → ¬ IsReady p v
      → is_ready p.pollfd.direction p.pollfd.asked v ≡ false
  not_ready_of p v h = elim (Bool-cases (is_ready p.pollfd.direction p.pollfd.asked v)) [
    | inl e ↦ absurd (h (is_ready-IsReady fd_of poll p v e))
    | inr e ↦ e
  ]

  quiet_of :
      (p : Polled W) (v : Revents)
      → ¬ IsReady p v
      → ¬ HasHungUp p v
      → (v.pollhup && p.pollfd.asked) ≡ false
  quiet_of p v n h = elim (Bool-cases (v.pollhup && p.pollfd.asked)) [
    | inl e ↦ absurd (h (ground (arith, e), ground (arith, e), n))
    | inr e ↦ e
  ]

  serve_rule_of :
      {w w1 : W} {p : Polled W} {v : Revents} {kept : Bool}
      → Turn fd_of poll w p v w1 kept
      → serve_rule fd_of poll w p v ≡ some (w1, kept)
  unfolding serve_rule serve_ready call_rule cancel_rule
  serve_rule_of {w} {w1} {p} {v} (called n h e progress) =
      ground (arith, n.0, n.1, ready_of p v h, e, progress_of w w1 p.rule progress)
  serve_rule_of {w} {w1} {p} {v} (cancelled n h e) =
      ground (arith, n.0, n.1, h.0, h.1, not_ready_of p v h.2, e)
  serve_rule_of {w} {w1} {p} {v} (passed n h q) =
      ground (arith, n.0, n.1, not_ready_of p v h, quiet_of p v h q)

  abbrev pub ServedAs : W → List (Polled W) → List Revents → Option (W × List (Rule W)) → Type 0
  ServedAs w polls vs none = Unit
  ServedAs w polls vs (some (w', rules)) = Served fd_of poll w polls vs w' rules

  served_put :
      {w w1 : W} {p : Polled W} (polls : List (Polled W)) (vs : List Revents) (kept : Bool)
      (o : Option (W × List (Rule W)))
      → Turn fd_of poll w p (first vs) w1 kept
      → ServedAs w1 polls (rest vs) o
      → ServedAs w (p ∷ polls) vs (elim o [
        | none ↦ none
        | some (w'', rules) ↦ some (w'', keep fd_of poll kept p.rule rules)
      ])
  served_put polls vs kept none t q = tt
  served_put polls vs true (some (w'', rules)) t q = stays t q
  served_put polls vs false (some (w'', rules)) t q = leaves t q

  served_next :
      (w : W) (p : Polled W) (polls : List (Polled W)) (vs : List Revents) (o : Option (W × Bool))
      → TurnAs w p (first vs) o
      → ((w1 : W) → ServedAs w1 polls (rest vs) (serve fd_of poll w1 polls (rest vs)))
      → ServedAs w (p ∷ polls) vs (elim o [
        | none ↦ none
        | some (w1, kept) ↦ elim (serve fd_of poll w1 polls (rest vs)) [
          | none ↦ none
          | some (w'', rules) ↦ some (w'', keep fd_of poll kept p.rule rules)
        ]
      ])
  served_next w p polls vs none t go = tt
  served_next w p polls vs (some (w1, kept)) t go =
      served_put polls vs kept (serve fd_of poll w1 polls (rest vs)) t (go w1)

  pub serve-Served :
      (w : W) (polls : List (Polled W)) (vs : List Revents)
      → ServedAs w polls vs (serve fd_of poll w polls vs)
  unfolding serve
  serve-Served w [] vs = all_served
  serve-Served w (p ∷ polls) vs =
      served_next w p polls vs (serve_rule fd_of poll w p (first vs))
        (serve_rule-Turn w p (first vs)) (λ w1. serve-Served w1 polls (rest vs))

  pub serve_of :
      {w w' : W} {polls : List (Polled W)} {vs : List Revents} {rules : List (Rule W)}
      → Served fd_of poll w polls vs w' rules
      → serve fd_of poll w polls vs ≡ some (w', rules)
  unfolding serve
  serve_of all_served = refl
  serve_of (stays t q) = rw (serve_rule_of t, serve) (rw (serve_of q, serve) refl)
  serve_of (leaves t q) = rw (serve_rule_of t, serve) (rw (serve_of q, serve) refl)
