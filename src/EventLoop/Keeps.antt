-- ===== src/EventLoop/Keeps.antt =====
-- What the rules of an event loop keep, the loop keeps, libsponge/util/eventloop.cc.
use sponge.Prelude.{
  ℕ, Bool, true, false, not, ◌&&◌, ◌||◌, Bool-cases, if_both, inl, inr, All, List, [], ◌∷◌, map,
  Option, none, some, ◌==◌, if◌then◌else◌,
}
use sponge.FileDescriptor.{FdWrapper}
use sponge.EventLoop.{
  Rule, Result, Pollfd, Revents, PollReturn, Polled, ready, timed_out, failed, exit, is_ready,
  first, rest, eintr, service_count, is_defunct, polled, set_up, something_to_poll, cancel_rule,
  call_rule, serve_ready, has_hung_up, serve_rule, keep, serve, rules_of, succeed, after_poll,
  wait_next_event,
}

-- A property of the world that holds after a step, if the step has a result.
abbrev pub Holds : {W A : Type 0} → (W → Type 0) → (A → W) → Option A → Type 0
Holds P world none = Unit
Holds P world (some a) = P (world a)

module _ {W : Type 0} (fd_of : W → ℕ → FdWrapper) (poll : W → List Pollfd → ℕ → W × PollReturn)
    (P : W → Type 0) where
  -- Neither the callback of a rule nor its cancellation breaks the property.
  pub record KeepsIt (r : Rule W) : Type 0 where
    pub callback : (w : W) → P w → Holds P (λ w'. w') (r.callback w)
    pub cancel : (w : W) → P w → Holds P (λ w'. w') (r.cancel w)

  abbrev PollsKept : Option (W × List (Polled W)) → Type 0
  PollsKept none = Unit
  PollsKept (some (w, polls)) = P w × All (λ p. KeepsIt p.rule) polls

  abbrev RulesKept : Option (W × List (Rule W)) → Type 0
  RulesKept none = Unit
  RulesKept (some (w, rules)) = P w × All KeepsIt rules

  -- The world has the property, and the rules that are left go on keeping it.
  abbrev pub Kept : Option (W × List (Rule W) × Result) → Type 0
  Kept none = Unit
  Kept (some (w, rules, result)) = P w × All KeepsIt rules

  set_up-cancelled :
      (rules : List (Rule W)) (o : Option W)
      → Holds P (λ w. w) o
      → ((w : W) → P w → PollsKept (set_up fd_of poll w rules))
      → PollsKept (elim o [ none ↦ none | some w ↦ set_up fd_of poll w rules ])
  set_up-cancelled rules none h go = tt
  set_up-cancelled rules (some w) h go = go w h

  set_up-put :
      (p : Polled W) (o : Option (W × List (Polled W)))
      → KeepsIt p.rule
      → PollsKept o
      → PollsKept (elim o [ none ↦ none | some (w, polls) ↦ some (w, p ∷ polls) ])
  set_up-put p none k h = tt
  set_up-put p (some (w, polls)) k h = (h.0, (k, h.1))

  set_up-PollsKept :
      (w : W) (rules : List (Rule W))
      → P w
      → All KeepsIt rules
      → PollsKept (set_up fd_of poll w rules)
  unfolding set_up
  set_up-PollsKept w [] p a = (p, tt)
  set_up-PollsKept w (r ∷ rules) p (k, a) = elim (Bool-cases (is_defunct fd_of poll w r)) [
    | inl e ↦
        rw (e, set_up)
          (set_up-cancelled rules (r.cancel w) (k.cancel w p)
            (λ w' p'. set_up-PollsKept w' rules p' a))
    | inr e ↦
        rw (e, set_up)
          (set_up-put (polled fd_of poll w r) (set_up fd_of poll w rules) k
            (set_up-PollsKept w rules p a))
  ]

  abbrev TurnKept : Option (W × Bool) → Type 0
  TurnKept none = Unit
  TurnKept (some (w, stays)) = P w

  cancelled-TurnKept :
      (o : Option W)
      → Holds P (λ w. w) o
      → TurnKept (elim o [ none ↦ none | some w ↦ some (w, false) ])
  cancelled-TurnKept none h = tt
  cancelled-TurnKept (some w) h = h

  called-TurnKept :
      (test : W → Bool) (o : Option W)
      → Holds P (λ w. w) o
      → TurnKept (elim o [ none ↦ none | some w ↦ if test w then none else some (w, true) ])
  called-TurnKept test none h = tt
  called-TurnKept test (some w) h = if_both TurnKept (test w) tt h

  call_rule-TurnKept : (w : W) (r : Rule W) → P w → KeepsIt r → TurnKept (call_rule fd_of poll w r)
  unfolding call_rule
  call_rule-TurnKept w r h k =
      called-TurnKept
        (λ w'. service_count fd_of poll w r == service_count fd_of poll w' r && r.interest w')
        (r.callback w) (k.callback w h)

  serve_ready-TurnKept :
      (w : W) (p : Polled W) (v : Revents)
      → P w
      → KeepsIt p.rule
      → TurnKept (serve_ready fd_of poll w p v)
  unfolding serve_ready
  serve_ready-TurnKept w p v h k =
      if_both TurnKept (is_ready p.pollfd.direction p.pollfd.asked v) {y = some (w, true)}
        (call_rule-TurnKept w p.rule h k) h

  serve_rule-TurnKept :
      (w : W) (p : Polled W) (v : Revents)
      → P w
      → KeepsIt p.rule
      → TurnKept (serve_rule fd_of poll w p v)
  unfolding serve_rule
  serve_rule-TurnKept w p v h k =
      let turn : TurnKept (
          if has_hung_up fd_of poll p v
          then cancel_rule fd_of poll w p.rule
          else serve_ready fd_of poll w p v) =
        if_both TurnKept (has_hung_up fd_of poll p v)
          (unfold cancel_rule in cancelled-TurnKept (p.rule.cancel w) (k.cancel w h))
          (serve_ready-TurnKept w p v h k) in
      if_both TurnKept (v.pollerr || v.pollnval) {x = none} tt turn

  serve_put :
      (stays : Bool) (r : Rule W) (o : Option (W × List (Rule W)))
      → KeepsIt r
      → RulesKept o
      → RulesKept
          (elim o [ none ↦ none | some (w, rules) ↦ some (w, keep fd_of poll stays r rules) ])
  serve_put stays r none k h = tt
  serve_put true r (some (w, rules)) k h = (h.0, (k, h.1))
  serve_put false r (some (w, rules)) k h = h

  serve_next :
      (r : Rule W) (polls : List (Polled W)) (vs : List Revents) (o : Option (W × Bool))
      → KeepsIt r
      → TurnKept o
      → ((w : W) → P w → RulesKept (serve fd_of poll w polls vs))
      → RulesKept (elim o [
        | none ↦ none
        | some (w, stays) ↦ elim (serve fd_of poll w polls vs) [
          | none ↦ none
          | some (w', rules) ↦ some (w', keep fd_of poll stays r rules)
        ]
      ])
  serve_next r polls vs none k h go = tt
  serve_next r polls vs (some (w, stays)) k h go =
      serve_put stays r (serve fd_of poll w polls vs) k (go w h)

  serve-RulesKept :
      (w : W) (polls : List (Polled W)) (vs : List Revents)
      → P w
      → All (λ p. KeepsIt p.rule) polls
      → RulesKept (serve fd_of poll w polls vs)
  unfolding serve
  serve-RulesKept w [] vs h a = (h, tt)
  serve-RulesKept w (p ∷ polls) vs h (k, a) =
      serve_next p.rule polls (rest vs) (serve_rule fd_of poll w p (first vs)) k
        (serve_rule-TurnKept w p (first vs) h k) (λ w' h'. serve-RulesKept w' polls (rest vs) h' a)

  rules_of-All :
      (polls : List (Polled W))
      → All (λ p. KeepsIt p.rule) polls
      → All KeepsIt (rules_of fd_of poll polls)
  rules_of-All [] a = tt
  rules_of-All (p ∷ polls) a = (a.0, rules_of-All polls a.1)

  succeed-Kept : (o : Option (W × List (Rule W))) → RulesKept o → Kept (succeed fd_of poll o)
  succeed-Kept none h = tt
  succeed-Kept (some (w, rules)) h = h

  after_poll-Kept :
      (w : W) (polls : List (Polled W)) (answer : PollReturn)
      → P w
      → All (λ p. KeepsIt p.rule) polls
      → Kept (after_poll fd_of poll w polls answer)
  unfolding after_poll
  after_poll-Kept w polls (ready vs) h a =
      succeed-Kept (serve fd_of poll w polls vs) (serve-RulesKept w polls vs h a)
  after_poll-Kept w polls timed_out h a = (h, rules_of-All polls a)
  after_poll-Kept w polls (failed errno) h a =
      if_both Kept (errno == eintr) (h, rules_of-All polls a)
        (succeed-Kept (serve fd_of poll w polls []) (serve-RulesKept w polls [] h a))

  polled-Kept :
      (ms : ℕ) (o : Option (W × List (Polled W)))
      → ((w : W) (fds : List Pollfd) → P w → P (poll w fds ms).0)
      → PollsKept o
      → Kept (elim o [
        | none ↦ none
        | some (w, polls) ↦
            if not (something_to_poll fd_of poll polls)
            then some (w, rules_of fd_of poll polls, exit)
            else let (w', answer) = poll w (map (λ p. p.pollfd) polls) ms in
              after_poll fd_of poll w' polls answer
      ])
  polled-Kept ms none waits h = tt
  polled-Kept ms (some (w, polls)) waits h =
      if_both Kept (not (something_to_poll fd_of poll polls)) (h.0, rules_of-All polls h.1)
        (after_poll-Kept _ polls _ (waits w (map (λ p. p.pollfd) polls) h.0) h.1)

  -- For every property of the world that poll does not break, and rules none of whose callbacks
  -- and cancellations break it when they return: if wait_next_event returns, with any result and
  -- after any events, the world has the property, and so do the rules that are left keep it.
  pub wait_next_event-Kept :
      (w : W) (rules : List (Rule W)) (ms : ℕ)
      → P w
      → All KeepsIt rules
      → ((w : W) (fds : List Pollfd) → P w → P (poll w fds ms).0)
      → Kept (wait_next_event fd_of poll w rules ms)
  unfolding wait_next_event
  wait_next_event-Kept w rules ms h a waits =
      polled-Kept ms (set_up fd_of poll w rules) waits (set_up-PollsKept w rules h a)
