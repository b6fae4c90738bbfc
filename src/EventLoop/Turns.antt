-- ===== src/EventLoop/Turns.antt =====
-- A turn of the event loop as a relation, libsponge/util/eventloop.cc: which rules are cancelled,
-- which are called, in which order, and with which result.
use sponge.Prelude.{
  ℕ, ◌≡◌, ◌≢◌, ◌⊎◌, refl, Bool, true, false, Bool-cases, inl, inr, List, [], ◌∷◌, Option, none,
  some, arith,
}
use sponge.FileDescriptor.{FdWrapper}
use sponge.EventLoop.{
  Direction, input, output, Rule, Pollfd, Revents, PollReturn, Polled, first, rest, is_ready,
  is_defunct, set_up, polled,
}

-- What a direction counts: the reads or the writes of the descriptor.
abbrev pub uses : Direction → FdWrapper → ℕ
uses input w = w.read_count
uses output w = w.write_count

-- The rule has asked for its direction, and the descriptor is ready for it.
abbrev pub IsReady : {W : Type 0} → Polled W → Revents → Type 0
IsReady p v =
    (p.pollfd.asked ≡ true)
    × (((p.pollfd.direction ≡ input) × (v.pollin ≡ true))
        ⊎ ((p.pollfd.direction ≡ output) × (v.pollout ≡ true)))

abbrev pub HasHungUp : {W : Type 0} → Polled W → Revents → Type 0
HasHungUp p v = (v.pollhup ≡ true) × (p.pollfd.asked ≡ true) × ¬ IsReady p v

abbrev pub NoError : Revents → Type 0
NoError v = (v.pollerr ≡ false) × (v.pollnval ≡ false)

module _ {W : Type 0} (fd_of : W → ℕ → FdWrapper)
    (poll : W → List Pollfd → ℕ → W × PollReturn) where
  -- The rule waits for a descriptor that is closed, or reads from one that is at its end.
  abbrev pub IsOver : W → Rule W → Type 0
  IsOver w r =
      ((r.direction ≡ input) × ((fd_of w r.fd).eof ≡ true)) ⊎ ((fd_of w r.fd).closed ≡ true)

  -- Before `poll`: the rules that are over are cancelled, the others are asked for their interest.
  pub data Prepared : W → List (Rule W) → W → List (Polled W) → Type 0 where
    no_rules : {w : W} → Prepared w [] w []
    over :
        {w w1 w2 : W} {r : Rule W} {rules : List (Rule W)} {polls : List (Polled W)}
        → IsOver w r
        → r.cancel w ≡ some w1
        → Prepared w1 rules w2 polls
        → Prepared w (r ∷ rules) w2 polls
    asks :
        {w w2 : W} {r : Rule W} {rules : List (Rule W)} {polls : List (Polled W)}
        → ¬ IsOver w r
        → Prepared w rules w2 polls
        → Prepared w (r ∷ rules) w2 (
            (record {
              rule = r;
              pollfd = record { fd = r.fd; direction = r.direction; asked = r.interest w };
            })
            ∷ polls)

  -- The callback has used the descriptor, or the rule is no longer interested.
  abbrev pub HasProgressed : W → W → Rule W → Type 0
  HasProgressed w w1 r =
      (uses r.direction (fd_of w r.fd) ≢ uses r.direction (fd_of w1 r.fd)) ⊎ (r.interest w1 ≡ false)

  -- What is done about one rule after `poll`, and whether it stays: it is called if it is ready,
  -- cancelled if its descriptor has only hung up, and else passed over.
  pub data Turn (w : W) (p : Polled W) (v : Revents) : W → Bool → Type 0 where
    called :
        {w1 : W}
        → NoError v
        → IsReady p v
        → p.rule.callback w ≡ some w1
        → HasProgressed w w1 p.rule
        → Turn w p v w1 true
    cancelled :
        {w1 : W} → NoError v → HasHungUp p v → p.rule.cancel w ≡ some w1 → Turn w p v w1 false
    passed : NoError v → ¬ IsReady p v → ¬ HasHungUp p v → Turn w p v w true

  -- The rules in order, each in the world that the one before it has left.
  pub data Served : W → List (Polled W) → List Revents → W → List (Rule W) → Type 0 where
    all_served : {w : W} {vs : List Revents} → Served w [] vs w []
    stays :
        {w w1 w2 : W} {p : Polled W} {polls : List (Polled W)} {vs : List Revents}
        {rules : List (Rule W)}
        → Turn w p (first vs) w1 true
        → Served w1 polls (rest vs) w2 rules
        → Served w (p ∷ polls) vs w2 (p.rule ∷ rules)
    leaves :
        {w w1 w2 : W} {p : Polled W} {polls : List (Polled W)} {vs : List Revents}
        {rules : List (Rule W)}
        → Turn w p (first vs) w1 false
        → Served w1 polls (rest vs) w2 rules
        → Served w (p ∷ polls) vs w2 rules

  pub is_ready-IsReady :
      (p : Polled W) (v : Revents)
      → is_ready p.pollfd.direction p.pollfd.asked v ≡ true
      → IsReady p v
  is_ready-IsReady p v h = ground (arith, h)

  pub not-IsReady :
      (p : Polled W) (v : Revents)
      → is_ready p.pollfd.direction p.pollfd.asked v ≡ false
      → ¬ IsReady p v
  not-IsReady p v h (asked, inl (d, e)) = ground (arith, h)
  not-IsReady p v h (asked, inr (d, e)) = ground (arith, h)

  is_defunct-IsOver : (w : W) (r : Rule W) → is_defunct fd_of poll w r ≡ true → IsOver w r
  is_defunct-IsOver w r h = ground (arith, h)

  not-IsOver : (w : W) (r : Rule W) → is_defunct fd_of poll w r ≡ false → ¬ IsOver w r
  not-IsOver w r h (inl (d, e)) = ground (arith, h)
  not-IsOver w r h (inr e) = ground (arith, h)

  -- What the functions compute is what the relations say.
  abbrev pub PreparedAs : W → List (Rule W) → Option (W × List (Polled W)) → Type 0
  PreparedAs w rules none = Unit
  PreparedAs w rules (some (w', polls)) = Prepared w rules w' polls

  prepared_over :
      (w : W) (r : Rule W) (rules : List (Rule W)) (o : Option W)
      → r.cancel w ≡ o
      → IsOver w r
      → ((w1 : W) → PreparedAs w1 rules (set_up fd_of poll w1 rules))
      → PreparedAs w (r ∷ rules) (elim o [ none ↦ none | some w1 ↦ set_up fd_of poll w1 rules ])
  prepared_over w r rules none c h go = tt
  prepared_over w r rules (some w1) c h go = more (set_up fd_of poll w1 rules) (go w1)
    where
      more : (o : Option (W × List (Polled W))) → PreparedAs w1 rules o → PreparedAs w (r ∷ rules) o
      more none q = tt
      more (some (w2, polls)) q = over h c q

  prepared_asks :
      (w : W) (r : Rule W) (rules : List (Rule W)) (o : Option (W × List (Polled W)))
      → ¬ IsOver w r
      → PreparedAs w rules o
      → PreparedAs w
          (r ∷ rules)
          (elim o [ none ↦ none | some (w', polls) ↦ some (w', polled fd_of poll w r ∷ polls) ])
  prepared_asks w r rules none n q = tt
  prepared_asks w r rules (some (w', polls)) n q = asks n q

  pub set_up-Prepared :
      (w : W) (rules : List (Rule W)) → PreparedAs w rules (set_up fd_of poll w rules)
  unfolding set_up
  set_up-Prepared w [] = no_rules
  set_up-Prepared w (r ∷ rules) = elim (Bool-cases (is_defunct fd_of poll w r)) [
    | inl e ↦
        rw (e, set_up)
          (prepared_over w r rules (r.cancel w) refl (is_defunct-IsOver w r e)
            (λ w1. set_up-Prepared w1 rules))
    | inr e ↦
        rw (e, set_up)
          (prepared_asks w r rules (set_up fd_of poll w rules) (not-IsOver w r e)
            (set_up-Prepared w rules))
  ]

  is_defunct_of : (w : W) (r : Rule W) → IsOver w r → is_defunct fd_of poll w r ≡ true
  is_defunct_of w r h = elim (Bool-cases (is_defunct fd_of poll w r)) [
    | inl e ↦ e
    | inr e ↦ absurd (not-IsOver w r e h)
  ]

  not_defunct_of : (w : W) (r : Rule W) → ¬ IsOver w r → is_defunct fd_of poll w r ≡ false
  not_defunct_of w r h = elim (Bool-cases (is_defunct fd_of poll w r)) [
    | inl e ↦ absurd (h (is_defunct-IsOver w r e))
    | inr e ↦ e
  ]

  pub set_up_of :
      {w w' : W} {rules : List (Rule W)} {polls : List (Polled W)}
      → Prepared w rules w' polls
      → set_up fd_of poll w rules ≡ some (w', polls)
  unfolding set_up
  set_up_of no_rules = refl
  set_up_of (over {w = w} {r = r} h c q) =
      rw (is_defunct_of w r h, set_up) (rw (c, set_up) (set_up_of q))
  set_up_of (asks {w = w} {r = r} n q) =
      rw (not_defunct_of w r n, set_up) (rw (set_up_of q, set_up) refl)
