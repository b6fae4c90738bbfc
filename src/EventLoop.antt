-- ===== src/EventLoop.antt =====
-- libsponge/util/eventloop.hh and eventloop.cc: rules that wait for their descriptors. What a rule
-- calls changes the world `W`, which holds the descriptors; `poll` is a parameter, and `none` is an
-- exception.
pub mod Keeps
pub mod Errors
pub mod Turns
pub mod Serving
pub mod Waiting
mod Tests
use sponge.Prelude.{
  ℕ, Bool, true, false, not, ◌&&◌, ◌||◌, List, [], ◌∷◌, map, Option, none, some, ◌==◌,
  if◌then◌else◌,
}
use sponge.FileDescriptor.{FdWrapper}

-- `Direction::In` and `Direction::Out`
pub data Direction : Type 0 where
  input output : Direction

-- `EventLoop::Rule`; `fd` names a descriptor of the world.
pub record Rule (W : Type 0) : Type 0 where
  pub fd : ℕ
  pub direction : Direction
  pub callback : W → Option W
  pub interest : W → Bool
  pub cancel : W → Option W

pub data Result : Type 0 where
  success timeout exit : Result

-- A `pollfd`; its `events` are the direction, or 0 where the rule does not ask.
pub record Pollfd : Type 0 where
  pub fd : ℕ
  pub direction : Direction
  pub asked : Bool

-- The bits of `revents`.
pub record Revents : Type 0 where
  pub pollin : Bool
  pub pollout : Bool
  pub pollhup : Bool
  pub pollerr : Bool
  pub pollnval : Bool

abbrev pub no_revents : Revents
no_revents = record {
  pollin = false;
  pollout = false;
  pollhup = false;
  pollerr = false;
  pollnval = false;
}

-- What `::poll` returns: more than 0, 0, or -1 with the `errno`.
pub data PollReturn : Type 0 where
  ready : List Revents → PollReturn
  timed_out : PollReturn
  failed : ℕ → PollReturn

abbrev pub eintr : ℕ
eintr = 4

-- `revents & events`
abbrev pub is_ready : Direction → Bool → Revents → Bool
is_ready input asked v = asked && v.pollin
is_ready output asked v = asked && v.pollout

abbrev pub is_input : Direction → Bool
is_input input = true
is_input output = false

-- `pollfds[idx]` and the next ones; what is missing has no bit set.
abbrev pub first : List Revents → Revents
first [] = no_revents
first (v ∷ vs) = v

abbrev pub rest : List Revents → List Revents
rest [] = []
rest (v ∷ vs) = vs

-- A rule with its `pollfd`.
pub record Polled (W : Type 0) : Type 0 where
  pub rule : Rule W
  pub pollfd : Pollfd

module _ {W : Type 0} (fd_of : W → ℕ → FdWrapper)
    (poll : W → List Pollfd → ℕ → W × PollReturn) where
  -- `Rule::service_count`
  abbrev pub service_count : W → Rule W → ℕ
  service_count w r =
      if is_input r.direction then (fd_of w r.fd).read_count else (fd_of w r.fd).write_count

  -- The rule is cancelled: its descriptor is closed, or there is no more to read from it.
  abbrev pub is_defunct : W → Rule W → Bool
  is_defunct w r = (is_input r.direction && (fd_of w r.fd).eof) || (fd_of w r.fd).closed

  abbrev pub polled : W → Rule W → Polled W
  polled w r = record {
    rule = r;
    pollfd = record { fd = r.fd; direction = r.direction; asked = r.interest w };
  }

  -- The first loop of `wait_next_event`: the world, the rules that stay, with what is polled.
  unfoldable pub set_up : W → List (Rule W) → Option (W × List (Polled W))
  set_up w [] = some (w, [])
  set_up w (r ∷ rules) = elim (is_defunct w r) [
    | true ↦ elim (r.cancel w) [ none ↦ none | some w' ↦ set_up w' rules ]
    | false ↦ elim (set_up w rules) [
      | none ↦ none
      | some (w', polls) ↦ some (w', polled w r ∷ polls)
    ]
  ]

  -- `something_to_poll`
  unfoldable pub something_to_poll : List (Polled W) → Bool
  something_to_poll [] = false
  something_to_poll (p ∷ polls) = p.pollfd.asked || something_to_poll polls

  -- A rule whose descriptor has hung up is cancelled, and does not stay.
  unfoldable pub cancel_rule : W → Rule W → Option (W × Bool)
  cancel_rule w r = elim (r.cancel w) [ none ↦ none | some w' ↦ some (w', false) ]

  -- The callback, and the check for a busy wait.
  unfoldable pub call_rule : W → Rule W → Option (W × Bool)
  call_rule w r = elim (r.callback w) [
    | none ↦ none
    | some w' ↦
        if service_count w r == service_count w' r && r.interest w' then none else some (w', true)
  ]

  unfoldable pub serve_ready : W → Polled W → Revents → Option (W × Bool)
  serve_ready w p v =
      if is_ready p.pollfd.direction p.pollfd.asked v then call_rule w p.rule else some (w, true)

  abbrev pub has_hung_up : Polled W → Revents → Bool
  has_hung_up p v =
      v.pollhup && p.pollfd.asked && not (is_ready p.pollfd.direction p.pollfd.asked v)

  -- A turn of the second loop: the world, and whether the rule stays.
  unfoldable pub serve_rule : W → Polled W → Revents → Option (W × Bool)
  serve_rule w p v =
      if v.pollerr || v.pollnval
      then none
      else if has_hung_up p v
      then cancel_rule w p.rule
      else serve_ready w p v

  abbrev pub keep : Bool → Rule W → List (Rule W) → List (Rule W)
  keep stays r rules = if stays then r ∷ rules else rules

  -- The second loop.
  unfoldable pub serve : W → List (Polled W) → List Revents → Option (W × List (Rule W))
  serve w [] vs = some (w, [])
  serve w (p ∷ polls) vs = elim (serve_rule w p (first vs)) [
    | none ↦ none
    | some (w', stays) ↦ elim (serve w' polls (rest vs)) [
      | none ↦ none
      | some (w'', rules) ↦ some (w'', keep stays p.rule rules)
    ]
  ]

  abbrev pub rules_of : List (Polled W) → List (Rule W)
  rules_of polls = map (λ p. p.rule) polls

  abbrev pub succeed : Option (W × List (Rule W)) → Option (W × List (Rule W) × Result)
  succeed none = none
  succeed (some (w, rules)) = some (w, rules, success)

  -- What follows `poll`. An error other than EINTR is caught as well, and the loop goes on over
  -- events that are all 0.
  unfoldable pub after_poll : W → List (Polled W) → PollReturn → Option (W × List (Rule W) × Result)
  after_poll w polls (ready vs) = succeed (serve w polls vs)
  after_poll w polls timed_out = some (w, rules_of polls, timeout)
  after_poll w polls (failed errno) =
      if errno == eintr then some (w, rules_of polls, exit) else succeed (serve w polls [])

  -- `wait_next_event`, with the rules before and after it.
  unfoldable pub wait_next_event : W → List (Rule W) → ℕ → Option (W × List (Rule W) × Result)
  wait_next_event w rules timeout_ms = elim (set_up w rules) [
    | none ↦ none
    | some (w', polls) ↦
        if not (something_to_poll polls)
        then some (w', rules_of polls, exit)
        else let (w'', answer) = poll w' (map (λ p. p.pollfd) polls) timeout_ms in
          after_poll w'' polls answer
  ]
