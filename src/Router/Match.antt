-- ===== src/Router/Match.antt =====
-- The route that the loop of `route_one_datagram` finds.
use sponge.Prelude.{
  ℕ, ◌-◌, ◌/◌, ◌^◌, ◌≤◌, ◌<◌, ◌≡◌, refl, ap, ◌∙◌, sym, true, false, List, [], ◌∷◌, ◌++◌, ◌⊎◌, inl,
  inr, All, All-append, All-map, append_assoc, append-nil, arith, ℕ_discrete, subst,
}
use sponge.Router.{
  RouteTableEntry, Lookup, nothing_found, matched, shift_right, consider, search, find_route,
}

-- The address and the prefix of the entry agree in as many high-order bits as its length says.
abbrev pub Agrees : ℕ → RouteTableEntry → Type 0
Agrees dst e = e.route_prefix / 2 ^ (32 - e.prefix_length) ≡ dst / 2 ^ (32 - e.prefix_length)

-- An entry as the table can hold it.
pub record IsRoute (e : RouteTableEntry) : Type 0 where
  pub prefix_small : e.route_prefix < 2 ^ 32
  pub length_small : e.prefix_length ≤ 32

-- Of the entries of the table that agree with the address, `e` is one of the longest, and the last
-- of those.
pub record Longest (table : List RouteTableEntry) (dst : ℕ) (e : RouteTableEntry) : Type 0 where
  pub before : List RouteTableEntry
  pub after : List RouteTableEntry
  pub split : table ≡ before ++ e ∷ after
  pub agrees : Agrees dst e
  pub no_longer_before : All (λ x. Agrees dst x → x.prefix_length ≤ e.prefix_length) before
  pub shorter_after : All (λ x. Agrees dst x → x.prefix_length < e.prefix_length) after

-- What the loop has found in the part of the table that it has seen.
Found : List RouteTableEntry → ℕ → Lookup → Type 0
Found seen dst l =
    ((l.find_match ≡ false) × (l.max_prelen ≡ 0) × All (λ x. ¬ Agrees dst x) seen)
    ⊎ ((l.find_match ≡ true)
        × (l.max_prelen ≡ l.matched_entry.prefix_length)
        × Longest seen dst l.matched_entry)

module _ (any_shift : ℕ → ℕ → ℕ) where
  shift_right_lem : (x n : ℕ) → 0 < n → n ≤ 32 → shift_right any_shift x n ≡ x / 2 ^ (32 - n)
  unfolding shift_right
  shift_right_lem x n h k = ground arith

  agrees_zero : (x y n : ℕ) → n ≡ 0 → x < 2 ^ 32 → y < 2 ^ 32 → x / 2 ^ (32 - n) ≡ y / 2 ^ (32 - n)
  agrees_zero x y n z h k =
      ap (λ i. x / 2 ^ (32 - i)) z ∙ omega arith ∙ ap (λ i. y / 2 ^ (32 - i)) (sym z)

  -- A round takes the entry if it agrees and is not shorter than the best one so far.
  consider_cases :
      (l : Lookup) (dst : ℕ) (e : RouteTableEntry)
      → dst < 2 ^ 32
      → IsRoute e
      → ((consider any_shift l dst e ≡ matched e) × Agrees dst e × (l.max_prelen ≤ e.prefix_length))
        ⊎ ((consider any_shift l dst e ≡ l) × (Agrees dst e → e.prefix_length < l.max_prelen))
  unfolding consider
  consider_cases l dst e h v = elim (ℕ_discrete e.prefix_length 0) [
    | yes z ↦ ground (arith, agrees_zero e.route_prefix dst e.prefix_length z v.prefix_small h)
    | no nz ↦ ground (
      arith,
      v.length_small,
      shift_right_lem e.route_prefix e.prefix_length,
      shift_right_lem dst e.prefix_length,
    )
  ]

  -- The entry is taken.
  Longest-take :
      (seen : List RouteTableEntry) (dst : ℕ) (l : Lookup) (e : RouteTableEntry)
      → Found seen dst l
      → Agrees dst e
      → l.max_prelen ≤ e.prefix_length
      → Longest (seen ++ e ∷ []) dst e
  unfolding Found
  Longest-take seen dst l e (inl (f, m, none_agrees)) a k = record {
    before = seen;
    after = [];
    split = refl;
    agrees = a;
    no_longer_before = All-map _ _ seen (λ x p q. absurd (p q)) none_agrees;
    shorter_after = tt;
  }
  Longest-take seen dst l e (inr (f, m, v)) a k = record {
    before = seen;
    after = [];
    split = refl;
    agrees = a;
    no_longer_before =
        subst (All (λ x. Agrees dst x → x.prefix_length ≤ e.prefix_length)) (sym v.split) (
          All-append _ v.before (l.matched_entry ∷ v.after)
            (All-map _ _ v.before (λ x p q. omega (arith, p q)) v.no_longer_before)
            (λ q. omega arith, All-map _ _ v.after (λ x p q. omega (arith, p q)) v.shorter_after));
    shorter_after = tt;
  }

  -- The entry is passed over.
  Found-skip :
      (seen : List RouteTableEntry) (dst : ℕ) (l : Lookup) (e : RouteTableEntry)
      → Found seen dst l
      → (Agrees dst e → e.prefix_length < l.max_prelen)
      → Found (seen ++ e ∷ []) dst l
  unfolding Found
  Found-skip seen dst l e (inl (f, m, none_agrees)) k =
      inl (f, m, All-append _ seen (e ∷ []) none_agrees (λ q. omega (arith, k q), tt))
  Found-skip seen dst l e (inr (f, m, v)) k = inr (
    f,
    m,
    record {
      before = v.before;
      after = v.after ++ e ∷ [];
      split =
          ap (λ t. t ++ e ∷ []) v.split
          ∙ append_assoc v.before (l.matched_entry ∷ v.after) (e ∷ []);
      agrees = v.agrees;
      no_longer_before = v.no_longer_before;
      shorter_after = All-append _ v.after (e ∷ []) v.shorter_after (λ q. omega (arith, k q), tt);
    },
  )

  consider-Found :
      (seen : List RouteTableEntry) (dst : ℕ) (l : Lookup) (e : RouteTableEntry)
      → dst < 2 ^ 32
      → IsRoute e
      → Found seen dst l
      → Found (seen ++ e ∷ []) dst (consider any_shift l dst e)
  unfolding Found
  consider-Found seen dst l e h r v = elim (consider_cases l dst e h r) [
    | inl (took, a, k) ↦ rw took (inr (refl, refl, Longest-take seen dst l e v a k))
    | inr (kept, k) ↦ rw kept (Found-skip seen dst l e v k)
  ]

  search-Found :
      (table seen : List RouteTableEntry) (dst : ℕ) (l : Lookup)
      → dst < 2 ^ 32
      → All IsRoute table
      → Found seen dst l
      → Found (seen ++ table) dst (search any_shift l dst table)
  unfolding search
  search-Found [] seen dst l h r v = subst (λ t. Found t dst l) (sym (append-nil seen)) v
  search-Found (e ∷ table) seen dst l h r v =
      subst (λ t. Found t dst (search any_shift (consider any_shift l dst e) dst table))
        (append_assoc seen (e ∷ []) table)
        (search-Found table (seen ++ e ∷ []) dst (consider any_shift l dst e) h r.1
          (consider-Found seen dst l e h r.0 v))

  -- For an address below 2 ^ 32 and a table of 32-bit prefixes with lengths up to 32, whatever an
  -- undefined shift gives: the loop finds no match exactly when no entry agrees with the address
  -- in the high-order bits of its prefix, and otherwise an entry that agrees, that no agreeing
  -- entry before it is longer than, and that every agreeing entry behind it is longer than.
  pub find_route-Longest :
      (table : List RouteTableEntry) (dst : ℕ)
      → dst < 2 ^ 32
      → All IsRoute table
      → let l = find_route any_shift table dst in
        ((l.find_match ≡ false) × All (λ x. ¬ Agrees dst x) table)
        ⊎ ((l.find_match ≡ true) × Longest table dst l.matched_entry)
  unfolding find_route Found
  find_route-Longest table dst h r =
      elim (search-Found table [] dst nothing_found h r (inl (refl, refl, tt))) [
        | inl (f, m, n) ↦ inl (f, n)
        | inr (f, m, v) ↦ inr (f, v)
      ]
