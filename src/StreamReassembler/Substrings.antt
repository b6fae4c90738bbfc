-- ===== src/StreamReassembler/Substrings.antt =====
-- `std::set<std::pair<size_t, std::string>>`: the substrings that wait, ordered by their index and
-- then by their bytes, each of them once.
use sponge.Prelude.{
  ℕ, ◌+◌, ◌≡◌, refl, Bool, true, false, ◌&&◌, ◌||◌, List, [], ◌∷◌, Bytes, length, ltb, ◌==◌,
  if◌then◌else◌, arith, ◌⊎◌, inl, inr, Bool-cases, subst, sym,
}
pub use sponge.Prelude.{All, Any}

pub record Substring : Type 0 where
  pub index : ℕ
  pub bytes : Bytes

unfoldable pub bytes_eq : Bytes → Bytes → Bool
bytes_eq [] [] = true
bytes_eq [] (y ∷ ys) = false
bytes_eq (x ∷ xs) [] = false
bytes_eq (x ∷ xs) (y ∷ ys) = x == y && bytes_eq xs ys

unfoldable pub bytes_lt : Bytes → Bytes → Bool
bytes_lt xs [] = false
bytes_lt [] (y ∷ ys) = true
bytes_lt (x ∷ xs) (y ∷ ys) = ltb x y || (x == y && bytes_lt xs ys)

unfoldable pub same : Substring → Substring → Bool
unfolding bytes_eq
same a b = a.index == b.index && bytes_eq a.bytes b.bytes

unfoldable pub before : Substring → Substring → Bool
unfolding bytes_lt
before a b = ltb a.index b.index || (a.index == b.index && bytes_lt a.bytes b.bytes)

-- `set::insert`
unfoldable pub insert : Substring → List Substring → List Substring
insert e [] = e ∷ []
insert e (x ∷ xs) = if same x e then x ∷ xs else if before e x then e ∷ x ∷ xs else x ∷ insert e xs

-- `set::erase(key)`
unfoldable pub erase : Substring → List Substring → List Substring
erase e [] = []
erase e (x ∷ xs) = if same x e then xs else x ∷ erase e xs

bytes_eq_refl : (xs : Bytes) → bytes_eq xs xs ≡ true
unfolding bytes_eq
bytes_eq_refl [] = refl
bytes_eq_refl (x ∷ xs) = ground (arith, bytes_eq_refl xs)

pub bytes_eq→eq : (xs ys : Bytes) → bytes_eq xs ys ≡ true → xs ≡ ys
unfolding bytes_eq
bytes_eq→eq [] [] h = refl
bytes_eq→eq [] (y ∷ ys) h = ground arith
bytes_eq→eq (x ∷ xs) [] h = ground arith
bytes_eq→eq (x ∷ xs) (y ∷ ys) h = ground (arith, bytes_eq→eq xs ys)

pub same_refl : (a : Substring) → same a a ≡ true
same_refl a = unfold same in ground (arith, bytes_eq_refl a.bytes)

pub same→eq : (a b : Substring) → same a b ≡ true → a ≡ b
same→eq a b h = unfold same in ground (arith, bytes_eq→eq a.bytes b.bytes)

module _ (P : Substring → Type 0) where
  pub All-insert : (e : Substring) (xs : List Substring) → P e → All P xs → All P (insert e xs)
  unfolding insert
  All-insert e [] p ps = (p, tt)
  All-insert e (x ∷ xs) p ps = ground (arith, All-insert e xs p ps.1)

  pub All-erase : (e : Substring) (xs : List Substring) → All P xs → All P (erase e xs)
  unfolding erase
  All-erase e [] ps = tt
  All-erase e (x ∷ xs) ps = ground (arith, All-erase e xs ps.1)

pub length-erase :
    (e : Substring) (xs : List Substring)
    → Any (λ x. x ≡ e) xs
    → length (erase e xs) + 1 ≡ length xs
unfolding erase
length-erase e [] h = absurd h
length-erase e (x ∷ xs) (inl p) = ground (arith, same_refl e)
length-erase e (x ∷ xs) (inr p) = ground (arith, length-erase e xs p)

All-mono :
    {P Q : Substring → Type 0} (f : (e : Substring) → P e → Q e) (xs : List Substring)
    → All P xs
    → All Q xs
All-mono f [] h = tt
All-mono f (x ∷ xs) h = (f x h.0, All-mono f xs h.1)

-- The substring is one of the set.
abbrev pub In : List Substring → Substring → Type 0
In xs e = Any (λ x. x ≡ e) xs

pub All-In : (xs : List Substring) → All (In xs) xs
All-In [] = tt
All-In (x ∷ xs) = (inl refl, All-mono (λ e h. inr h) xs (All-In xs))

pub All-at :
    (P : Substring → Type 0) (e : Substring) (xs : List Substring) → All P xs → In xs e → P e
All-at P e [] h m = absurd m
All-at P e (x ∷ xs) h (inl p) = subst P p h.0
All-at P e (x ∷ xs) h (inr m) = All-at P e xs h.1 m

erase_cases :
    (e x : Substring) (xs : List Substring)
    → ((x ≡ e) × (erase e (x ∷ xs) ≡ xs)) ⊎ (erase e (x ∷ xs) ≡ x ∷ erase e xs)
unfolding erase
erase_cases e x xs = elim (Bool-cases (same x e)) [
  | inl s ↦ inl (same→eq x e s, rw s)
  | inr s ↦ inr (rw s)
]

insert_cases :
    (e x : Substring) (xs : List Substring)
    → ((x ≡ e) × (insert e (x ∷ xs) ≡ x ∷ xs))
      ⊎ ((insert e (x ∷ xs) ≡ e ∷ x ∷ xs) ⊎ (insert e (x ∷ xs) ≡ x ∷ insert e xs))
insert_cases e x xs = elim (Bool-cases (same x e)) [
  | inl s ↦ inl (same→eq x e s, unfold insert in ground arith)
  | inr s ↦ elim (Bool-cases (before e x)) [
    | inl b ↦ inr (inl (unfold insert in ground arith))
    | inr b ↦ inr (inr (unfold insert in ground arith))
  ]
]

module _ (P : Substring → Type 0) where
  pub Any-In : (e : Substring) (xs : List Substring) → In xs e → P e → Any P xs
  Any-In e [] m p = absurd m
  Any-In e (x ∷ xs) (inl q) p = inl (subst P (sym q) p)
  Any-In e (x ∷ xs) (inr m) p = inr (Any-In e xs m p)

  -- A substring is the erased one, or still in the set; and the set gains none.
  pub Any-erase : (e : Substring) (xs : List Substring) → Any P xs → P e ⊎ Any P (erase e xs)
  Any-erase e [] h = absurd h
  Any-erase e (x ∷ xs) (inl p) = elim (erase_cases e x xs) [
    | inl (q, _) ↦ inl (subst P q p)
    | inr q ↦ rw q (inr (inl p))
  ]
  Any-erase e (x ∷ xs) (inr p) = elim (erase_cases e x xs) [
    | inl (_, q) ↦ rw q (inr p)
    | inr q ↦ rw q (elim (Any-erase e xs p) [ inl t ↦ inl t | inr t ↦ inr (inr t) ])
  ]

  pub Any-of_erase : (e : Substring) (xs : List Substring) → Any P (erase e xs) → Any P xs
  Any-of_erase e [] h = unfold erase in h
  Any-of_erase e (x ∷ xs) h = elim (erase_cases e x xs) [
    | inl (_, q) ↦ inr (subst (Any P) q h)
    | inr q ↦
        let k : Any P (x ∷ erase e xs) = subst (Any P) q h in
        elim k [ inl t ↦ inl t | inr t ↦ inr (Any-of_erase e xs t) ]
  ]

  -- The set with one more substring.
  pub Any-insert : (e : Substring) (xs : List Substring) → P e ⊎ Any P xs → Any P (insert e xs)
  Any-insert e [] h = unfold insert in h
  Any-insert e (x ∷ xs) h = elim (insert_cases e x xs) [
    | inl (q, t) ↦ rw t (elim h [ inl p ↦ inl (subst P (sym q) p) | inr p ↦ p ])
    | inr (inl t) ↦ rw t h
    | inr (inr t) ↦ rw t (elim h [
      | inl p ↦ inr (Any-insert e xs (inl p))
      | inr (inl p) ↦ inl p
      | inr (inr p) ↦ inr (Any-insert e xs (inr p))
    ])
  ]

  pub Any-of_insert : (e : Substring) (xs : List Substring) → Any P (insert e xs) → P e ⊎ Any P xs
  Any-of_insert e [] h = unfold insert in h
  Any-of_insert e (x ∷ xs) h = elim (insert_cases e x xs) [
    | inl (q, t) ↦ inr (subst (Any P) t h)
    | inr (inl t) ↦ subst (Any P) t h
    | inr (inr t) ↦
        let k : Any P (x ∷ insert e xs) = subst (Any P) t h in
        elim k [
          | inl p ↦ inr (inl p)
          | inr p ↦ elim (Any-of_insert e xs p) [ inl p' ↦ inl p' | inr p' ↦ inr (inr p') ]
        ]
  ]
