-- ===== src/FileDescriptor/Writing.antt =====
-- The loop of `FileDescriptor::write`, libsponge/util/file_descriptor.cc.
use sponge.Prelude.{
  ℕ, zero, suc, ◌-◌, ◌+◌, ◌≤◌, ◌<◌, ◌^◌, ◌≡◌, ◌⊎◌, refl, ap, ◌∙◌, sym, inl, inr, true, false,
  Bool-cases, Option-cases, ◌++◌, Bytes, length, take, drop, length-drop, take-append-drop,
  append_assoc, Option, none, some, ◌==◌, add64, arith, List, append-nil, subst, take_all, ap₂,
  take_add,
}
use sponge.BufferViewList.{BufferViewList, Iovec, remove_prefix, size, as_iovecs}
use sponge.BufferViewList.Equivalence.{
  shown, gathered, gathered-as_iovecs, size_from-shown, remove_prefix-Removed, Removed, cut,
  too_short,
}
use sponge.FileDescriptor.{
  FdWrapper, Outcome, returned, thrown, register_write, is_refused, write_from, write,
}

-- What is relied on of `writev`: it sends a first part of the bytes that it is given and returns
-- its length, or it fails and sends nothing.
pub record Sends {K : Type 0} (writev : K → List Iovec → Option ℕ × K) (sent : K → Bytes)
    : Type 0 where
  pub failed : (k : K) (v : List Iovec) → (writev k v).0 ≡ none → sent (writev k v).1 ≡ sent k
  pub within : (k : K) (v : List Iovec) (n : ℕ) → (writev k v).0 ≡ some n → n ≤ length (gathered v)
  pub sends :
      (k : K) (v : List Iovec) (n : ℕ)
      → (writev k v).0 ≡ some n
      → sent (writev k v).1 ≡ sent k ++ take n (gathered v)

module _ {K : Type 0} (writev : K → List Iovec → Option ℕ × K) (sent : K → Bytes) where
  -- The calls of `writev` by which the kernel takes a first part of the bytes, one after the other,
  -- each given all that is left; the kernel and the bytes behind the last.
  pub data Calls : K → Bytes → K → Bytes → Type 0 where
    no_more : {k : K} {bytes : Bytes} → Calls k bytes k bytes
    call :
        {k k' : K} {bytes left : Bytes} (v : List Iovec) (n : ℕ)
        → gathered v ≡ bytes
        → (writev k v).0 ≡ some n
        → 0 < n
        → Calls (writev k v).1 (drop n bytes) k' left
        → Calls k bytes k' left

  -- The call that came next has failed, or has taken none of the bytes that are left.
  pub record Refused (k : K) (bytes : Bytes) (k' : K) : Type 0 where
    pub before : K
    pub left : Bytes
    pub calls : Calls k bytes before left
    pub given : List Iovec
    pub rest : gathered given ≡ left
    pub after : k' ≡ (writev before given).1
    pub answer :
        ((writev before given).0 ≡ none) ⊎ (((writev before given).0 ≡ some 0) × (0 < length left))

  -- How a `write` of all the bytes ends.
  pub data Ends (k : K) (bytes : Bytes) (total : ℕ) : Outcome K → Type 0 where
    all_sent :
        (k' : K) (w' : FdWrapper)
        → sent k' ≡ sent k ++ bytes
        → Ends k bytes total (returned k' w' (add64 total (length bytes)))
    part_sent :
        (k' : K) (w' : FdWrapper) (m : ℕ)
        → sent k' ≡ sent k ++ take m bytes
        → Refused k bytes k'
        → Ends k bytes total (thrown k' w')

  -- Bytes that were sent before are sent first.
  Ends-later :
      (k : K) (v : List Iovec) (n total : ℕ) (bytes : Bytes)
      → n ≤ length bytes
      → sent (writev k v).1 ≡ sent k ++ take n bytes
      → gathered v ≡ bytes
      → (writev k v).0 ≡ some n
      → 0 < n
      → {o : Outcome K} → Ends (writev k v).1 (drop n bytes) (add64 total n) o
      → Ends k bytes total o
  Ends-later k v n total bytes h s g a pos (all_sent k'' w e) =
      subst (λ t. Ends k bytes total (returned k'' w t)) {x = add64 total (length bytes)}
        (omega (arith, length-drop n bytes))
        (all_sent k'' w (
          e
          ∙ ap (λ t. t ++ drop n bytes) s
          ∙ append_assoc (sent k) (take n bytes) (drop n bytes)
          ∙ ap (◌++◌ (sent k)) (take-append-drop n bytes)))
  Ends-later k v n total bytes h s g a pos (part_sent k'' w m e r) =
      part_sent k'' w (n + m)
        (e
          ∙ ap (λ t. t ++ take m (drop n bytes)) s
          ∙ append_assoc (sent k) (take n bytes) (take m (drop n bytes))
          ∙ ap (◌++◌ (sent k)) (take_add n m bytes))
        (record {
          before = r.before;
          left = r.left;
          calls = call v n g a pos r.calls;
          given = r.given;
          rest = r.rest;
          after = r.after;
          answer = r.answer;
        })

views_left :
    (n : ℕ) (bytes : Bytes) {r : Option BufferViewList}
    → n ≤ length bytes
    → Removed n bytes r
    → (rest : BufferViewList) × (r ≡ some rest) × (shown rest ≡ drop n bytes)
views_left n bytes h (cut rest _ e) = (rest, refl, e)
views_left n bytes h (too_short lt) = absurd (omega arith)

size-shown :
    (views : BufferViewList) → length (shown views) < 2 ^ 64 → size views ≡ length (shown views)
size-shown views h = omega (arith, size_from-shown 0 views (omega arith))

module _ {K : Type 0} (writev : K → List Iovec → Option ℕ × K) (sent : K → Bytes)
    (law : Sends writev sent) where
  abbrev Finish : ℕ → K → FdWrapper → BufferViewList → ℕ → Type 0
  Finish fuel k w buffer total =
      Ends writev sent k (shown buffer) total (write_from writev fuel true k w buffer total)

  stopped :
      (fuel : ℕ) (k : K) (w : FdWrapper) (buffer : BufferViewList) (total : ℕ)
      → (writev k (as_iovecs buffer)).0 ≡ none
      → Finish (suc fuel) k w buffer total
  unfolding write_from
  stopped fuel k w buffer total e =
      rw (e, write_from)
        (part_sent (writev k (as_iovecs buffer)).1 w 0
          (law.failed k (as_iovecs buffer) e ∙ sym (append-nil (sent k)))
          (record {
            before = k;
            left = shown buffer;
            calls = no_more;
            given = as_iovecs buffer;
            rest = gathered-as_iovecs buffer;
            after = refl;
            answer = inl e;
          }))

  -- A turn that has taken `n` bytes, which the tests let pass.
  went_on :
      (fuel : ℕ) (k : K) (w : FdWrapper) (buffer : BufferViewList) (total n : ℕ)
      → (writev k (as_iovecs buffer)).0 ≡ some n
      → length (shown buffer) < 2 ^ 64
      → is_refused buffer n ≡ false
      → (rest : BufferViewList) → remove_prefix buffer n ≡ some rest
      → shown rest ≡ drop n (shown buffer)
      → n ≤ length (shown buffer)
      → ((size rest == 0) ≡ false
          → Finish fuel (writev k (as_iovecs buffer)).1 (register_write w) rest (add64 total n))
      → Finish (suc fuel) k w buffer total
  unfolding write_from
  went_on fuel k w buffer total n e small ok rest r s le ih =
      let k' = (writev k (as_iovecs buffer)).1 in
      let sends : sent k' ≡ sent k ++ take n (shown buffer) =
        law.sends k (as_iovecs buffer) n e
        ∙ ap (λ t. sent k ++ take n t) (gathered-as_iovecs buffer) in
      elim (Bool-cases (size rest == 0)) [
        | inl done ↦
            let all : length (shown buffer) ≡ n = ground (
              arith,
              size-shown rest (omega (arith, ap (length {A = ℕ}) s, length-drop n (shown buffer))),
              ap (length {A = ℕ}) s,
              length-drop n (shown buffer),
            ) in
            rw (e, write_from)
              (rw ok (
                rw r (
                  rw done (
                    subst
                      (λ t.
                        Ends writev sent k (shown buffer) total
                          (returned k' (register_write w) (add64 total t)))
                      all
                      (all_sent k' (register_write w)
                        (sends ∙ ap (◌++◌ (sent k)) (take_all n (shown buffer) (omega arith))))))))
        | inr more ↦
            let positive : 0 < n = ground (
              arith,
              size-shown buffer small,
              size-shown rest (omega (arith, ap (length {A = ℕ}) s, length-drop n (shown buffer))),
              ap (length {A = ℕ}) s,
              length-drop n (shown buffer),
            ) in
            rw (e, write_from)
              (rw ok (
                rw r (
                  rw more (
                    Ends-later writev sent k (as_iovecs buffer) n total (shown buffer) le sends
                      (gathered-as_iovecs buffer) e positive
                      (subst
                        (λ t.
                          Ends writev sent k' t (add64 total n) (
                            write_from writev fuel true k' (register_write w) rest (add64 total n)))
                        s (ih more))))))
      ]

  -- A turn in which the kernel takes nothing, though there is something to take.
  refused :
      (fuel : ℕ) (k : K) (w : FdWrapper) (buffer : BufferViewList) (total n : ℕ)
      → (writev k (as_iovecs buffer)).0 ≡ some n
      → n ≡ 0
      → 0 < length (shown buffer)
      → is_refused buffer n ≡ true
      → Finish (suc fuel) k w buffer total
  unfolding write_from
  refused fuel k w buffer total n e z left h =
      rw (e, write_from)
        (rw h (
          part_sent (writev k (as_iovecs buffer)).1 w 0
            (law.sends k (as_iovecs buffer) n e
              ∙ ap (λ t. sent k ++ take t (gathered (as_iovecs buffer))) z)
            (record {
              before = k;
              left = shown buffer;
              calls = no_more;
              given = as_iovecs buffer;
              rest = gathered-as_iovecs buffer;
              after = refl;
              answer = inr (e ∙ ap some z, left);
            })))

  finish :
      (fuel : ℕ) (k : K) (w : FdWrapper) (buffer : BufferViewList) (total : ℕ)
      → length (shown buffer) < 2 ^ 64
      → length (shown buffer) < fuel
      → Finish fuel k w buffer total
  finish zero k w buffer total small enough = absurd (omega arith)
  finish (suc fuel) k w buffer total small enough =
      elim (Option-cases (writev k (as_iovecs buffer)).0) [
        | inl e ↦ stopped fuel k w buffer total e
        | inr (n, e) ↦
            let le : n ≤ length (shown buffer) = omega (
              arith,
              law.within k (as_iovecs buffer) n e,
              ap (length {A = ℕ}) (gathered-as_iovecs buffer),
            ) in
            let sized : size buffer ≡ length (shown buffer) = size-shown buffer small in
            elim (Bool-cases (is_refused buffer n)) [
              | inl h ↦ refused fuel k w buffer total n e (ground arith) (ground (arith, sized)) h
              | inr h ↦
                  let (rest, r, s) =
                    views_left n (shown buffer) le (remove_prefix-Removed buffer n) in
                  let left : length (shown rest) ≡ length (shown buffer) - n =
                    omega (arith, ap (length {A = ℕ}) s, length-drop n (shown buffer)) in
                  went_on fuel k w buffer total n e small h rest r s le (λ more.
                    finish fuel (writev k (as_iovecs buffer)).1 (register_write w) rest
                      (add64 total n) (omega arith) (ground (arith, size-shown rest (omega arith))))
            ]
      ]

  -- For a writev that sends a first part of the bytes it is given and returns its length, or
  -- fails and sends nothing, and fewer than 2 ^ 64 bytes: write of all of them ends within one
  -- turn more than there are bytes. Either it returns their number and exactly they were sent, in
  -- order, however the kernel has cut them, or it throws when a first part of them was sent, and
  -- then the run was this: calls of writev, each given all that was left, took a part each, and
  -- the next, given what was left then, failed or took none of it, and left the kernel as it is
  -- at the throw.
  pub write-Ends :
      (fuel : ℕ) (k : K) (w : FdWrapper) (buffer : BufferViewList)
      → length (shown buffer) < 2 ^ 64
      → length (shown buffer) < fuel
      → Ends writev sent k (shown buffer) 0 (write writev fuel true k w buffer)
  write-Ends fuel k w buffer small enough = finish fuel k w buffer 0 small enough

  -- One turn, where not all has to be written: what the call of `writev` has taken is counted.
  once_with :
      (k : K) (w : FdWrapper) (buffer : BufferViewList) (n : ℕ) (o : Option BufferViewList)
      → (writev k (as_iovecs buffer)).0 ≡ some n
      → (k' : K) (w' : FdWrapper) (total : ℕ)
      → (elim o as (λ _. Outcome K) [
        | none ↦ thrown (writev k (as_iovecs buffer)).1 (register_write w)
        | some rest ↦ returned (writev k (as_iovecs buffer)).1 (register_write w) (add64 0 n)
      ])
        ≡ returned k' w' total
      → length (shown buffer) < 2 ^ 64
      → (sent k' ≡ sent k ++ take total (shown buffer)) × (total ≤ length (shown buffer))
  once_with k w buffer n none e k' w' total h small = absurd (ground arith)
  once_with k w buffer n (some rest) e k' w' total h small =
      let le : n ≤ length (shown buffer) = omega (
        arith,
        law.within k (as_iovecs buffer) n e,
        ap (length {A = ℕ}) (gathered-as_iovecs buffer),
      ) in
      let total_n : n ≡ total = ground arith in
      let same : (writev k (as_iovecs buffer)).1 ≡ k' = ground arith in
      (
        ap sent (sym same)
            ∙ law.sends k (as_iovecs buffer) n e
            ∙ ap₂ (λ t m. sent k ++ take m t) (gathered-as_iovecs buffer) total_n,
        omega arith,
      )

  pub write_once :
      (k : K) (w : FdWrapper) (buffer : BufferViewList) (k' : K) (w' : FdWrapper) (total : ℕ)
      → length (shown buffer) < 2 ^ 64
      → write writev 1 false k w buffer ≡ returned k' w' total
      → (sent k' ≡ sent k ++ take total (shown buffer)) × (total ≤ length (shown buffer))
  unfolding write_from
  write_once k w buffer k' w' total small h = elim (Option-cases (writev k (as_iovecs buffer)).0) [
    | inl e ↦ absurd (ground (arith, e, h))
    | inr (n, e) ↦ elim (Bool-cases (is_refused buffer n)) [
      | inl r ↦ absurd (ground (arith, e, r, h))
      | inr r ↦
          once_with k w buffer n (remove_prefix buffer n) e k' w' total
            (rw (r, write_from) at (rw (e, write_from) at h)) small
    ]
  ]
