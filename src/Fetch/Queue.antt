-- ===== src/Fetch/Queue.antt =====
-- What a loop that pushes does to a bounded queue.
use native.Mathlib.Nat.{le_trans}
use simply_kaspa_indexer.Prelude.{
  Option-cases, zero, suc, lt→ltb, suc, Any, subst, ◌<◌, ℕ, ◌≤◌, ◌≡◌, inl, inr, refl, sym, ap, ◌∙◌,
  false, List, [], ◌∷◌, ◌++◌, append_assoc, length, length-append, length-drop, take, drop,
  take-append-drop, All, ltb, arith, Bool-cases, ltb→lt,
}
use simply_kaspa_indexer.Fetch.{
  Push, IsBounded, Traffic, Turn, pop, Pushing, past, asleep, push_loop,
}

-- All that was ever queued, oldest first.
abbrev pub entered : {A : Type 0} → Traffic A → List A
entered q = q.taken ++ q.waiting

abbrev pub queue : {A : Type 0} → Pushing A → Traffic A
queue (past q) = q
queue (asleep q) = q

abbrev pub Running : List Turn → Type 0
Running = All (λ t. t.shutdown ≡ false)

-- The turns of a loop that ends with its item queued: no shutdown, and the processor pops an item.
abbrev pub Served : List Turn → Type 0
Served ts = Running ts × Any (λ t. 0 < t.popped) ts

abbrev append : {A : Type 0} → A → Traffic A → Traffic A
append a q = record q { waiting = q.waiting ++ a ∷ [] }

module _ {A : Type 0} where
  entered-pop : (n : ℕ) (q : Traffic A) → entered (pop n q) ≡ entered q
  unfolding pop
  entered-pop n q =
      append_assoc q.taken (take n q.waiting) (drop n q.waiting)
      ∙ ap (λ xs. q.taken ++ xs) (take-append-drop n q.waiting)

  entered-append : (a : A) (q : Traffic A) → entered (append a q) ≡ entered q ++ a ∷ []
  entered-append a q = sym (append_assoc q.taken q.waiting (a ∷ []))

  -- What the loop has done to the queue, by where it stands.
  abbrev pub PushedTo : A → Traffic A → Pushing A → Type 0
  PushedTo a q (past q') = entered q' ≡ entered q ++ a ∷ []
  PushedTo a q (asleep q') = entered q' ≡ entered q

  PushedTo-pop :
      (n : ℕ) (a : A) (q : Traffic A) (p : Pushing A) → PushedTo a (pop n q) p → PushedTo a q p
  PushedTo-pop n a q (past q') h = h ∙ ap (λ xs. xs ++ a ∷ []) (entered-pop n q)
  PushedTo-pop n a q (asleep q') h = h ∙ entered-pop n q

  -- Before a shutdown the loop ends exactly with the item queued, behind all others.
  pub push_loop-PushedTo :
      (capacity : ℕ) (push : Push A) (a : A) (ts : List Turn) (q : Traffic A)
      → IsBounded capacity push
      → Running ts
      → PushedTo a q (push_loop push a ts q)
  unfolding push_loop
  push_loop-PushedTo capacity push a [] q law on = refl
  push_loop-PushedTo capacity push a (t ∷ ts) q law on =
      elim (Bool-cases (ltb (length (pop t.popped q).waiting) capacity)) [
        | inl room ↦
            rw (on.0, law (pop t.popped q).waiting a, room)
              (entered-append a (pop t.popped q) ∙ ap (λ xs. xs ++ a ∷ []) (entered-pop t.popped q))
        | inr full ↦
            rw (on.0, law (pop t.popped q).waiting a, full)
              (PushedTo-pop t.popped a q (push_loop push a ts (pop t.popped q))
                (push_loop-PushedTo capacity push a ts (pop t.popped q) law on.1))
      ]

  -- The queue never holds more than its capacity.
  pub push_loop-capacity :
      (capacity : ℕ) (push : Push A) (a : A) (ts : List Turn) (q : Traffic A)
      → IsBounded capacity push
      → length q.waiting ≤ capacity
      → length (queue (push_loop push a ts q)).waiting ≤ capacity
  unfolding push_loop pop
  push_loop-capacity capacity push a [] q law h = h
  push_loop-capacity capacity push a (t ∷ ts) q law h =
      let fits = le_trans (length-drop t.popped q.waiting) h in
      elim (Bool-cases t.shutdown) [
        | inl stop ↦ rw stop fits
        | inr go ↦ elim (Bool-cases (ltb (length (drop t.popped q.waiting)) capacity)) [
          | inl room ↦
              rw (go, law (drop t.popped q.waiting) a, room)
                (omega (
                  arith,
                  length-append (drop t.popped q.waiting) (a ∷ []),
                  ltb→lt (length (drop t.popped q.waiting)) capacity room,
                ))
          | inr full ↦
              rw (go, law (drop t.popped q.waiting) a, full)
                (push_loop-capacity capacity push a ts (pop t.popped q) law fits)
        ]
      ]

length-drop_lt :
    {A : Type 0} (n capacity : ℕ) (xs : List A)
    → 0 < n
    → 0 < capacity
    → length xs ≤ capacity
    → length (drop n xs) < capacity
length-drop_lt zero capacity xs hn hc h = absurd (omega arith)
length-drop_lt (suc n) capacity [] hn hc h = hc
length-drop_lt (suc n) capacity (x ∷ xs) hn hc h = omega (arith, length-drop n xs)

module _ {A : Type 0} (capacity : ℕ) (positive : 0 < capacity) (push : Push A)
    (law : IsBounded capacity push) where
  -- The loop ends where the processor pops an item at one of its turns.
  pub push_loop_ends :
      (a : A) (ts : List Turn) (q : Traffic A)
      → Any (λ t. 0 < t.popped) ts
      → length q.waiting ≤ capacity
      → (q' : Traffic A) × (push_loop push a ts q ≡ past q')
  unfolding push_loop pop
  push_loop_ends a [] q h fits = absurd h
  push_loop_ends a (t ∷ ts) q h fits = elim (Bool-cases t.shutdown) [
    | inl stop ↦ (pop t.popped q, rw stop refl)
    | inr go ↦ elim (Bool-cases (ltb (length (drop t.popped q.waiting)) capacity)) [
      | inl room ↦ (append a (pop t.popped q), rw (go, law (drop t.popped q.waiting) a, room) refl)
      | inr full ↦ elim h [
        | inl pops ↦
            let room = lt→ltb _ _ (length-drop_lt t.popped capacity q.waiting pops positive fits) in
            cc
        | inr later ↦
            let (q', e) =
              push_loop_ends a ts (pop t.popped q) later
                (le_trans (length-drop t.popped q.waiting) fits) in
            (q', rw (go, law (drop t.popped q.waiting) a, full) e)
      ]
    ]
  ]

  pub push_loop-Served :
      (a : A) (ts : List Turn) (q : Traffic A)
      → Served ts
      → length q.waiting ≤ capacity
      → (q' : Traffic A) × (push_loop push a ts q ≡ past q')
        × (entered q' ≡ entered q ++ a ∷ [])
        × (length q'.waiting ≤ capacity)
  push_loop-Served a ts q served fits =
      let (q', e) = push_loop_ends a ts q served.1 fits in
      (
        q',
        e,
        subst (PushedTo a q) e (push_loop-PushedTo capacity push a ts q law served.0),
        subst (λ p. length (queue p).waiting ≤ capacity) e
            (push_loop-capacity capacity push a ts q law fits),
      )

module _ {A : Type 0} where
  -- A queue from which nothing is popped.
  pub push_loop-untaken :
      (push : Push A) (a : A) (ts : List Turn) (q : Traffic A)
      → All (λ t. t.popped ≡ 0) ts
      → q.taken ≡ []
      → (queue (push_loop push a ts q)).taken ≡ []
  unfolding push_loop pop
  push_loop-untaken push a [] q none_taken e = e
  push_loop-untaken push a (t ∷ ts) q none_taken e =
      let still : (pop t.popped q).taken ≡ [] = rw (none_taken.0, e) refl in
      elim (Bool-cases t.shutdown) [
        | inl stop ↦ rw stop still
        | inr go ↦ elim (Option-cases (push (pop t.popped q).waiting a)) [
          | inl full ↦
              rw (go, full) (push_loop-untaken push a ts (pop t.popped q) none_taken.1 still)
          | inr (xs, room) ↦ rw (go, room) still
        ]
      ]
