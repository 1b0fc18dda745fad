-- ===== src/Database/Batches/Cover.antt =====
-- Sorting and cutting lose no row.
use Prim.Native.Nat.{Ordering}
use simply_kaspa_indexer.Prelude.{
  length-drop, map, ℕ, zero, suc, ◌≤◌, ◌<◌, ◌≡◌, sym, some, List, [], ◌∷◌, ◌++◌, take, drop, length,
  take-append-drop, subst, Any, inl, inr, ◌⊎◌, arith,
}
use simply_kaspa_indexer.Database.Batches.{place, insert_sorted, sort_by, chunks_from, chunks}

module _ {A : Type 0} (P : A → Type 0) where
  pub Any-append_left : (xs ys : List A) → Any P xs → Any P (xs ++ ys)
  Any-append_left [] ys h = absurd h
  Any-append_left (x ∷ xs) ys (inl p) = inl p
  Any-append_left (x ∷ xs) ys (inr h) = inr (Any-append_left xs ys h)

  pub Any-append_right : (xs ys : List A) → Any P ys → Any P (xs ++ ys)
  Any-append_right [] ys h = h
  Any-append_right (x ∷ xs) ys h = inr (Any-append_right xs ys h)

  pub Any-append : (xs ys : List A) → Any P (xs ++ ys) → Any P xs ⊎ Any P ys
  Any-append [] ys h = inr h
  Any-append (x ∷ xs) ys (inl p) = inl (inl p)
  Any-append (x ∷ xs) ys (inr h) = elim (Any-append xs ys h) [ inl l ↦ inl (inr l) | inr r ↦ inr r ]

  place-Any :
      (o : Ordering) (a b : A) (bs later : List A)
      → (Any P (a ∷ bs) → Any P later)
      → Any P (a ∷ b ∷ bs)
      → Any P (place o a b bs later)
  unfolding place
  place-Any Ordering.lt a b bs later f h = h
  place-Any Ordering.eq a b bs later f h = h
  place-Any Ordering.gt a b bs later f (inl p) = inr (f (inl p))
  place-Any Ordering.gt a b bs later f (inr (inl q)) = inl q
  place-Any Ordering.gt a b bs later f (inr (inr q)) = inr (f (inr q))

  insert_sorted-Any :
      (cmp : A → A → Ordering) (a : A) (bs : List A)
      → Any P (a ∷ bs)
      → Any P (insert_sorted cmp a bs)
  unfolding insert_sorted
  insert_sorted-Any cmp a [] h = h
  insert_sorted-Any cmp a (b ∷ bs) h =
      place-Any (cmp a b) a b bs (insert_sorted cmp a bs) (insert_sorted-Any cmp a bs) h

  pub sort_by-Any : (cmp : A → A → Ordering) (rest : List A) → Any P rest → Any P (sort_by cmp rest)
  unfolding sort_by
  sort_by-Any cmp [] h = absurd h
  sort_by-Any cmp (a ∷ rest) (inl p) = insert_sorted-Any cmp a (sort_by cmp rest) (inl p)
  sort_by-Any cmp (a ∷ rest) (inr h) =
      insert_sorted-Any cmp a (sort_by cmp rest) (inr (sort_by-Any cmp rest h))

  chunks_from-Any :
      (fuel size : ℕ) (xs : List A)
      → 0 < size
      → length xs ≤ fuel
      → Any P xs
      → Any (Any P) (chunks_from fuel size xs)
  unfolding chunks_from
  chunks_from-Any fuel size [] pos enough h = absurd h
  chunks_from-Any zero size (x ∷ xs) pos enough h = absurd (omega arith)
  chunks_from-Any (suc fuel) zero (x ∷ xs) pos enough h = absurd (omega arith)
  chunks_from-Any (suc fuel) (suc size) (x ∷ xs) pos enough h =
      elim (Any-append (take (suc size) (x ∷ xs)) (drop size xs)
        (subst (Any P) (sym (take-append-drop (suc size) (x ∷ xs))) h)) [
          | inl here ↦ inl here
          | inr later ↦ inr (
              chunks_from-Any fuel (suc size) (drop size xs) pos
                (omega (arith, length-drop size xs, enough)) later)
        ]

  -- Every element is in some chunk.
  pub chunks-Any :
      (size : ℕ) (xs : List A) {parts : List (List A)}
      → chunks size xs ≡ some parts
      → Any P xs
      → Any (Any P) parts
  unfolding chunks
  chunks-Any zero xs e h = ground arith
  chunks-Any (suc size) xs e h =
      let covered = chunks_from-Any (length xs) (suc size) xs (omega arith) (omega arith) h in
      ground arith

  pub Any-map :
      {B : Type 0} (Q : B → Type 0) (f : A → B) (xs : List A)
      → ((a : A) → P a → Q (f a))
      → Any P xs
      → Any Q (map f xs)
  Any-map Q f [] h found = absurd found
  Any-map Q f (x ∷ xs) h (inl p) = inl (h x p)
  Any-map Q f (x ∷ xs) h (inr q) = inr (Any-map Q f xs h q)
