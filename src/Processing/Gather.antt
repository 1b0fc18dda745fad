-- ===== src/Processing/Gather.antt =====
-- The statements of one function hold the rows that it is given, in order.
use simply_kaspa_indexer.Prelude.{
  length-drop, ℕ, zero, suc, ◌≤◌, ◌<◌, ◌≡◌, ◌∙◌, refl, ap, some, List, [], ◌∷◌, ◌++◌, map, take,
  drop, length, take-append-drop, gather, arith,
}
use simply_kaspa_indexer.Database.Insert.{Insertion}
use simply_kaspa_indexer.Processing.{Event, sent}
use simply_kaspa_indexer.Database.Batches.{chunks, chunks_from}

-- The chunks, put together again.
module _ {A : Type 0} where
  gather-chunks_from :
      (fuel size : ℕ) (xs : List A)
      → 0 < size
      → length xs ≤ fuel
      → gather (λ part. part) (chunks_from fuel size xs) ≡ xs
  unfolding chunks_from
  gather-chunks_from zero size [] pos enough = refl
  gather-chunks_from (suc fuel) size [] pos enough = refl
  gather-chunks_from zero size (x ∷ xs) pos enough = absurd (omega arith)
  gather-chunks_from (suc fuel) zero (x ∷ xs) pos enough = absurd (omega arith)
  gather-chunks_from (suc fuel) (suc size) (x ∷ xs) pos enough =
      ap (λ ys. take (suc size) (x ∷ xs) ++ ys)
        (gather-chunks_from fuel (suc size) (drop size xs) pos
          (omega (arith, length-drop size xs, enough)))
      ∙ take-append-drop (suc size) (x ∷ xs)

  pub gather-chunks :
      (size : ℕ) (xs : List A) {parts : List (List A)}
      → chunks size xs ≡ some parts
      → gather (λ part. part) parts ≡ xs
  unfolding chunks
  gather-chunks zero xs e = ground arith
  gather-chunks (suc size) xs e =
      let all = gather-chunks_from (length xs) (suc size) xs (omega arith) (omega arith) in
      ground arith

  -- What `f` reads of the statements that are made of the chunks.
  pub gather-calls :
      (f : Event → List A) (call : List A → Insertion) (parts : List (List A))
      → ((part : List A) → f (sent (call part)) ≡ part)
      → gather f (map sent (map call parts)) ≡ gather (λ part. part) parts
  gather-calls f call [] h = refl
  gather-calls f call (part ∷ parts) h = rw (h part, gather-calls f call parts h) refl

  pub gather-other :
      (f : Event → List A) {B : Type 0} (call : List B → Insertion) (parts : List (List B))
      → ((part : List B) → f (sent (call part)) ≡ [])
      → gather f (map sent (map call parts)) ≡ []
  gather-other f call [] h = refl
  gather-other f call (part ∷ parts) h = rw (h part) (gather-other f call parts h)
