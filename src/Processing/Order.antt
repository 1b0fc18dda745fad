-- ===== src/Processing/Order.antt =====
-- Events in the order in which they happen: what must have happened before a report.
use simply_kaspa_indexer.Prelude.{
  ◌≡◌, refl, Bool, some, List, [], ◌∷◌, ◌++◌, map, All, Any, All-imp, inl, inr, arith, Option-cases,
}
use simply_kaspa_indexer.Checkpoint.{CheckpointBlock}
use simply_kaspa_indexer.Database.Insert.{Insertion}
use simply_kaspa_indexer.Processing.{Event, sent, reported, send}

-- An accepted statement of which `In` holds.
abbrev pub Sent : (Insertion → Type 0) → Event → Type 0
Sent In (sent i) = In i
Sent In (reported c) = ⊥

-- The events so far, newest first, once more of them have happened.
abbrev pub after : List Event → List Event → List Event
after [] seen = seen
after (e ∷ es) seen = after es (e ∷ seen)

pub after_append : (es fs seen : List Event) → after (es ++ fs) seen ≡ after fs (after es seen)
after_append [] fs seen = refl
after_append (e ∷ es) fs seen = after_append es fs (e ∷ seen)

module _ (P : Event → Type 0) where
  pub Any-after_earlier : (es seen : List Event) → Any P seen → Any P (after es seen)
  Any-after_earlier [] seen h = h
  Any-after_earlier (e ∷ es) seen h = Any-after_earlier es (e ∷ seen) (inr h)

  pub Any-after : (es seen : List Event) → Any P es → Any P (after es seen)
  Any-after [] seen h = absurd h
  Any-after (e ∷ es) seen (inl p) = Any-after_earlier es (e ∷ seen) (inl p)
  Any-after (e ∷ es) seen (inr h) = Any-after es (e ∷ seen) h

-- `Cov seen c` says that the events `seen` allow the report of `c`.
module _ (Cov : List Event → CheckpointBlock → Type 0) where
  abbrev pub Ordered : List Event → List Event → Type 0
  Ordered seen [] = Unit
  Ordered seen (sent i ∷ es) = Ordered (sent i ∷ seen) es
  Ordered seen (reported c ∷ es) = Cov seen c × Ordered (reported c ∷ seen) es

  pub Ordered-append :
      (seen es fs : List Event)
      → Ordered seen es
      → Ordered (after es seen) fs
      → Ordered seen (es ++ fs)
  Ordered-append seen [] fs h k = k
  Ordered-append seen (sent i ∷ es) fs h k = Ordered-append (sent i ∷ seen) es fs h k
  Ordered-append seen (reported c ∷ es) fs h k =
      (h.0, Ordered-append (reported c ∷ seen) es fs h.1 k)

  pub Ordered-sent : (seen : List Event) (calls : List Insertion) → Ordered seen (map sent calls)
  Ordered-sent seen [] = tt
  Ordered-sent seen (i ∷ calls) = Ordered-sent (sent i ∷ seen) calls

  pub Ordered-reported :
      (seen : List Event) (cs : List CheckpointBlock)
      → ((seen : List Event) (e : Event) (c : CheckpointBlock) → Cov seen c → Cov (e ∷ seen) c)
      → All (Cov seen) cs
      → Ordered seen (map reported cs)
  Ordered-reported seen [] mono h = tt
  Ordered-reported seen (c ∷ cs) mono h =
      (h.0, Ordered-reported (reported c ∷ seen) cs mono (All-imp (mono seen (reported c)) cs h.1))

-- What is sent, where nothing panics.
pub send_lem :
    (accepts : Insertion → Bool) (calls : List Insertion) {events : List Event}
    → send accepts calls ≡ some events
    → events ≡ map sent calls
unfolding send
send_lem accepts [] e = ground arith
send_lem accepts (i ∷ calls) e = elim (Option-cases (send accepts calls)) [
  | inl panic ↦ ground arith
  | inr (rest, done) ↦ ground (arith, send_lem accepts calls done)
]

pub sent_Any :
    (In : Insertion → Type 0) (calls : List Insertion)
    → Any In calls
    → Any (Sent In) (map sent calls)
sent_Any In [] h = absurd h
sent_Any In (i ∷ calls) (inl p) = inl p
sent_Any In (i ∷ calls) (inr h) = inr (sent_Any In calls h)
