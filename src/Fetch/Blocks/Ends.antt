-- ===== src/Fetch/Blocks/Ends.antt =====
-- What holds where a part of the fetcher's loop ends.
use simply_kaspa_indexer.Fetch.Blocks.{State, Flow, goes_on, waits, panicked, ◌>>>◌}

-- `P` where the flow goes on, and `W` where it waits.
pub data Ends {A : Type 0} (W : State → Type 0) (P : A → Type 0) : Flow A → Type 0 where
  on : {a : A} → P a → Ends W P (goes_on a)
  full : {s : State} → W s → Ends W P (waits s)
  lost : Ends W P panicked

pub Ends-then :
    {A B : Type 0} {W : State → Type 0} {P : A → Type 0} {Q : B → Type 0} (d : Flow A)
    (f : A → Flow B)
    → Ends W P d
    → ((a : A) → P a → Ends W Q (f a))
    → Ends W Q (d >>> f)
Ends-then (goes_on a) f (on h) k = k a h
Ends-then (waits s) f (full h) k = full h
Ends-then panicked f lost k = lost

pub Ends-goes_on :
    {A : Type 0} {W : State → Type 0} {P : A → Type 0} {a : A} → Ends W P (goes_on a) → P a
Ends-goes_on (on h) = h

pub Ends-waits :
    {A : Type 0} {W : State → Type 0} {P : A → Type 0} {s : State} → Ends W P (waits s) → W s
Ends-waits (full h) = h

pub Ends-imp :
    {A : Type 0} {W : State → Type 0} {P Q : A → Type 0} (d : Flow A)
    → ((a : A) → P a → Q a)
    → Ends W P d
    → Ends W Q d
Ends-imp (goes_on a) f (on h) = on (f a h)
Ends-imp (waits s) f (full h) = full h
Ends-imp panicked f lost = lost
