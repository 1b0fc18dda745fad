-- ===== src/Prune/Parts.antt =====
-- What the parts of a run do to the tables and the metrics.
use simply_kaspa_indexer.Prelude.{
  sym, subst, ap, ◌∙◌, inr, inl, Bool-cases, ℕ, ◌+◌, ◌≤◌, ◌≡◌, refl, Bool, true, not, some, List,
  [], ◌∷◌, ℤ, length, arith,
}
use simply_kaspa_indexer.Database.Delete.{
  Tables, PruneResult, ok, err, panic, more_fuel, retain, count,
}
use simply_kaspa_indexer.Database.Client.Pruned.{PrunesAtLast}
use simply_kaspa_indexer.Prune.{
  StepName, State, Flow, goes_on, returned, panicked, ◌>>>◌, after_call, prune_step, Setup,
  return_on_shutdown,
}

-- What holds where a part goes on, and where it has returned. It has not panicked.
abbrev pub Holds : (State → Type 0) → (State → Type 0) → Flow → Type 0
Holds on off (goes_on s) = on s
Holds on off (returned s) = off s
Holds on off panicked = ⊥

pub >>>-Holds :
    {P : State → Type 0} (Q off : State → Type 0) (m : Flow) (f : State → Flow)
    → Holds P off m
    → ((s : State) → P s → Holds Q off (f s))
    → Holds Q off (m >>> f)
>>>-Holds Q off (goes_on s) f h next = next s h
>>>-Holds Q off (returned s) f h next = h
>>>-Holds Q off panicked f h next = h

-- The run has not ended by itself.
abbrev pub Runs : State → Type 0
Runs s = s.db_pruner.running ≡ some true

-- A run that a signal has ended.
abbrev pub Stopped : Setup → State → Type 0
Stopped setup s = Runs s × (i : ℕ) × (setup.shutdown i ≡ true)

-- A part that writes to some tables only, by `put`, and leaves `x` there if no step has failed.
abbrev pub Leaves : State → {X : Type 0} → (X → Tables) → X → State → Type 0
Leaves s {X} put x s' =
    Runs s' × (y : X) × (s'.tables ≡ put y) × (s'.step_errors ≡ 0 → (s.step_errors ≡ 0) × (y ≡ x))

abbrev pub kept : {R : Type 0} → (R → Bool) → List R → List R
kept expired rows = retain (λ r. not (expired r)) rows

pub count_le_length : {R : Type 0} (p : R → Bool) (rows : List R) → count p rows ≤ length rows
unfolding count
count_le_length p [] = omega arith
count_le_length p (r ∷ rows) = ground (arith, count_le_length p rows)

not_zero : (n : ℕ) → ¬ (n + 1 ≡ 0)
not_zero n h = omega arith

after_call-Leaves :
    {R : Type 0} (off : State → Type 0) (put : List R → Tables) (expired : R → Bool) (rows : List R)
    (name : StepName) (time : ℤ) (answer : PruneResult) (s : State)
    → Runs s
    → PrunesAtLast put expired rows answer
    → Holds (Leaves s put (kept expired rows)) off (after_call name time answer s)
unfolding after_call
after_call-Leaves off put expired rows name time (ok n t) s runs h =
    (runs, kept expired rows, h.1, λ e. (e, refl))
after_call-Leaves off put expired rows name time (err t) s runs h =
    (runs, h.0, h.1, λ e. absurd (not_zero s.step_errors e))
after_call-Leaves off put expired rows name time panic s runs h = h
after_call-Leaves off put expired rows name time more_fuel s runs h = h

pub prune_step-Leaves :
    {R : Type 0} (off : State → Type 0) (put : List R → Tables) (expired : R → Bool) (rows : List R)
    (name : StepName) (call : ℤ → ℤ → Tables → PruneResult) (score time : ℤ) (s : State)
    → Runs s
    → PrunesAtLast put expired rows (call score time s.tables)
    → Holds (Leaves s put (kept expired rows)) off (prune_step name call score time s)
unfolding prune_step
prune_step-Leaves off put expired rows name call score time s runs h =
    after_call-Leaves off put expired rows name time (call score time s.tables) _ runs h

pub return_on_shutdown-Holds :
    (setup : Setup) (score : ℕ) (P : State → Type 0) (s : State) (f : State → Flow)
    → Runs s
    → Holds P (Stopped setup) (f (record s { asked = s.asked + 1 }))
    → Holds P (Stopped setup) (return_on_shutdown setup score s >>> f)
unfolding return_on_shutdown
return_on_shutdown-Holds setup score P s f runs h = elim (Bool-cases (setup.shutdown s.asked)) [
  | inl e ↦ rw e (runs, s.asked, e)
  | inr e ↦ rw e h
]

pub Holds-imp :
    {P Q : State → Type 0} (off : State → Type 0) (m : Flow)
    → ((s : State) → P s → Q s)
    → Holds P off m
    → Holds Q off m
Holds-imp off (goes_on s) imp h = imp s h
Holds-imp off (returned s) imp h = h
Holds-imp off panicked imp h = h

-- A part that writes to less, and two parts one after the other.
pub Leaves-along :
    {X Y : Type 0} (s : State) (g : X → Y) (put : Y → Tables) (x : X) (s' : State)
    → Leaves s (λ y. put (g y)) x s'
    → Leaves s put (g x) s'
Leaves-along s g put x s' (runs, y, e, h) = (runs, g y, e, λ z. ((h z).0, ap g (h z).1))

pair_eq : {X Y : Type 0} {p q : X × Y} → p.0 ≡ q.0 → p.1 ≡ q.1 → p ≡ q
pair_eq h k = cc

Leaves-then :
    {X Y : Type 0} (s s' s'' : State) (put : X → Tables) (x : X) (put' : Tables → Y → Tables)
    (x' : Tables → Y)
    → Leaves s put x s'
    → Leaves s' (put' s'.tables) (x' s'.tables) s''
    → Leaves s {X = X × Y} (λ p. put' (put p.0) p.1) (x, x' (put x)) s''
Leaves-then s s' s'' put x put' x' (runs, y, e, h) (runs', y', e', h') = (
  runs',
  (y, y'),
  e' ∙ ap (λ t. put' t y') e,
  λ z.
      let (z', same') = h' z in
      let (z₀, same) = h z' in (z₀, pair_eq same (same' ∙ (ap x' e ∙ ap (λ y. x' (put y)) same))),
)

pub next-Leaves :
    {X Y : Type 0} (off : State → Type 0) (s : State) (put : X → Tables) (x : X)
    (put' : Tables → Y → Tables) (x' : Tables → Y) (Room : Tables → Type 0) (m : Flow)
    (f : State → Flow)
    → Holds (Leaves s put x) off m
    → ((y : X) → Room (put y))
    → ((s' : State)
        → Runs s'
        → Room s'.tables
        → Holds (Leaves s' (put' s'.tables) (x' s'.tables)) off (f s'))
    → Holds (Leaves s {X = X × Y} (λ p. put' (put p.0) p.1) (x, x' (put x))) off (m >>> f)
next-Leaves off s put x put' x' Room m f h room step = >>>-Holds _ off m f h (λ s' leaves.
    let (runs, y, e, _) = leaves in
    Holds-imp off (f s') (λ s''. Leaves-then s s' s'' put x put' x' leaves)
      (step s' runs (subst Room (sym e) (room y))))

pub Holds-off :
    (P : State → Type 0) {off : State → Type 0} (off' : State → Type 0) (m : Flow)
    → ((s : State) → off s → off' s)
    → Holds P off m
    → Holds P off' m
Holds-off P off' (goes_on s) imp h = h
Holds-off P off' (returned s) imp h = imp s h
Holds-off P off' panicked imp h = h
