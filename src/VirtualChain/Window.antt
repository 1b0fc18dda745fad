-- ===== src/VirtualChain/Window.antt =====
-- What the history of the last window of responses guarantees.
use mathlib.Core.Option.{some-injective}
use simply_kaspa_indexer.Prelude.{
  >>=-eq_some, subst, ◌∙◌, zero, leb, Bool-cases, inl, inr, ◌+◌, u64_limit, u64_limit, ◌+◌, false,
  true, add_u64, ap, ℕ, suc, ◌≤◌, ◌<◌, ◌≡◌, ◌≢◌, refl, Bool, some, List, [], ◌∷◌, length, arith,
}
use simply_kaspa_indexer.VirtualChain.{
  start, tip_run, Response, tip_step, Tip, pop_back, count_true, make_room, adjust,
}

-- At most a window of entries, of which at most two are reorgs.
pub record IsWindow (window : ℕ) (tip : Tip) : Type 0 where
  pub fits : length tip.tip_distance_history ≤ window
  pub calm : count_true tip.tip_distance_history ≤ 2

pop_back-length : (xs : List Bool) → xs ≢ [] → suc (length (pop_back xs)) ≡ length xs
unfolding pop_back
pop_back-length [] h = absurd (h refl)
pop_back-length (x ∷ []) h = refl
pop_back-length (x ∷ y ∷ xs) h = ap suc (pop_back-length (y ∷ xs) (λ e. cc))

pop_back-count_true : (xs : List Bool) → count_true (pop_back xs) ≤ count_true xs
unfolding pop_back count_true
pop_back-count_true [] = omega arith
pop_back-count_true (x ∷ []) = ground arith
pop_back-count_true (x ∷ y ∷ xs) = ground (arith, pop_back-count_true (y ∷ xs))

make_room-length :
    (window : ℕ) (xs : List Bool)
    → 0 < window
    → length xs ≤ window
    → suc (length (make_room window xs)) ≤ window
unfolding make_room
make_room-length window [] pos h = ground arith
make_room-length window (x ∷ xs) pos h = ground (arith, pop_back-length (x ∷ xs) (λ e. cc))

make_room-count_true :
    (window : ℕ) (xs : List Bool) → count_true (make_room window xs) ≤ count_true xs
unfolding make_room
make_room-count_true window xs = ground (arith, pop_back-count_true xs)

adjust-IsWindow :
    (window added distance : ℕ) (b : Bool) (xs : List Bool) {tip : Tip}
    → suc (length xs) ≤ window
    → count_true xs ≤ 2
    → adjust window added distance (b ∷ xs) ≡ some tip
    → IsWindow window tip
unfolding adjust count_true
adjust-IsWindow window added distance b xs {tip} fits two h = record {
  fits = ground arith;
  calm = ground arith;
}

tip_step-IsWindow :
    (window : ℕ) (res : Response) (tip : Tip) {tip' : Tip}
    → 0 < window
    → IsWindow window tip
    → tip_step window res tip ≡ some tip'
    → IsWindow window tip'
unfolding tip_step
tip_step-IsWindow window res tip pos h e =
    let count = make_room-count_true window tip.tip_distance_history in
    let calm = h.calm in
    adjust-IsWindow window res.added_blocks_count tip.tip_distance res.has_reorg
      (make_room window tip.tip_distance_history)
      (make_room-length window tip.tip_distance_history pos h.fits) (omega arith) e

run-IsWindow :
    (window : ℕ) (rest : List Response) (tip : Tip) {tip' : Tip}
    → 0 < window
    → IsWindow window tip
    → tip_run window rest tip ≡ some tip'
    → IsWindow window tip'
unfolding tip_run
run-IsWindow window [] tip {tip'} pos h e = subst (IsWindow window) (some-injective _ _ e) h
run-IsWindow window (res ∷ rest) tip {tip'} pos h e =
    let (tip₁, stepped, rest₁) : (t : Tip) × (tip_step window res tip ≡ some t)
        × (tip_run window rest t ≡ some tip') =
      >>=-eq_some (tip_step window res tip) (tip_run window rest) e in
    run-IsWindow window rest tip₁ {tip' = tip'} pos (tip_step-IsWindow window res tip pos h stepped)
      rest₁

-- From the start on, whatever responses arrive, the history holds at most a window of entries of
-- which at most two are reorgs or marks.
pub tip_run-IsWindow :
    (window : ℕ) (responses : List Response) {tip : Tip}
    → 0 < window
    → tip_run window responses start ≡ some tip
    → IsWindow window tip
unfolding count_true
tip_run-IsWindow window responses {tip} pos e =
    run-IsWindow window responses start pos (record { fits = omega arith; calm = omega arith }) e

-- The entry at a place, false where there is none.
abbrev pub entry : ℕ → List Bool → Bool
entry k [] = false
entry zero (x ∷ xs) = x
entry (suc k) (x ∷ xs) = entry k xs

pop_back-entry : (k : ℕ) (xs : List Bool) → suc k < length xs → entry k (pop_back xs) ≡ entry k xs
unfolding pop_back
pop_back-entry k [] h = refl
pop_back-entry k (x ∷ []) h = ground arith
pop_back-entry zero (x ∷ y ∷ xs) h = refl
pop_back-entry (suc k) (x ∷ y ∷ xs) h = pop_back-entry k (y ∷ xs) (omega arith)

make_room-entry :
    (window k : ℕ) (xs : List Bool) → suc k < window → entry k (make_room window xs) ≡ entry k xs
unfolding make_room
make_room-entry window k xs h = ground (arith, pop_back-entry k xs)

entry-count_true : (k : ℕ) (xs : List Bool) → entry k xs ≡ true → 1 ≤ count_true xs
unfolding count_true
entry-count_true k [] h = ground arith
entry-count_true zero (x ∷ xs) h = ground arith
entry-count_true (suc k) (x ∷ xs) h = ground (arith, entry-count_true k xs h)

-- With a reorg or a mark in the window, the distance stays or grows by one.
adjust_keeps :
    (window added distance k : ℕ) (b : Bool) (xs : List Bool)
    → entry k xs ≡ true
    → distance + 1 < u64_limit
    → (tip : Tip) × (adjust window added distance (b ∷ xs) ≡ some tip)
      × (entry (suc k) tip.tip_distance_history ≡ true)
      × (distance ≤ tip.tip_distance)
      × (tip.tip_distance ≤ distance + 1)
unfolding adjust add_u64 count_true
adjust_keeps window added distance k b xs h fits =
    let seen = entry-count_true k xs h in
    elim (Bool-cases (leb 3 (count_true (b ∷ xs)))) [
      | inl e ↦
          let tip : Tip = record {
            tip_distance = distance + 1;
            tip_distance_history = false ∷ xs;
          } in
          (tip, ground arith, h, omega arith, omega arith)
      | inr e ↦
          let tip : Tip = record { tip_distance = distance; tip_distance_history = b ∷ xs } in
          (tip, ground arith, h, omega arith, omega arith)
    ]

-- At each response the loop goes on, and the distance does not go down.
abbrev pub NeverLower : ℕ → List Response → Tip → Type 0
NeverLower window [] tip = Unit
NeverLower window (res ∷ rest) tip =
    (tip' : Tip) × (tip_step window res tip ≡ some tip')
    × (tip.tip_distance ≤ tip'.tip_distance)
    × NeverLower window rest tip'

tip_run_keeps :
    (window k : ℕ) (rest : List Response) (tip : Tip)
    → entry k tip.tip_distance_history ≡ true
    → k + length rest < window
    → tip.tip_distance + length rest < u64_limit
    → NeverLower window rest tip
unfolding tip_step
tip_run_keeps window k [] tip h early fits = tt
tip_run_keeps window k (res ∷ rest) tip h early fits =
    let marked : entry k (make_room window tip.tip_distance_history) ≡ true =
      make_room-entry window k tip.tip_distance_history (omega arith) ∙ h in
    let (tip₁, stepped, h₁, low, high) =
      adjust_keeps window res.added_blocks_count tip.tip_distance k res.has_reorg
        (make_room window tip.tip_distance_history) marked (omega arith) in
    (tip₁, stepped, low, tip_run_keeps window (suc k) rest tip₁ h₁ (omega arith) (omega arith))

-- So the run ends, and no lower than it began.
NeverLower-tip_run :
    (window : ℕ) (rest : List Response) (tip : Tip)
    → NeverLower window rest tip
    → (tip' : Tip) × (tip_run window rest tip ≡ some tip') × (tip.tip_distance ≤ tip'.tip_distance)
unfolding tip_run
NeverLower-tip_run window [] tip h = (tip, refl, omega arith)
NeverLower-tip_run window (res ∷ rest) tip (tip₁, stepped, low, later) =
    let (tip₂, ran, above) = NeverLower-tip_run window rest tip₁ later in
    (tip₂, rw stepped ran, omega arith)

-- Where the distance goes down and the history is full, its newest entry is a mark.
adjust_lowers :
    (window added distance : ℕ) (b : Bool) (xs : List Bool) {tip : Tip}
    → adjust window added distance (b ∷ xs) ≡ some tip
    → tip.tip_distance < distance
    → length tip.tip_distance_history ≡ window
    → entry 0 tip.tip_distance_history ≡ true
unfolding adjust count_true add_u64
adjust_lowers window added distance b xs e lower full = ground arith

-- Take a response at which the distance goes down and after which the history is full. At none of any
-- fewer later responses than the window does the distance go down, nor does the loop panic, if the
-- distance has room in u64 for them; so the distance ends no lower.
pub tip_run_keeps_distance :
    (window : ℕ) (res : Response) (rest : List Response) (tip : Tip) {tip' : Tip}
    → tip_step window res tip ≡ some tip'
    → tip'.tip_distance < tip.tip_distance
    → length tip'.tip_distance_history ≡ window
    → length rest < window
    → tip'.tip_distance + length rest < u64_limit
    → NeverLower window rest tip'
      × ((tip'' : Tip) × (tip_run window rest tip' ≡ some tip'')
          × (tip'.tip_distance ≤ tip''.tip_distance))
unfolding tip_step adjust add_u64
tip_run_keeps_distance window res rest tip {tip'} e lower full few fits =
    let never =
      tip_run_keeps window 0 rest tip'
        (adjust_lowers window res.added_blocks_count tip.tip_distance res.has_reorg
          (make_room window tip.tip_distance_history) e lower full)
        (omega arith) fits in
    (never, NeverLower-tip_run window rest tip' never)
