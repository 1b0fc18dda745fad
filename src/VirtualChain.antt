-- ===== src/VirtualChain.antt =====
-- indexer/src/virtual_chain/process_virtual_chain.rs: the distance that is kept to the virtual
-- chain's tip. A message is a response of the node. Of it the code reads here whether removing
-- its blocks deleted rows, and how many blocks it adds. The front of the deque is the head of the
-- list. The timestamp of the last change, which only the metrics show, is left out.
pub mod Window
pub mod Accept
pub mod Responses
mod Tests
use simply_kaspa_indexer.Prelude.{
  ℕ, suc, ◌-◌, ◌*◌, ◌/◌, max, Bool, true, false, ◌&&◌, Option, none, some, List, [], ◌∷◌, length,
  if◌then◌else◌, ◌==◌, ltb, leb, add_u64, ◌>>=◌,
}

pub record Tip : Type 0 where
  pub tip_distance : ℕ
  pub tip_distance_history : List Bool

pub record Response : Type 0 where
  pub has_reorg : Bool
  pub added_blocks_count : ℕ

abbrev pub start : Tip
start = record { tip_distance = 10; tip_distance_history = [] }

-- `(vcp_window * 1_000 / vcp_interval).max(1)`, for an interval that is not 0.
abbrev pub tip_distance_window : ℕ → ℕ → ℕ
tip_distance_window vcp_window vcp_interval = max (vcp_window * 1000 / vcp_interval) 1

-- `VecDeque::pop_back` and `pop_front`, without the element.
unfoldable pub pop_back : List Bool → List Bool
pop_back [] = []
pop_back (x ∷ []) = []
pop_back (x ∷ y ∷ xs) = x ∷ pop_back (y ∷ xs)

abbrev pub pop_front : List Bool → List Bool
pop_front [] = []
pop_front (x ∷ xs) = xs

unfoldable pub count_true : List Bool → ℕ
count_true [] = 0
count_true (x ∷ xs) = if x then suc (count_true xs) else count_true xs

-- Place for a new entry.
unfoldable pub make_room : ℕ → List Bool → List Bool
unfolding pop_back
make_room window history = if length history == window then pop_back history else history

-- What is done with the history that has the new entry.
unfoldable pub adjust : ℕ → ℕ → ℕ → List Bool → Option Tip
unfolding count_true add_u64
adjust window added_blocks_count distance history =
    let reorgs_count = count_true history in
    if leb 3 reorgs_count
    then (add_u64 distance 1 >>= λ distance'.
        some
          (record { tip_distance = distance'; tip_distance_history = false ∷ pop_front history }))
    else if ltb added_blocks_count 200 && (reorgs_count == 0 && ltb 0 distance)
    then some (record {
      tip_distance = distance - 1;
      tip_distance_history = if length history == window then true ∷ pop_front history else history;
    })
    else some (record { tip_distance = distance; tip_distance_history = history })

unfoldable pub tip_step : ℕ → Response → Tip → Option Tip
unfolding make_room adjust
tip_step window res tip =
    adjust window res.added_blocks_count tip.tip_distance
      (res.has_reorg ∷ make_room window tip.tip_distance_history)

-- The distance over the responses that arrive.
unfoldable pub tip_run : ℕ → List Response → Tip → Option Tip
tip_run window [] tip = some tip
tip_run window (res ∷ rest) tip = tip_step window res tip >>= tip_run window rest
