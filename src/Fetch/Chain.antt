-- ===== src/Fetch/Chain.antt =====
-- indexer/src/virtual_chain/fetch_virtual_chain.rs: the loop that asks for the virtual chain. A round is the
-- node's answer, with what the processors show meanwhile. The sleeps are left out.
pub mod Follows
mod Tests
use simply_kaspa_indexer.Prelude.{
  ℕ, ◌-◌, ◌*◌, Bool, true, false, Option, none, some, List, [], ◌∷◌, ◌++◌, Bytes, ltb, is_empty,
  if◌then◌else◌, ◌>>=◌,
}
use simply_kaspa_indexer.Processing.{MetricsBlock, last}
use simply_kaspa_indexer.VirtualChain.Accept.{ChainBlock}

-- `GetVirtualChainFromBlockV2Response`.
pub record Response : Type 0 where
  pub removed_chain_block_hashes : List Bytes
  pub added_chain_block_hashes : List Bytes
  pub chain_block_accepted_transactions : List ChainBlock

-- One test of the loop that waits for the block processor: its last block, and whether the program is
-- told to stop during the sleep behind it.
pub record Poll : Type 0 where
  pub last_block : Option MetricsBlock
  pub shutdown : Bool

-- `tip_distance` is what the metrics show, and `response` is missing where there is no connection. Its
-- inner option is missing at an error.
pub record Round : Type 0 where
  pub shutdown : Bool
  pub tip_distance : Option ℕ
  pub response : Option (Option Response)
  pub send_succeeds : Bool
  pub polls : List Poll

-- What the loop does that others see: its requests, the responses it passes on, and its looks at the
-- block processor's last block.
pub data Event : Type 0 where
  asked : Bytes → ℕ → Event
  sent : Response → Event
  saw : Option MetricsBlock → Event

abbrev pub or_ten : Option ℕ → ℕ
or_ten none = 10
or_ten (some n) = n

abbrev pub score_of : Option MetricsBlock → ℕ
score_of none = 0
score_of (some b) = b.daa_score

unfoldable pub is_near : ℕ → ℕ → Option MetricsBlock → Bool
is_near net_bps last_daa_score o = ltb (last_daa_score - score_of o) (300 * net_bps)

-- Whether the wait ends with the block processor near enough, and what was seen. If not, the loop has
-- returned at a shutdown, or still waits behind the last poll.
unfoldable pub wait_near : ℕ → ℕ → List Poll → Bool × List Event
unfolding is_near
wait_near net_bps last_daa_score [] = (false, [])
wait_near net_bps last_daa_score (p ∷ ps) =
    let (later, events) = wait_near net_bps last_daa_score ps in
    if is_near net_bps last_daa_score p.last_block
    then (true, saw p.last_block ∷ [])
    else if p.shutdown
    then (false, saw p.last_block ∷ [])
    else (later, saw p.last_block ∷ events)

-- `sender.send(res)`, which fails where the processor is gone; the wait comes behind it.
unfoldable pub after_send : Bool → Response → Bytes → Bool × List Event → Bool × Bytes × List Event
after_send true res start_hash (near, events) = (near, start_hash, sent res ∷ events)
after_send false res start_hash (near, events) = (false, start_hash, [])

-- The part for a response that adds blocks, with the panics of `unwrap`.
unfoldable pub pass_on : ℕ → Round → Response → Option (Bool × Bytes × List Event)
unfolding wait_near last after_send
pass_on net_bps r res = do
  start_hash ← last res.added_chain_block_hashes
  last_block ← last res.chain_block_accepted_transactions
  last_daa_score ← last_block.daa_score
  some (after_send r.send_succeeds res start_hash (wait_near net_bps last_daa_score r.polls))

unfoldable pub respond : ℕ → Round → Bytes → Option Response → Option (Bool × Bytes × List Event)
unfolding pass_on
respond net_bps r start_hash none = some (true, start_hash, [])
respond net_bps r start_hash (some res) =
    if is_empty res.added_chain_block_hashes
    then some (true, start_hash, [])
    else pass_on net_bps r res

-- Whether the loop goes on, the hash from which it asks next, and what it did.
unfoldable pub after_answer :
    ℕ → Round → Bytes → Option (Option Response) → Option (Bool × Bytes × List Event)
unfolding respond
after_answer net_bps r start_hash none = some (true, start_hash, [])
after_answer net_bps r start_hash (some answer) = do
  (again, start_hash', events) ← respond net_bps r start_hash answer
  some (again, start_hash', asked start_hash (or_ten r.tip_distance) ∷ events)

unfoldable pub step : ℕ → Round → Bytes → Option (Bool × Bytes × List Event)
unfolding after_answer
step net_bps r start_hash =
    if r.shutdown
    then some (false, start_hash, [])
    else after_answer net_bps r start_hash r.response

unfoldable pub fetch_virtual_chain : ℕ → List Round → Bytes → Option (List Event)
unfolding step
fetch_virtual_chain net_bps [] start_hash = some []
fetch_virtual_chain net_bps (r ∷ rounds) start_hash = do
  (again, start_hash', events) ← step net_bps r start_hash
  let rest = fetch_virtual_chain net_bps rounds start_hash'
  if again then (rest >>= λ later. some (events ++ later)) else some events
