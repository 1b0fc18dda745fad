-- ===== src/Processing/Blocks/Inserted.antt =====
-- The insertions of a commit hold the rows of the state.
use simply_kaspa_indexer.Prelude.{
  map, some-injective, ◌++◌, false, sym, subst, Bool, >>=-eq_some, ◌≡◌, some, List, Any,
}
use simply_kaspa_indexer.Database.Batches.Cover.{Any-append_left, Any-append_right}
use simply_kaspa_indexer.Models.{Block, BlockParent}
use simply_kaspa_indexer.Database.Batches.Calls.{
  insert_block_parents-Any, insert_blocks-Any, InBlocks, InBlockParent,
}
use simply_kaspa_indexer.Processing.{Event, sent, send}
use simply_kaspa_indexer.Database.Insert.{Insertion}
use simply_kaspa_indexer.Processing.Order.{Sent, send_lem, sent_Any}
use simply_kaspa_indexer.Processing.Blocks.{
  Setup, disable_blocks, disable_block_relations, State, block_calls, parent_calls, insert_rows,
}

module _ (setup : Setup) where
  pub insert_rows_lem :
      (accepts : Insertion → Bool) (s : State) {events : List Event}
      → insert_rows setup accepts s ≡ some events
      → (calls : List Insertion) × (calls' : List Insertion) × (block_calls setup s ≡ some calls)
        × (parent_calls setup s ≡ some calls')
        × (events ≡ map sent calls ++ map sent calls')
  unfolding insert_rows
  insert_rows_lem accepts s e =
      let (calls, cut, e1) = >>=-eq_some (block_calls setup s) _ e in
      let (of_blocks, sent1, e2) = >>=-eq_some (send accepts calls) _ e1 in
      let (calls', cut', e3) = >>=-eq_some (parent_calls setup s) _ e2 in
      let (of_parents, sent2, e4) = >>=-eq_some (send accepts calls') _ e3 in
      (
        calls,
        calls',
        cut,
        cut',
        cc (some-injective e4, send_lem accepts calls sent1, send_lem accepts calls' sent2),
      )

  block_calls-Any :
      (s : State) (row : Block) {calls : List Insertion}
      → block_calls setup s ≡ some calls
      → disable_blocks setup ≡ false
      → Any (λ x. row ≡ x) s.blocks
      → Any (InBlocks (λ x. row ≡ x)) calls
  unfolding block_calls
  block_calls-Any s row e on = insert_blocks-Any (λ x. row ≡ x) setup.scaled s.blocks (rw on at e)

  parent_calls-Any :
      (s : State) (row : BlockParent) {calls : List Insertion}
      → parent_calls setup s ≡ some calls
      → disable_block_relations setup ≡ false
      → Any (λ x. row ≡ x) s.blocks_parents
      → Any (InBlockParent (λ x. row ≡ x)) calls
  unfolding parent_calls
  parent_calls-Any s row e on =
      insert_block_parents-Any (λ x. row ≡ x) setup.scaled s.blocks_parents (rw on at e)

  -- The rows of the state are among the events of a commit, where their table is not disabled.
  pub insert_rows-Any :
      (accepts : Insertion → Bool) (s : State) {events : List Event}
      → insert_rows setup accepts s ≡ some events
      → (disable_blocks setup ≡ false
          → (row : Block) → Any (λ x. row ≡ x) s.blocks
          → Any (Sent (InBlocks (λ x. row ≡ x))) events)
        × (disable_block_relations setup ≡ false
            → (row : BlockParent) → Any (λ x. row ≡ x) s.blocks_parents
            → Any (Sent (InBlockParent (λ x. row ≡ x))) events)
  insert_rows-Any accepts s e =
      let (calls, calls', cut, cut', done) = insert_rows_lem accepts s e in
      (
        (λ on row h. subst (Any (Sent (InBlocks (λ x. row ≡ x)))) (sym done) (
            Any-append_left _ (map sent calls) _
              (sent_Any _ calls (block_calls-Any s row cut on h)))),
        (λ on row h. subst (Any (Sent (InBlockParent (λ x. row ≡ x)))) (sym done) (
            Any-append_right _ (map sent calls) _
              (sent_Any _ calls' (parent_calls-Any s row cut' on h)))),
      )
