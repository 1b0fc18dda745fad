-- ===== src/Processing/Blocks/Pending.antt =====
-- What waits in the state of the block processor: the rows of each block that waits to be reported.
use simply_kaspa_indexer.Prelude.{
  some-injective, Bool-cases, ◌++◌, [], ◌∷◌, refl, All-Any, All-append, subst, >>=-eq_some, ◌≡◌,
  ◌⊎◌, true, some, List, All, Any, All-imp, inl, inr,
}
use simply_kaspa_indexer.Database.Batches.Cover.{Any-append_left, Any-append_right}
use simply_kaspa_indexer.Models.{Block, BlockParent}
use simply_kaspa_indexer.Checkpoint.{CheckpointBlock}
use simply_kaspa_indexer.Mapping.Rpc.{RpcBlock}
use simply_kaspa_indexer.Mapping.Mapper.{map_block, map_block_parents}
use simply_kaspa_indexer.Processing.Blocks.{
  Setup, disable_blocks, disable_block_relations, State, checkpoint_of, block_rows, parent_rows,
  receive,
}

module _ (setup : Setup) where
  row_found :
      (block : RpcBlock) {rows : List Block}
      → block_rows setup block ≡ some rows
      → (disable_blocks setup ≡ true)
        ⊎ ((row : Block) × (map_block setup.mapper block ≡ some row) × Any (λ x. row ≡ x) rows)
  unfolding block_rows
  row_found block e = elim (Bool-cases (disable_blocks setup)) [
    | inl off ↦ inl off
    | inr on ↦
        let (row, mapped, done) = >>=-eq_some (map_block setup.mapper block) _ (rw on at e) in
        inr (row, mapped, subst (Any (λ x. row ≡ x)) (some-injective done) (inl refl))
  ]

  parents_found :
      (block : RpcBlock)
      → (disable_block_relations setup ≡ true)
        ⊎ All
            (λ row. Any (λ x. row ≡ x) (parent_rows setup block))
            (map_block_parents setup.mapper block)
  unfolding parent_rows
  parents_found block = elim (Bool-cases (disable_block_relations setup)) [
    | inl off ↦ inl off
    | inr on ↦ inr (rw on (All-Any (map_block_parents setup.mapper block)))
  ]

-- `In` holds of the blocks that arrive.
module _ (setup : Setup) (In : RpcBlock → Type 0) where
  -- `c` is the checkpoint of such a block whose row is `R` and whose parents' rows are `Q`.
  abbrev pub CoveredBy : (Block → Type 0) → (BlockParent → Type 0) → CheckpointBlock → Type 0
  CoveredBy R Q c =
      (block : RpcBlock) × In block
      × (checkpoint_of block ≡ c)
      × ((disable_blocks setup ≡ true)
          ⊎ ((row : Block) × (map_block setup.mapper block ≡ some row) × R row))
      × ((disable_block_relations setup ≡ true) ⊎ All Q (map_block_parents setup.mapper block))

  pub CoveredBy-imp :
      {R R' : Block → Type 0} {Q Q' : BlockParent → Type 0} (c : CheckpointBlock)
      → ((row : Block) → R row → R' row)
      → ((row : BlockParent) → Q row → Q' row)
      → CoveredBy R Q c
      → CoveredBy R' Q' c
  CoveredBy-imp {Q = Q} {Q' = Q'} c f g h = (
    h.0,
    h.1,
    h.2,
    (elim h.3 [ inl off ↦ inl off | inr row ↦ inr (row.0, row.1, f row.0 row.2) ]),
    (elim h.4 [ inl off ↦ inl off | inr rows ↦ inr (All-imp g _ rows) ]),
  )

  abbrev pub InState : State → CheckpointBlock → Type 0
  InState s =
      CoveredBy (λ row. Any (λ x. row ≡ x) s.blocks) (λ row. Any (λ x. row ≡ x) s.blocks_parents)

  abbrev pub Inv : State → Type 0
  Inv s = All (InState s) s.checkpoint_blocks

  received-Inv :
      (block : RpcBlock) (rows : List Block) (s : State)
      → In block
      → block_rows setup block ≡ some rows
      → Inv s
      → Inv (record s {
        blocks = s.blocks ++ rows;
        blocks_parents = s.blocks_parents ++ parent_rows setup block;
        checkpoint_blocks = s.checkpoint_blocks ++ checkpoint_of block ∷ [];
      })
  received-Inv block rows s here e v =
      All-append _ s.checkpoint_blocks _
        (All-imp
          (λ c h.
            CoveredBy-imp c (λ row. Any-append_left (λ x. row ≡ x) s.blocks rows)
              (λ row. Any-append_left (λ x. row ≡ x) s.blocks_parents _) h)
          s.checkpoint_blocks v)
        (
          (
            block,
            here,
            refl,
            (elim (row_found setup block e) [
              | inl off ↦ inl off
              | inr (row, mapped, found) ↦
                  inr (row, mapped, Any-append_right (λ x. row ≡ x) s.blocks rows found)
            ]),
            (elim (parents_found setup block) [
              | inl off ↦ inl off
              | inr found ↦
                  inr (All-imp (λ row. Any-append_right (λ x. row ≡ x) s.blocks_parents _) _ found)
            ]),
          ),
          tt,
        )

  pub receive-Inv :
      (block : RpcBlock) (s : State) {s' : State}
      → In block
      → receive setup block s ≡ some s'
      → Inv s
      → Inv s'
  unfolding receive
  receive-Inv block s here e v =
      let (rows, found, done) = >>=-eq_some (block_rows setup block) _ e in
      subst Inv (some-injective done) (received-Inv block rows s here found v)
