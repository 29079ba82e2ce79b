-- ===== src/Tests/Sync.antt =====
-- The check at the stored tip, and a rollback that is refused.
use xchain_decoder.Prelude.{◌≡◌, ◌≢◌, ◌⊎◌, false, none, some, [], ok, err}
use xchain_decoder.Prelude.Text.{codes}
use xchain_decoder.Reorg.{Block, Thrown, Reading, wait, RefusalClass}
use xchain_decoder.Reorg.Store.{find_block}
use xchain_decoder.Reorg.Walk.{is_same}
use xchain_decoder.Reorg.Depth.{nonempty_text}
use xchain_decoder.Prelude.Text.{Text}
use xchain_decoder.Prelude.{Option}
use xchain_decoder.Sync.{Outside, Loop, Wait, reconcile_equal_height_tip, park_or_rethrow}
use xchain_decoder.Sync.Swap.{AgreeOn, reconcile_equal_height_tip_settled}
use xchain_decoder.Sync.Errors.{IsWait, IsHalt, park_or_rethrow_cases}
use xchain_decoder.Tests.Reorg.{node, block, decoder}

abbrev outside : Outside
outside = record {
  world = node;
  end_transaction = λ t rows. some rows;
  last_tx_index = λ t. some (some 7);
}

abbrev loop : Loop
loop = record {
  last_processed_block_index = some 103;
  last_processed_tx_index = some 7;
  blocks_quantity = 1;
  blocks_count = 1;
  transactions_count = 1;
  valid_transactions_count = 1;
  output_count = 1;
  last_blockchain_info_refresh_at = 5;
  tip_hash_checked_at = 4;
  tip_below_stored_tip_refused = none;
  blockchain_info_last_block = some 103;
  reorg_wait = none;
  reorg_halt_parked = none;
}

reconcile_equal_height_tip_settled_example :
    let u = (reconcile_equal_height_tip outside 9 103 loop (decoder [])).1 in
    (u.blocks ≡ (decoder []).blocks)
    ⊎ ((stored : Block) × (settled : Reading) × (find_block 103 (decoder []).blocks ≡ some stored)
        × AgreeOn outside 103 (decoder []) settled
        × (is_same stored.block_hash settled ≡ false))
reconcile_equal_height_tip_settled_example =
    reconcile_equal_height_tip_settled outside 9 103 loop (decoder [])

abbrev refusal : Thrown
refusal = wait RefusalClass.node_behind (block 103 (some (codes "aa")))

park_or_rethrow_cases_example :
    let run = park_or_rethrow outside refusal loop (decoder []) in
    (IsWait refusal
      × ((after : Loop) × (published : Wait) × (run.0 ≡ ok after)
          × (after.reorg_wait ≡ some published)
          × ((stored : Option Text) × (refusal
                ≡ wait published.class
                    (record { block_index = published.stored_height; block_hash = stored }))
              × (published.stored_hash ≡ nonempty_text stored))
          × (after.reorg_halt_parked ≡ none)))
    ⊎ ((IsHalt refusal × ((after : Loop) × (run.0 ≡ ok after) × (after.reorg_halt_parked ≢ none)))
        ⊎ ((¬ IsWait refusal) × (¬ IsHalt refusal) × (run.0 ≡ err refusal)))
park_or_rethrow_cases_example = park_or_rethrow_cases outside refusal loop (decoder [])
