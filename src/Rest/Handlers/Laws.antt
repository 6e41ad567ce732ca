-- ===== src/Rest/Handlers/Laws.antt =====
-- What the transfer history answers.
use gno_land_block_indexer.Prelude.{map, keep, str_eq}
use gno_land_block_indexer.Ent.Error.{Error}
use gno_land_block_indexer.Ent.Tables.{Tables}
use gno_land_block_indexer.Ent.Database.{Database}
use gno_land_block_indexer.Repository.Transfers.{transfer_model}
use gno_land_block_indexer.Rest.Handlers.{Body, transfer_list, transfer_item}

-- All transfers with the function `transfer`, of whatever address.
abbrev pub all_transfers : Tables → Body
all_transfers t =
    transfer_list
      (map transfer_item (map transfer_model (keep (λ r. str_eq r.func "transfer") t.transfers)))
