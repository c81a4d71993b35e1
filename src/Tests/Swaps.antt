-- ===== src/Tests/Swaps.antt =====
-- A user's swap for the invoice of the tests: where a refund goes, and what its outcome does.
use kalatori.Common.Int.{pos}
use kalatori.RefundDestination.Sources.{FromSwap, FromTransfer, find_refund_destination-sources}
use kalatori.SwapsTracker.Tracking.{handled_world, check_swap-IsSound}
use kalatori.SwapsTracker.{executed, check_swap}
use kalatori.RefundDestination.{
  find_refund_destination, destination_from, find_destination_in_swaps, destination_of_first,
  filter_out_swap_transactions,
}
use kalatori.Types.SwapOrder.{Swap, SwapExecutorType, SwapDirection, SwapStatus}
use kalatori.Types.Chain.{SwapChainType, swap_chain_from, ChainType}
use kalatori.Types.Retry.{no_retries}
use kalatori.Types.Transfer.{Refund, TransferDestinationParams, InitiatorType, TransferStatus}
use kalatori.Types.Transaction.{default_origin, Transaction, from_incoming}
use kalatori.Dao.Transactions.{get_completed_transactions_by_invoice}
use kalatori.Dao.Swaps.{get_completed_incoming_swaps_by_invoice}
use kalatori.Dao.Store.{Store, map_err, query, ◌>>=◌}
use kalatori.Ledger.{IsSound}
use kalatori.Common.{[], ◌∷◌, ok, ◌≡◌, refl, some, none, ◌⊎◌, inl}
use kalatori.Tests.State.{chains, few, not_settled}
use kalatori.Tests.{config, db, env, payment, world, world-IsSound}

abbrev pub swap : Swap
swap = record {
  id = 51;
  request = record {
    invoice_id = 7;
    swap_executor = SwapExecutorType.zero_ex;
    from_chain = SwapChainType.polygon;
    to_chain = SwapChainType.polygon;
    from_token_address = "weth";
    to_token_address = "usdc";
    from_amount_units = 5;
    expected_to_amount_units = 130;
    from_address = "0x9";
    to_address = "0x7";
    direction = SwapDirection.incoming;
    origin = default_origin;
  };
  status = SwapStatus.completed;
  estimated_to_amount = pos 130;
  swap_details = record {
    id = "quote-51";
    raw_transaction = "bytes";
    signature = none;
    transaction_hash = some "0xbb";
  };
  created_at = 1500;
  submitted_at = some 1600;
  finished_at = some 1700;
  valid_till = 3000;
  error_message = none;
}

-- The service reports that the swap has paid the invoice, which nothing has recorded yet.
check_swap-IsSound_example :
    IsSound (handled_world (check_swap config chains (some executed) swap (swap ∷ []) world))
check_swap-IsSound_example =
    check_swap-IsSound config chains (some executed) swap (swap ∷ []) world world-IsSound
      (λ _. inl (not_settled, few))

-- The table has a transfer that has paid a part of the invoice.
abbrev paid_by : Transaction
paid_by = from_incoming 2000 (payment (pos 40))

abbrev received : Store
received = record { db = record db { transactions = paid_by ∷ [] }; env = env; calls = 0 }

abbrev sender : TransferDestinationParams
sender = record {
  destination_address = "0x9";
  destination_chain = SwapChainType.polygon;
  destination_asset_id = "usdc";
}

abbrev refund : Refund
refund = record {
  id = 61;
  invoice_id = 7;
  initiator_type = InitiatorType.system;
  initiator_id = none;
  status = TransferStatus.waiting;
  chain = ChainType.polygon;
  asset_id = "usdc";
  asset_name = "USDC";
  amount = pos 30;
  source_address = "0x7";
  destination_params = none;
  retry_meta = no_retries;
  created_at = 2000;
  updated_at = 2000;
}

found_sender : (find_refund_destination (λ s. s) refund received).0 ≡ ok sender
unfolding find_refund_destination destination_from find_destination_in_swaps
    get_completed_incoming_swaps_by_invoice get_completed_transactions_by_invoice
    destination_of_first filter_out_swap_transactions swap_chain_from map_err query ◌>>=◌
found_sender = refl

-- Without a swap, the refund goes back to the sender.
find_refund_destination-sources_example :
    FromSwap 7 received.db sender ⊎ FromTransfer (λ s. s) 7 received.db sender
find_refund_destination-sources_example =
    find_refund_destination-sources (λ s. s) refund received sender found_sender
