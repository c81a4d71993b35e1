-- ===== src/Tests/Claims.antt =====
-- Payouts that wait for a claim: the oldest of two, and one that has failed once.
use kalatori.Common.Int.{pos}
use kalatori.Dao.Transfers.Turns.{get_pending_payouts-oldest, get_pending_payouts-retries}
use kalatori.Dao.Transfers.{get_pending_payouts, update_payout_retry, transition_allowed}
use kalatori.Dao.Store.{Store, query}
use kalatori.Types.Chain.{SwapChainType}
use kalatori.Types.Retry.{RetryMeta, no_retries, increment_retry, retry_delay_secs}
use kalatori.Types.Transfer.{
  in_progress, failed_retriable, new_payout, Payout, TransferDestinationParams,
}
use kalatori.Common.{◌+◌, ◌≡◌, [], ◌∷◌, List, Memᴰ, ok, refl, some, arith}
use kalatori.Tests.{db, env, invoice}

abbrev pub merchant : TransferDestinationParams
merchant = record {
  destination_address = "merchant";
  destination_chain = SwapChainType.polygon;
  destination_asset_id = "usdc";
}

abbrev older : Payout
older = new_payout 51 1500 1500 invoice merchant (pos 100)

abbrev younger : Payout
younger = new_payout 52 1600 1600 invoice merchant (pos 60)

abbrev two_waiting : Store
two_waiting = record { db = record db { payouts = younger ∷ older ∷ [] }; env = env; calls = 0 }

get_pending_payouts-oldest_example :
    (ps : List Payout) × ((get_pending_payouts 1 two_waiting).0 ≡ ok ps)
    × Memᴰ (record older { status = in_progress; updated_at = 2000 }) ps
get_pending_payouts-oldest_example =
    get_pending_payouts-oldest 1 two_waiting older (Memᴰ.tail (Memᴰ.head refl)) refl (omega arith)
      refl

-- The failure of a claimed payout, and a claim more than two hours later.
abbrev failing : Store
failing = record {
  db = record db { payouts = record older { status = in_progress } ∷ [] };
  env = env;
  calls = 0;
}

abbrev once : RetryMeta
once = record {
  retry_count = 1;
  last_attempt_at = some 1999;
  next_retry_at = some 2299;
  failure_message = some "refused";
}

abbrev failed_once : Payout
failed_once = record older { status = failed_retriable; retry_meta = once; updated_at = 2000 }

abbrev hours_later : Store
hours_later = record {
  db = record db { payouts = failed_once ∷ [] };
  env = record env { clock = λ n. 9300 + n };
  calls = 0;
}

get_pending_payouts-retries_example :
    (ps : List Payout) × ((get_pending_payouts 10 hours_later).0 ≡ ok ps)
    × Memᴰ (record failed_once { status = in_progress; updated_at = 9300 }) ps
unfolding increment_retry retry_delay_secs update_payout_retry transition_allowed query
get_pending_payouts-retries_example =
    get_pending_payouts-retries {E = ⊥} 1999 10 "refused" no_retries once 51 failing hours_later
      failed_once refl refl (Memᴰ.head refl) (omega arith) (omega arith) refl
