-- ===== src/BalanceChecker.antt =====
-- The balance checker: daemon/src/balance_checker.rs, with the indexer's answers of
-- daemon/src/etherscan_client.rs. A panic of the recorder ends the process.
pub mod Missing
pub mod Checking
pub mod Nothing
use kalatori.Common.{
  Result, ok, err, panic, Option, none, some, List, [], ◌∷◌, map, select, String, str_eq, not,
  ok_or, ℕ, if◌then◌else◌,
}
use kalatori.Common.Int.{sum_ℤ, eq_ℤ}
use kalatori.Types.Chain.{ChainType}
use kalatori.Types.Invoice.{Uuid, Decimal, InvoiceWithReceivedAmount, Invoice}
use kalatori.Types.Transaction.{IncomingTransaction, Transaction}
use kalatori.Config.{PaymentsConfig}
use kalatori.Dao.Store.{map_err, lift, Dao, Store}
use kalatori.Dao.Invoices.{get_invoice_with_received_amount_by_id}
use kalatori.Registry.{get_invoice, Registry}
use kalatori.Dao.Store.{◌>>=◌}
use kalatori.World.{World}
use kalatori.Recorder.{Processed, process_invoice_transaction}

pub data BalanceCheckerError : Type 0 where
  invoice_not_found : Uuid → BalanceCheckerError
  fetch_balance_failed fetch_transfers_failed database_error : BalanceCheckerError

-- A transfer as the indexer gives it, with its amount scaled by the token's decimals, and the id
-- that is drawn for it.
pub record EtherscanTransaction : Type 0 where
  pub id : Uuid
  pub contract_address : String
  pub token_symbol : String
  pub amount : Decimal
  pub sender : String
  pub to : String
  pub block_number : ℕ
  pub transaction_index : ℕ
  pub hash : String

-- What the node and the indexer answer, and the lower case of a text.
pub record Chains : Type 0 where
  pub fetch_asset_balance : ChainType → String → String → Option Decimal
  pub get_account_transfers : String → String → Option (List EtherscanTransaction)
  pub to_lowercase : String → String

abbrev pub into_incoming_transaction : Uuid → EtherscanTransaction → IncomingTransaction
into_incoming_transaction invoice_id t = record {
  id = t.id;
  invoice_id = invoice_id;
  transfer_info = record {
    chain = ChainType.polygon;
    asset_id = t.contract_address;
    asset_name = t.token_symbol;
    amount = t.amount;
    source_address = t.sender;
    destination_address = t.to;
  };
  transaction_id = record {
    block_number = some t.block_number;
    position_in_block = some t.transaction_index;
    tx_hash = some t.hash;
  };
}

-- `get_account_incoming_transfers`: those to the address.
unfoldable pub get_account_incoming_transfers :
    Chains → ChainType → String → String → Uuid → Option (List IncomingTransaction)
get_account_incoming_transfers chains ChainType.polkadot_asset_hub asset_id address id = none
get_account_incoming_transfers chains ChainType.polygon asset_id address id =
    elim (chains.get_account_transfers asset_id address) [
      | none ↦ none
      | some ts ↦ some (
          map (into_incoming_transaction id)
            (select (λ t. str_eq (chains.to_lowercase t.to) (chains.to_lowercase address)) ts))
    ]

-- No transfers are fetched on the Asset Hub.
unfoldable pub get_incoming_transactions :
    Chains → InvoiceWithReceivedAmount → Option (List IncomingTransaction)
get_incoming_transactions chains r = elim r.invoice.chain [
  | ChainType.polkadot_asset_hub ↦ some []
  | ChainType.polygon ↦
      get_account_incoming_transfers chains ChainType.polygon r.invoice.asset_id
        r.invoice.payment_address r.invoice.id
]

-- What the caller has after a check: its result, its record and the world.
abbrev pub Checked : Type 0
Checked = Result BalanceCheckerError (Unit {0}) × InvoiceWithReceivedAmount × World

-- After one transaction: an error of the recorder is logged, and the loop goes on.
abbrev pub next_transaction : Processed → (InvoiceWithReceivedAmount → World → Checked) → Checked
next_transaction (ok _, r, w) next = next r w
next_transaction (err _, r, w) next = next r w
next_transaction (panic, r, w) next = (panic, r, w)

-- The loop that stores what may be missing, each with the record as the recorder left it.
unfoldable pub store_transactions :
    PaymentsConfig → List IncomingTransaction → InvoiceWithReceivedAmount → World → Checked
store_transactions config [] r w = (ok tt, r, w)
store_transactions config (t ∷ ts) r w =
    next_transaction (process_invoice_transaction config r t w) (store_transactions config ts)

-- The balance is only logged.
unfoldable pub get_and_store_transactions :
    PaymentsConfig → Chains → InvoiceWithReceivedAmount → World → Checked
get_and_store_transactions config chains r w = elim (get_incoming_transactions chains r) [
  | none ↦ (err fetch_transfers_failed, r, w)
  | some ts ↦
      let total_amount = sum_ℤ (map (λ (t : IncomingTransaction). t.transfer_info.amount) ts) in
      if not (eq_ℤ r.total_received_amount total_amount)
      then store_transactions config ts r w
      else (ok tt, r, w)
]

-- What `check_invoice_balance` does with the record it has found.
unfoldable pub compare_balance :
    PaymentsConfig → Chains → InvoiceWithReceivedAmount → World → Checked
compare_balance config chains r w =
    elim (chains.fetch_asset_balance r.invoice.chain r.invoice.asset_id r.invoice.payment_address) [
      | none ↦ (err fetch_balance_failed, r, w)
      | some balance ↦
          if not (eq_ℤ r.total_received_amount balance)
          then get_and_store_transactions config chains r w
          else (ok tt, r, w)
    ]

unfoldable pub find_in_dao : Uuid → Dao BalanceCheckerError InvoiceWithReceivedAmount
find_in_dao id = do
  r ← map_err (λ _. database_error) (get_invoice_with_received_amount_by_id id)
  lift (ok_or r (invoice_not_found id))

abbrev pub with_store {ℓ} : {A : Type ℓ} → World → A × Store → A × World
with_store w (a, s) = (a, record w { store = s })

-- The record of the registry, or else the one that the database has.
unfoldable pub find_checked :
    Uuid → World → Result BalanceCheckerError InvoiceWithReceivedAmount × World
find_checked id w = elim (get_invoice id w.registry) [
  | some r ↦ (ok r, w)
  | none ↦ with_store w (find_in_dao id w.store)
]

abbrev pub checked_record : Checked → Result BalanceCheckerError InvoiceWithReceivedAmount × World
checked_record (ok _, r, w) = (ok r, w)
checked_record (err e, r, w) = (err e, w)
checked_record (panic, r, w) = (panic, w)

abbrev pub check_found :
    PaymentsConfig
    → Chains
    → Result BalanceCheckerError InvoiceWithReceivedAmount × World
    → Result BalanceCheckerError InvoiceWithReceivedAmount × World
check_found config chains (ok r, w) = checked_record (compare_balance config chains r w)
check_found config chains (err e, w) = (err e, w)
check_found config chains (panic, w) = (panic, w)

unfoldable pub check_invoice_balance :
    PaymentsConfig
    → Chains
    → Uuid
    → World
    → Result BalanceCheckerError InvoiceWithReceivedAmount × World
check_invoice_balance config chains id w = check_found config chains (find_checked id w)
