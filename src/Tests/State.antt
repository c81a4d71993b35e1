-- ===== src/Tests/State.antt =====
-- Runs of the balance checker, the expiration detector and the API over the invoice of the tests.
use kalatori.BalanceChecker.Missing.{missing}
use kalatori.Registry.{get_invoice}
use kalatori.Common.Int.{pos, ◌+ℤ◌}
use kalatori.Expiration.Detector.{handle_expired_invoice, handle_expired_invoice-IsSound}
use kalatori.AppState.Creating.{create_invoice-IsSound}
use kalatori.BalanceChecker.Checking.{Checks, FewFor, check_invoice_balance-IsSound}
use kalatori.Tracker.{world_of}
use kalatori.Types.Invoice.{empty_cart, Invoice, InvoiceWithReceivedAmount}
use kalatori.Dao.Invoices.{has_id}
use kalatori.BalanceChecker.{
  EtherscanTransaction, Chains, get_account_incoming_transfers, get_incoming_transactions,
  check_invoice_balance, BalanceCheckerError, find_checked,
}
use kalatori.AppState.{CreateInvoiceParams, Directory, create_invoice}
use kalatori.Ledger.{is_settled, IsSound}
use kalatori.Common.{
  [], ◌∷◌, ℕ, ◌≤◌, ◌≡◌, sym, ap, subst, false, some, some_inj, length, find, refl, arith, str_eq,
  if◌then◌else◌, ok_inj,
}
use kalatori.Tests.{config, invoice, world, world-IsSound, found_invoice, entry}

-- The node and the indexer know of one payment of 130, which the daemon has missed.
abbrev missed : EtherscanTransaction
missed = record {
  id = 41;
  contract_address = "usdc";
  token_symbol = "USDC";
  amount = pos 130;
  sender = "0x9";
  to = "0x7";
  block_number = 12;
  transaction_index = 3;
  hash = "0xbb";
}

-- Another account has two transfers that the daemon does not know.
abbrev foreign : ℕ → EtherscanTransaction
foreign id = record missed { id = id; to = "0x5"; block_number = id; hash = "0xdd" }

abbrev pub chains : Chains
chains = record {
  fetch_asset_balance = λ _ _ _. some (pos 130);
  get_account_transfers = λ _ address.
      if str_eq address "0x7" then some (missed ∷ []) else some (foreign 42 ∷ foreign 43 ∷ []);
  to_lowercase = λ s. s;
}

abbrev pub directory : Directory
directory = record { generate_address = λ _ _. some "0x8"; asset_name = λ _. some "USDC" }

abbrev order : CreateInvoiceParams
order = record {
  order_id = "order-8";
  amount = pos 50;
  cart = empty_cart;
  redirect_url = "https://shop/";
}

abbrev pub new_order : CreateInvoiceParams
new_order = order

pub not_settled :
    (row : Invoice) → find (has_id 7) (invoice ∷ []) ≡ some row → is_settled row.status ≡ false
not_settled row found =
    ap (λ (i : Invoice). is_settled i.status) (sym (found_invoice 7 row found).1)

-- The record that the check finds is the registry's, and its address has one such transfer.
pub few : FewFor chains 7 world
unfolding find_checked get_invoice get_incoming_transactions get_account_incoming_transfers
few r found ts e = one (
    subst (λ (q : InvoiceWithReceivedAmount). get_incoming_transactions chains q ≡ some ts)
      (sym (ok_inj BalanceCheckerError found)) e)
  where
    one : get_incoming_transactions chains entry ≡ some ts → length (missing [] ts) ≤ 1
    one h = subst (λ l. length (missing [] l) ≤ 1) (some_inj h) (omega arith)

check_invoice_balance-IsSound_example : Checks (check_invoice_balance config chains 7 world)
check_invoice_balance-IsSound_example =
    check_invoice_balance-IsSound config chains 7 world world-IsSound not_settled few

handle_expired_invoice-IsSound_example :
    IsSound (world_of (handle_expired_invoice config chains 7 world))
handle_expired_invoice-IsSound_example =
    handle_expired_invoice-IsSound config chains 7 world world-IsSound not_settled few

create_invoice-IsSound_example : IsSound (create_invoice config directory new_order world).1
unfolding ◌+ℤ◌
create_invoice-IsSound_example =
    create_invoice-IsSound config directory new_order world world-IsSound (refl, refl)
