-- ===== src/Tests/Feeds.antt =====
-- Runs of the change feed.
use kalatori.Types.ChangesJson.ReadBack.{ReadSwap, Reads}
use kalatori.Types.ChangesJson.{Codec}
use kalatori.AppState.Feed.Shown.{shown_response}
use kalatori.Tests.Letters.{letters_of, letters, letters-letters_of, letters_given}
use kalatori.AppState.Feed.{get_changes, invoices_response, get_all_changes}
use kalatori.AppState.Feed.Snapshot.{get_changes-snapshot}
use kalatori.AppState.Feed.Changed.{changed_invoices}
use kalatori.AppState.Feed.Agreement.{get_changes-since}
use kalatori.Dao.AllRows.{
  get_all_invoices, get_all_transactions, get_all_payouts, get_all_refunds, get_all_front_end_swaps,
}
use kalatori.Dao.Store.{Store, query, now, map_err, ◌>>=◌}
use kalatori.Types.Changes.{PublicChangesResponse, FrontEndSwap, public_changes}
use kalatori.Types.Transaction.{from_incoming}
use kalatori.Common.Int.{pos}
use kalatori.Common.{◌≡◌, refl, inl, some, none, ok, [], ◌∷◌, suc, ◌-◌, ap, ℕ, arith}
use kalatori.Tests.{config, payment}
use kalatori.Tests.Tables.{waiting_store}

abbrev front_end_swap : FrontEndSwap
front_end_swap = record {
  id = 91;
  invoice_id = 7;
  from_amount_units = 5;
  from_chain_id = 10;
  from_asset_id = "0xc";
  transaction_hash = "0xee";
  created_at = 2300;
  updated_at = 2300;
}

-- An invoice with a payment, a payout and a refund.
abbrev busy_store : Store
busy_store = record waiting_store {
  db = record waiting_store.db {
    transactions = from_incoming 2500 (payment (pos 40)) ∷ [];
    front_end_swaps = front_end_swap ∷ [];
  };
}

-- An id and a time as so many letters.
abbrev codec : Codec
codec = record {
  hex = λ id. letters_of (suc id);
  from_hex = λ s. some (letters s - 1);
  time_text = λ t. letters_of (suc t);
  parse_from_rfc3339 = λ s. none;
  parse_with_fraction = λ s. some (letters s - 1);
  parse_without_fraction = λ s. none;
  units_text = λ n. letters_of n;
  parse_units = λ s. some (letters s);
  parse_address = λ s. some s;
  scan = λ invoices. invoices;
}

readable : ReadSwap codec front_end_swap
readable = (ap some (letters-letters_of 5), refl)

one_less_of : (a n : ℕ) → a ≡ suc n → a - 1 ≡ n
one_less_of a n e = omega arith

read_back : (n : ℕ) → some (letters (letters_of (suc n)) - 1) ≡ some n
read_back n = ap some (one_less_of (letters (letters_of (suc n))) n (letters-letters_of (suc n)))

codec-Reads : Reads codec
codec-Reads = record {
  ids = read_back;
  ids_given = letters_given;
  not_rfc3339 = λ t. refl;
  times = λ t. inl (read_back t);
  times_given = letters_given;
}

abbrev snapshot : PublicChangesResponse
snapshot = shown_response config.payment_url busy_store.db busy_store.db.invoices 2000

taken_snapshot : (get_changes config.payment_url codec none busy_store).0 ≡ ok snapshot
unfolding get_changes get_all_changes get_all_invoices get_all_transactions get_all_payouts
    get_all_refunds get_all_front_end_swaps invoices_response now query map_err ◌>>=◌ public_changes
taken_snapshot = refl

get_changes-snapshot_example :
    snapshot ≡ shown_response config.payment_url busy_store.db busy_store.db.invoices 2000
get_changes-snapshot_example =
    get_changes-snapshot config.payment_url codec busy_store snapshot (tt, tt) taken_snapshot

-- The invoice itself is older; its payment is not.
get_changes-since_example :
    (get_changes config.payment_url codec (some 2400) busy_store).0
    ≡ ok
        (shown_response config.payment_url busy_store.db (changed_invoices 2400 busy_store.db) 2001)
get_changes-since_example =
    get_changes-since config.payment_url codec 2400 busy_store codec-Reads ((tt, tt), (tt, tt))
      (readable, tt) ((λ _. (refl, refl), inl refl), tt) refl
