-- ===== src/Recorder/Storing.antt =====
-- `store_transaction` of daemon/src/chain/transactions_recorder.rs: its outcome and what it needs.
use kalatori.Dao.Transactions.{same_coordinates}
use kalatori.Dao.Effects.{
  with_status, Ensures-create_transaction, Ensures-update_invoice_status, Moved,
}
use kalatori.Types.Transaction.{Transaction, from_incoming, IncomingTransaction}
use kalatori.Dao.Invoices.{transition_allowed, has_id}
use kalatori.Dao.WebhookEvents.{has_event_id}
use kalatori.Dao.Transfers.{has_payout_id, has_refund_id}
use kalatori.Types.Chain.{ChainType}
use kalatori.Recorder.Outcome.{Outcome, Ensures-add_payout, Ensures-add_webhook, Ensures-add_refund}
use kalatori.Dao.Store.Triples.{
  Ensures, Ensures-bind, Ensures-mono, Ensures-map_err, Ensures-bind_now, Ensures-transaction,
}
use kalatori.Common.{
  ℕ, ◌≡◌, true, none, exists, refl, false, ◌≢◌, Bool, ◌||◌, some, List, [], ◌∷◌, ◌++◌, arith, ◌==◌,
  find, update, find_exists, ==_iff, find_passes, exists-update, Option, contrary,
}
use kalatori.Dao.Store.{Env, Db, Store}
use kalatori.Recorder.{add_outcome, store_body, store_transaction}
use kalatori.Config.{PaymentsConfig}
use kalatori.Types.Invoice.{
  paid, partially_paid, over_paid, waiting, unpaid_expired, partially_paid_expired,
  customer_canceled, admin_canceled, Invoice, InvoiceStatus, Decimal, is_final,
}

-- What an outcome other than `Ok` gives a reason for, one field per way to fail.
record Reasons (config : PaymentsConfig) (i : Invoice) (status : InvoiceStatus) (env : Env)
    (old : Db) (Z : Type 0) : Type 0 where
  faults : (n : ℕ) → env.faulty n ≡ true → Z
  missing : is_final status ≡ true → config.recipient i.chain ≡ none → Z
  hub : is_final status ≡ true → i.chain ≡ ChainType.polkadot_asset_hub → Z
  dup_payout : (n : ℕ) → exists (has_payout_id (env.uuid n)) old.payouts ≡ true → Z
  dup_refund : (n : ℕ) → exists (has_refund_id (env.uuid n)) old.refunds ≡ true → Z
  dup_event : (n : ℕ) → exists (has_event_id (env.uuid n)) old.webhook_events ≡ true → Z
  orphan : exists (has_id i.id) old.invoices ≡ false → Z

Ensures-add_outcome :
    (env : Env) (Z : Type 0) (config : PaymentsConfig) (i : Invoice) (status : InvoiceStatus)
    (total : Decimal) (s : Store) (old : Db)
    → s.env ≡ env
    → s.db ≡ old
    → Reasons config i status env old Z
    → Ensures env Z
        (λ _ db. Outcome config i status total old db)
        (add_outcome config i status total s)
unfolding add_outcome
Ensures-add_outcome env Z config i paid total s old same is_old r =
    Ensures-bind env Z _ _ _ _ s
      (Ensures-add_payout env Z r.faults s same old is_old config i total (r.missing refl)
        (r.hub refl) r.dup_payout r.orphan)
      λ _ s' same' (p, pays, e).
        Ensures-mono env Z _ _ _ (Ensures-add_webhook env Z r.faults s' same' _ e _ _ r.dup_event)
          λ _ db (event, announces, e'). (p, event, pays, announces, e')
Ensures-add_outcome env Z config i partially_paid total s old same is_old r =
    Ensures-add_webhook env Z r.faults s same old is_old _ _ r.dup_event
Ensures-add_outcome env Z config i over_paid total s old same is_old r =
    Ensures-bind env Z _ _ _ _ s
      (Ensures-add_payout env Z r.faults s same old is_old config i i.amount (r.missing refl)
        (r.hub refl) r.dup_payout r.orphan)
      λ _ s' same' (p, pays, e).
        Ensures-bind env Z _ _ _ _ s'
          (Ensures-add_refund env Z r.faults s' same' _ e i _ r.dup_refund r.orphan)
          λ _ s'' same'' (given, gives, e').
            Ensures-mono env Z _ _ _
              (Ensures-add_webhook env Z r.faults s'' same'' _ e' _ _ r.dup_event)
              λ _ db (event, announces, e''). (p, given, event, pays, gives, announces, e'')
Ensures-add_outcome env Z config i waiting total s old same is_old r = (same, is_old)
Ensures-add_outcome env Z config i unpaid_expired total s old same is_old r = (same, is_old)
Ensures-add_outcome env Z config i partially_paid_expired total s old same is_old r = (same, is_old)
Ensures-add_outcome env Z config i customer_canceled total s old same is_old r = (same, is_old)
Ensures-add_outcome env Z config i admin_canceled total s old same is_old r = (same, is_old)

-- The tables with the transaction and the new status, before the outcome is added.
abbrev pub booked : IncomingTransaction → InvoiceStatus → ℕ → ℕ → Db → Db
booked t status time changed old = record old {
  transactions = old.transactions ++ from_incoming time t ∷ [];
  invoices = update (has_id t.invoice_id) (with_status status changed) old.invoices;
}

-- A success of `store_transaction`, from the tables `old` to the tables `new`.
abbrev pub Stored :
    PaymentsConfig → IncomingTransaction → InvoiceStatus → Decimal → Db → Db → Type 0
Stored config t status total old new =
    (row : Invoice) × (time : ℕ) × (changed : ℕ) × (find (has_id t.invoice_id) old.invoices
      ≡ some row)
    × (transition_allowed row.status status ≡ true)
    × Outcome config (with_status status changed row) status total
        (booked t status time changed old) new

-- Some row has the id of the transaction, or its place on the chain.
abbrev pub is_known : IncomingTransaction → List Transaction → Bool
is_known t = exists λ u.
    (u.id == t.id)
    || same_coordinates t.transfer_info.chain t.transaction_id u.transfer_info.chain
        u.transaction_id

-- Enough for `store_transaction` to succeed.
pub record Ready (config : PaymentsConfig) (t : IncomingTransaction) (status : InvoiceStatus)
    (s : Store) : Type 0 where
  -- The engine does not fail.
  pub quiet : (n : ℕ) → s.env.faulty n ≡ false
  pub unknown : is_known t s.db.transactions ≡ false
  pub row : Invoice
  pub found : find (has_id t.invoice_id) s.db.invoices ≡ some row
  pub allowed : transition_allowed row.status status ≡ true
  -- A final status needs a recipient, and a chain that payouts know.
  pub payable : is_final status ≡ true → config.recipient row.chain ≢ none
  pub supported : is_final status ≡ true → row.chain ≢ ChainType.polkadot_asset_hub
  -- The new ids are new.
  pub payout_ids : (n : ℕ) → exists (has_payout_id (s.env.uuid n)) s.db.payouts ≡ false
  pub refund_ids : (n : ℕ) → exists (has_refund_id (s.env.uuid n)) s.db.refunds ≡ false
  pub event_ids : (n : ℕ) → exists (has_event_id (s.env.uuid n)) s.db.webhook_events ≡ false

-- The row that is found is the one of `Ready`.
same_row : (o : Option Invoice) {a b : Invoice} → o ≡ some a → o ≡ some b → a ≡ b
same_row o is_a is_b = grind arith

module _ (config : PaymentsConfig) (t : IncomingTransaction) (status : InvoiceStatus)
    (s : Store) where
  faults : (n : ℕ) → s.env.faulty n ≡ true → ¬ Ready config t status s
  faults n e ready = contrary _ e (ready.quiet n)

  orphan : exists (has_id t.invoice_id) s.db.invoices ≡ false → ¬ Ready config t status s
  orphan e ready = contrary _ (find_exists (has_id t.invoice_id) s.db.invoices _ ready.found) e

  missing : find (has_id t.invoice_id) s.db.invoices ≡ none → ¬ Ready config t status s
  missing e ready = grind (arith, ready.found)

  refused :
      (row : Invoice)
      → find (has_id t.invoice_id) s.db.invoices ≡ some row
      → transition_allowed row.status status ≡ false
      → ¬ Ready config t status s
  refused row e f ready =
      contrary _
        (rw (same_row (find (has_id t.invoice_id) s.db.invoices) ready.found e) at ready.allowed) f

  reasons :
      (row : Invoice) (time changed : ℕ)
      → find (has_id t.invoice_id) s.db.invoices ≡ some row
      → Reasons config
          (with_status status changed row)
          status
          s.env
          (booked t status time changed s.db)
          (¬ Ready config t status s)
  reasons row time changed found = record {
    faults = faults;
    missing = λ f e ready.
        ready.payable f
          (rw (same_row (find (has_id t.invoice_id) s.db.invoices) ready.found found) e);
    hub = λ f e ready.
        ready.supported f
          (rw (same_row (find (has_id t.invoice_id) s.db.invoices) ready.found found) e);
    dup_payout = λ n e ready. contrary _ e (ready.payout_ids n);
    dup_refund = λ n e ready. contrary _ e (ready.refund_ids n);
    dup_event = λ n e ready. contrary _ e (ready.event_ids n);
    orphan = λ e. orphan (
        rw
          (
            (==_iff row.id t.invoice_id).0 (find_passes (has_id t.invoice_id) _ _ found),
            exists-update (has_id t.invoice_id) (has_id t.invoice_id) (with_status status changed)
                s.db.invoices (λ _. refl),
          )
          at e);
  }

  finish_outcome :
      (row : Invoice) (time changed : ℕ) (total : Decimal)
      → find (has_id t.invoice_id) s.db.invoices ≡ some row
      → transition_allowed row.status status ≡ true
      → (s' : Store) → s'.env ≡ s.env
      → s'.db ≡ booked t status time changed s.db
      → Ensures s.env
          (¬ Ready config t status s)
          (λ _ new. Stored config t status total s.db new)
          (add_outcome config (with_status status changed row) status total s')
  finish_outcome row time changed total found allowed s' same' e =
      let i : Invoice = with_status status changed row in
      let base : Db = booked t status time changed s.db in
      let r : Reasons config i status s.env base (¬ Ready config t status s) =
        reasons row time changed found in
      Ensures-mono s.env _ (λ _ new. Stored config t status total s.db new)
        (λ _ db. Outcome config i status total base db) (add_outcome config i status total s')
        (Ensures-add_outcome s.env _ config i status total s' base same' e r)
        λ _ db o. (row, time, changed, found, allowed, o)

  pub Ensures-store_transaction :
      (total : Decimal)
      → Ensures s.env
          (¬ Ready config t status s)
          (λ _ new. Stored config t status total s.db new)
          (store_transaction config t status total s)
  unfolding store_transaction store_body
  Ensures-store_transaction total = Ensures-transaction s.env _ _ faults _ _ _ s refl (
      Ensures-bind_now s.env _ _ _ _ λ time.
        Ensures-bind s.env _ _ _ _ _ _
          (Ensures-map_err s.env _ _ _ _ _ (
            Ensures-create_transaction s.env _ faults _ refl (from_incoming time t)
              (λ e ready. contrary _ e ready.unknown) orphan))
          λ _ s' same' e.
            Ensures-bind s.env _ (Moved t.invoice_id status s'.db) _ _ _ _
              (Ensures-map_err s.env _ _ _ _ _ (
                Ensures-update_invoice_status s.env _ faults s' same' t.invoice_id status
                  (λ h ready. missing (rw e at h) ready) (λ row f h. refused row (rw e at f) h)))
              λ i s'' same'' (row, changed, found, allowed, is_row, e'). rw is_row (
                finish_outcome row time changed total (rw e at found) allowed s'' same''
                  (rw e at e')))
