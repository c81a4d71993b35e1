-- ===== src/Ledger/Rows.antt =====
-- The statements of daemon/src/dao on outgoing transactions and on swaps keep the books too.
use kalatori.Common.Int.{◌+ℤ◌, sum_where-append, pos}
use kalatori.Types.Invoice.{Uuid}
use kalatori.Types.SwapOrder.{SwapStatus, Swap}
use kalatori.Types.Swap.{chain_id}
use kalatori.Dao.Store.{query, Db}
use kalatori.Dao.Invoices.{has_id, received_for}
use kalatori.Ledger.Sound.{add_zero}
use kalatori.Ledger.Keeping.{SameBooks, Keeps, query-Keeps, sum_where-update}
use kalatori.Common.{
  [], ◌∷◌, ℕ, String, ◌≡◌, refl, ap, ◌∙◌, inl, inr, Bool, false, not, ◌&&◌, ◌||◌, ◌++◌, arith, ◌==◌,
  if◌then◌else◌, Bool-cases, Option-cases, find, update, exists,
}
use kalatori.Types.Transaction.{
  from_outgoing, Transaction, completed, failed, TransactionStatus, is_incoming, TransferInfo,
  GeneralTransactionId, OutgoingTransaction,
}
use kalatori.Dao.Transactions.{
  create_transaction, settle, transition_allowed, database_error, has_transaction_id, clashes,
  DaoTransactionError, update_transaction_successful, update_transaction_failed,
}
use kalatori.Dao.Swaps.{
  has_swap_id, transition_allowed as swap_transition_allowed, DaoSwapError, create_swap,
  change_swap, update_swap_set_signature, update_swap_submitted_with_hash, update_swap_completed,
  update_swap_failed,
}

transactions_changed :
    (db : Db) (p : Transaction → Bool) (f : Transaction → Transaction)
    → ((x : Transaction) → (f x).invoice_id ≡ x.invoice_id)
    → ((x : Transaction) → (f x).transaction_type ≡ x.transaction_type)
    → ((x : Transaction) → (f x).transfer_info ≡ x.transfer_info)
    → SameBooks db (record db { transactions = update p f db.transactions })
transactions_changed db p f same_invoice same_type same_info = (
  refl,
  λ id. (
    sum_where-update (λ x. (x.invoice_id == id) && is_incoming x) p f (λ x. x.transfer_info.amount)
        db.transactions (λ x. rw (same_invoice x, same_type x) refl)
        (λ x. ap (λ (i : TransferInfo). i.amount) (same_info x)),
    refl,
  ),
)

-- An outgoing transaction is not received.
outgoing_appended :
    (db : Db) (time : ℕ) (o : OutgoingTransaction)
    → SameBooks db (record db { transactions = db.transactions ++ from_outgoing time o ∷ [] })
outgoing_appended db time o = (
  refl,
  λ id. (
    sum_where-append (λ x. (x.invoice_id == id) && is_incoming x) (λ x. x.transfer_info.amount)
          db.transactions (from_outgoing time o)
        ∙ ap (λ b. received_for id db.transactions +ℤ (if b then o.transfer_info.amount else pos 0))
            (and_false (o.invoice_id == id))
        ∙ add_zero _,
    refl,
  ),
)
  where
    and_false : (b : Bool) → (b && false) ≡ false
    and_false b = ground arith

pub create_outgoing-Keeps :
    (time : ℕ) (o : OutgoingTransaction) → Keeps (create_transaction (from_outgoing time o))
unfolding create_transaction
create_outgoing-Keeps time o = query-Keeps database_error _ λ _ db.
    elim (Bool-cases
      (exists (λ u. (u.id == o.id) || clashes (from_outgoing time o) u) db.transactions)) [
        | inl e ↦ rw e tt
        | inr e ↦ rw e (elim (Bool-cases (exists (has_id o.invoice_id) db.invoices)) [
          | inl f ↦ rw f (outgoing_appended db time o)
          | inr f ↦ rw f tt
        ])
      ]

settle-Keeps :
    (id : Uuid) (status : TransactionStatus) (f : Transaction → Transaction)
    → ((x : Transaction) → (f x).invoice_id ≡ x.invoice_id)
    → ((x : Transaction) → (f x).transaction_type ≡ x.transaction_type)
    → ((x : Transaction) → (f x).transfer_info ≡ x.transfer_info)
    → (fault : DaoTransactionError) → Keeps (query fault λ _ db. settle id status f db)
unfolding settle
settle-Keeps id status f same_invoice same_type same_info fault = query-Keeps fault _ λ _ db.
    elim (Option-cases (find (has_transaction_id id) db.transactions)) [
      | inl e ↦ rw (e, settle) tt
      | inr (row, e) ↦
          rw (e, settle)
            (elim (Bool-cases (transition_allowed row.status status)) [
              | inr g ↦ rw (g, settle) tt
              | inl g ↦
                  rw (g, settle)
                    (elim (Bool-cases
                      (exists (λ u. not (u.id == id) && clashes (f row) u) db.transactions)) [
                        | inl h ↦ rw (h, settle) tt
                        | inr h ↦
                            rw (h, settle)
                              (transactions_changed db (has_transaction_id id) f same_invoice
                                same_type same_info)
                      ])
            ])
    ]

pub update_transaction_successful-Keeps :
    (id : Uuid) (chain_id : GeneralTransactionId) (time : ℕ)
    → Keeps (update_transaction_successful id chain_id time)
unfolding update_transaction_successful
update_transaction_successful-Keeps id chain_id time =
    settle-Keeps id completed _ (λ _. refl) (λ _. refl) (λ _. refl) database_error

pub update_transaction_failed-Keeps :
    (id : Uuid) (chain_id : GeneralTransactionId) (message : String) (time : ℕ)
    → Keeps (update_transaction_failed id chain_id message time)
unfolding update_transaction_failed
update_transaction_failed-Keeps id chain_id message time =
    settle-Keeps id failed _ (λ _. refl) (λ _. refl) (λ _. refl) database_error

-- The books do not read the swaps.
pub create_swap-Keeps : (s : Swap) → Keeps (create_swap s)
unfolding create_swap
create_swap-Keeps s = query-Keeps _ _ λ _ db.
    elim (Bool-cases (exists (has_swap_id s.id) db.swaps)) [
      | inl e ↦ rw e tt
      | inr e ↦ rw e (elim (Bool-cases (exists (has_id s.request.invoice_id) db.invoices)) [
        | inl f ↦ rw f (refl, λ id. (refl, refl))
        | inr f ↦ rw f tt
      ])
    ]

change_swap-Keeps :
    (id : Uuid) (status : SwapStatus) (f : ℕ → Swap → Swap) (fault : DaoSwapError)
    → Keeps (query fault λ time db. change_swap id status (f time) db)
unfolding change_swap
change_swap-Keeps id status f fault = query-Keeps fault _ λ time db.
    elim (Option-cases (find (has_swap_id id) db.swaps)) [
      | inl e ↦ rw (e, change_swap) tt
      | inr (row, e) ↦
          rw (e, change_swap)
            (elim (Bool-cases (swap_transition_allowed row.status status)) [
              | inl g ↦ rw (g, change_swap) (refl, λ id. (refl, refl))
              | inr g ↦ rw (g, change_swap) tt
            ])
    ]

pub update_swap_set_signature-Keeps :
    (id : Uuid) (signature : String) → Keeps (update_swap_set_signature id signature)
unfolding update_swap_set_signature
update_swap_set_signature-Keeps id signature = query-Keeps _ _ λ _ db.
    elim (Option-cases (find (has_swap_id id) db.swaps)) [
      | inl e ↦ rw e tt
      | inr (row, e) ↦ rw e (refl, λ id. (refl, refl))
    ]

pub update_swap_submitted_with_hash-Keeps :
    (id : Uuid) (hash : String) → Keeps (update_swap_submitted_with_hash id hash)
unfolding update_swap_submitted_with_hash
update_swap_submitted_with_hash-Keeps id hash = change_swap-Keeps id _ _ _

pub update_swap_completed-Keeps : (id : Uuid) → Keeps (update_swap_completed id)
unfolding update_swap_completed
update_swap_completed-Keeps id = change_swap-Keeps id _ _ _

pub update_swap_failed-Keeps :
    (id : Uuid) (message : String) → Keeps (update_swap_failed id message)
unfolding update_swap_failed
update_swap_failed-Keeps id message = change_swap-Keeps id _ _ _
