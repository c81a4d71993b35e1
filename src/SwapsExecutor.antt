-- ===== src/SwapsExecutor.antt =====
-- The executor of swaps: daemon/src/swaps/executor.rs. The services that carry the swaps out
-- are parameters.
use kalatori.Types.Invoice.{Uuid}
use kalatori.Ledger.Rows.{
  create_swap-Keeps, update_swap_set_signature-Keeps, update_swap_submitted_with_hash-Keeps,
}
use kalatori.Ledger.Keeping.{
  Keeps, lift-Keeps, map_err-Keeps, bind-Keeps, pure-Keeps, now-Keeps, new_uuid-Keeps,
}
use kalatori.Common.{ok, err, String, Bool, true, false, Option, if◌then◌else◌, Result, ok_or}
use kalatori.Types.SwapOrder.{
  across, bungee, zero_ex, zero_ex_gasless, SwapExecutorType, new_swap, CreateSwapData, SwapDetails,
  SwapQuote, Swap,
}
use kalatori.Dao.Swaps.{
  not_found, invoice_not_found, DaoSwapError, create_swap, update_swap_set_signature,
  update_swap_submitted_with_hash,
}
use kalatori.Dao.Store.{◌>>=◌, ◌>>◌, now, Dao, pure, lift, map_err, new_uuid}

pub data SwapsExecutorError : Type 0 where
  quote_request_failed executor_database_error : SwapsExecutorError
  swap_not_found swap_invoice_not_found : Uuid → SwapsExecutorError

-- What the clients of the services answer.
pub record SwapsClients : Type 0 where
  pub get_quote : CreateSwapData → Option SwapQuote
  pub sign_transaction : Swap → Option String
  pub submit_transaction : SwapDetails → Option String

abbrev pub created_error : DaoSwapError → SwapsExecutorError
created_error (invoice_not_found id) = swap_invoice_not_found id
created_error _ = executor_database_error

abbrev pub updated_error : DaoSwapError → SwapsExecutorError
updated_error (not_found id) = swap_not_found id
updated_error _ = executor_database_error

unfoldable pub create_swap_of : SwapsClients → CreateSwapData → Dao SwapsExecutorError Swap
create_swap_of clients data' = do
  quote ← lift (ok_or (clients.get_quote data') quote_request_failed)
  id ← new_uuid
  time ← now
  map_err created_error (create_swap (new_swap id time data' quote))

-- The executors that take a signature.
abbrev pub takes_signature : SwapExecutorType → Bool
takes_signature across = false
takes_signature bungee = true
takes_signature zero_ex = true
takes_signature zero_ex_gasless = true

abbrev checked_executor : SwapExecutorType → Result SwapsExecutorError (Unit {0})
checked_executor executor = if takes_signature executor then ok tt else err executor_database_error

-- The swap that is returned is the one from before the hash is stored.
unfoldable pub submit_with_signature :
    SwapsClients → Uuid → SwapExecutorType → String → Dao SwapsExecutorError Swap
submit_with_signature clients swap_id executor signature = do
  lift (checked_executor executor)
  swap ← map_err updated_error (update_swap_set_signature swap_id signature)
  transaction_hash ←
      lift (ok_or (clients.submit_transaction swap.swap_details) quote_request_failed)
  map_err updated_error (update_swap_submitted_with_hash swap_id transaction_hash)
  pure swap

unfoldable pub update_swap_submitted_on_front_end : Uuid → String → Dao SwapsExecutorError Swap
update_swap_submitted_on_front_end swap_id transaction_hash =
    map_err updated_error (update_swap_submitted_with_hash swap_id transaction_hash)

pub create_swap_of-Keeps :
    (clients : SwapsClients) (data' : CreateSwapData) → Keeps (create_swap_of clients data')
unfolding create_swap_of
create_swap_of-Keeps clients data' = bind-Keeps _ _ (lift-Keeps _) λ quote.
    bind-Keeps _ _ (new_uuid-Keeps _) λ id.
      bind-Keeps _ _ (now-Keeps _)
        λ time. map_err-Keeps _ _ (create_swap-Keeps (new_swap id time data' quote))

pub submit_with_signature-Keeps :
    (clients : SwapsClients) (swap_id : Uuid) (executor : SwapExecutorType) (signature : String)
    → Keeps (submit_with_signature clients swap_id executor signature)
unfolding submit_with_signature
submit_with_signature-Keeps clients swap_id executor signature = bind-Keeps _ _ (lift-Keeps _) λ _.
    bind-Keeps _ _ (map_err-Keeps _ _ (update_swap_set_signature-Keeps swap_id signature)) λ swap.
      bind-Keeps _ _ (lift-Keeps _) λ transaction_hash.
        bind-Keeps _ _
          (map_err-Keeps _ _ (update_swap_submitted_with_hash-Keeps swap_id transaction_hash))
          λ _. pure-Keeps _ swap
