-- ===== src/World.antt =====
-- What the daemon's tasks share: the database and the registry. A task that panics takes the
-- process down (`panic = "abort"`), so nothing runs after a panic.
use kalatori.Dao.Invoices.{get_active_invoices_with_amounts}
use kalatori.Common.{[]}
use kalatori.Dao.Store.{Store, ◌>>=◌, Dao, pure, map_err}
use kalatori.Registry.{Registry, add_invoices}

pub record World : Type 0 where
  pub store : Store
  pub registry : Registry

-- `Error::Fatal` of daemon/src/error.rs, which ends the start.
pub data StartError : Type 0 where
  fatal : StartError

-- `init_invoice_registry` of daemon/src/main.rs.
unfoldable pub init_invoice_registry : Dao StartError Registry
init_invoice_registry = do
  restore_invoices ← map_err (λ _. fatal) get_active_invoices_with_amounts
  pure (add_invoices restore_invoices [])
