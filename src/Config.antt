-- ===== src/Config.antt =====
-- `PaymentsConfig` of daemon/src/configs/types.rs.
use kalatori.Common.{ℕ, Option, String, unwrap_or}
use kalatori.Common.Int.{pos}
use kalatori.Types.Chain.{ChainType}
use kalatori.Types.Invoice.{Uuid, Decimal}

pub record SlippageParams : Type 0 where
  pub underpayment_tolerance : Decimal
  pub overpayment_tolerance : Decimal

-- `SlippageParams::default`
abbrev pub default_slippage : SlippageParams
default_slippage = record { underpayment_tolerance = pos 0; overpayment_tolerance = pos 0 }

-- The maps are functions; `payment_url` is `payment_url_base` with the text that
-- `into_public_invoice` appends for an invoice id.
pub record PaymentsConfig : Type 0 where
  pub recipient : ChainType → Option String
  pub invoice_lifetime_millis : ℕ
  pub default_chain : ChainType
  pub default_asset_id : ChainType → Option String
  pub payment_url : Uuid → String
  pub slippage_params : ChainType → String → Option SlippageParams

abbrev pub get_asset_slippage_params : PaymentsConfig → ChainType → String → SlippageParams
get_asset_slippage_params c chain asset_id =
    unwrap_or (c.slippage_params chain asset_id) default_slippage

abbrev pub get_asset_underpayment_tolerance : PaymentsConfig → ChainType → String → Decimal
get_asset_underpayment_tolerance c chain asset_id =
    (get_asset_slippage_params c chain asset_id).underpayment_tolerance

abbrev pub get_asset_overpayment_tolerance : PaymentsConfig → ChainType → String → Decimal
get_asset_overpayment_tolerance c chain asset_id =
    (get_asset_slippage_params c chain asset_id).overpayment_tolerance
