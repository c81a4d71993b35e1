-- ===== src/Registry/Keys.antt =====
-- Keys of the map of daemon/src/chain/invoice_registry.rs.
use kalatori.Types.Invoice.{Decimal, Uuid, InvoiceStatus, InvoiceWithReceivedAmount}
use kalatori.Types.Chain.{ChainType}
use kalatori.Registry.Laws.{
  get_invoice-remove_invoice, get_invoice-put, get_invoice-update_filled_amount,
}
use kalatori.Registry.{
  Registry, get_invoice, put, add_invoice, remove_invoice, is_paid_to, find_invoice_by_address,
  update_filled_amount,
}
use kalatori.Common.{
  String, ◌≡◌, refl, inl, inr, true, none, some, [], ◌∷◌, arith, ◌==◌, Bool-cases, sym, ◌∙◌, subst,
  false, ==_iff, ==_comm, none-some, some_inj,
}

-- The keys are distinct, and are the ids of the invoices under them.
abbrev pub Keyed : Registry → Type 0
Keyed [] = Unit
Keyed ((k, r) ∷ rest) = (r.invoice.id ≡ k) × (get_invoice k rest ≡ none) × Keyed rest

keeps_missing :
    (j k : Uuid) (reg : Registry)
    → get_invoice j reg ≡ none
    → get_invoice j (remove_invoice k reg) ≡ none
keeps_missing j k reg e = elim (Bool-cases (k == j)) [
  | inl f ↦ rw (get_invoice-remove_invoice j k reg, f) refl
  | inr f ↦ rw (get_invoice-remove_invoice j k reg, f) e
]

pub remove_invoice-Keyed : (id : Uuid) (reg : Registry) → Keyed reg → Keyed (remove_invoice id reg)
unfolding remove_invoice
remove_invoice-Keyed id [] e = tt
remove_invoice-Keyed id ((k, r) ∷ rest) (own, distinct, others) = elim (Bool-cases (k == id)) [
  | inl f ↦ rw f (remove_invoice-Keyed id rest others)
  | inr f ↦ rw f (own, keeps_missing k id rest distinct, remove_invoice-Keyed id rest others)
]

update_missing :
    (j k : Uuid) (amount : Decimal) (status : InvoiceStatus) (reg : Registry)
    → get_invoice j reg ≡ none
    → get_invoice j (update_filled_amount k amount status reg) ≡ none
update_missing j k amount status reg e = elim (Bool-cases (k == j)) [
  | inl f ↦ rw (get_invoice-update_filled_amount j k amount status reg, f, e) refl
  | inr f ↦ rw (get_invoice-update_filled_amount j k amount status reg, f) e
]

pub update_filled_amount-Keyed :
    (id : Uuid) (amount : Decimal) (status : InvoiceStatus) (reg : Registry)
    → Keyed reg
    → Keyed (update_filled_amount id amount status reg)
unfolding update_filled_amount
update_filled_amount-Keyed id amount status [] e = tt
update_filled_amount-Keyed id amount status ((k, r) ∷ rest) (own, distinct, others) =
    elim (Bool-cases (k == id)) [
      | inl f ↦ rw f (own, distinct, others)
      | inr f ↦ rw f (
        own,
        update_missing k id amount status rest distinct,
        update_filled_amount-Keyed id amount status rest others,
      )
    ]

put_missing :
    (j k : Uuid) (r : InvoiceWithReceivedAmount) (reg : Registry)
    → (k == j) ≡ false
    → get_invoice j reg ≡ none
    → get_invoice j (put k r reg) ≡ none
put_missing j k r reg e f = rw (get_invoice-put j k r reg, e) f

pub add_invoice-Keyed :
    (r : InvoiceWithReceivedAmount) (reg : Registry) → Keyed reg → Keyed (add_invoice r reg)
unfolding add_invoice put get_invoice
add_invoice-Keyed r [] e = (refl, refl, tt)
add_invoice-Keyed r ((k, q) ∷ rest) (own, distinct, others) =
    elim (Bool-cases (k == r.invoice.id)) [
      | inl f ↦ rw f (
        refl,
        subst (λ j. get_invoice j rest ≡ none) ((==_iff k r.invoice.id).0 f) distinct,
        others,
      )
      | inr f ↦ rw f (
        own,
        put_missing k r.invoice.id r rest (==_comm r.invoice.id k ∙ f) distinct,
        add_invoice-Keyed r rest others,
      )
    ]

-- In a registry with distinct keys, an invoice that is found by address, chain and asset is the one
-- under its id, and is paid to that address on that chain in that asset.
pub find_invoice_by_address_lem :
    (address : String) (chain : ChainType) (asset_id : String) (reg : Registry)
    (r : InvoiceWithReceivedAmount)
    → Keyed reg
    → find_invoice_by_address address chain asset_id reg ≡ some r
    → (get_invoice r.invoice.id reg ≡ some r) × (is_paid_to address chain asset_id r ≡ true)
unfolding find_invoice_by_address get_invoice
find_invoice_by_address_lem address chain asset_id [] r keyed e = grind arith
find_invoice_by_address_lem address chain asset_id ((k, q) ∷ rest) r (own, distinct, others) e =
    elim (Bool-cases (is_paid_to address chain asset_id q)) [
      | inl f ↦
          subst
            (λ z.
              (get_invoice z.invoice.id ((k, q) ∷ rest) ≡ some z)
              × (is_paid_to address chain asset_id z ≡ true))
            (some_inj (rw f at e)) (rw ((==_iff k q.invoice.id).1 (sym own)) refl, f)
      | inr f ↦
          let found =
            find_invoice_by_address_lem address chain asset_id rest r others (rw f at e) in
          elim (Bool-cases (k == r.invoice.id)) [
            | inl g ↦ absurd (
                none-some (
                  sym
                    (subst (λ j. get_invoice j rest ≡ none) ((==_iff k r.invoice.id).0 g) distinct)
                  ∙ found.0))
            | inr g ↦ (rw g found.0, found.1)
          ]
    ]
