-- ===== src/Dao/Transactions/Uniqueness.antt =====
-- Ids and places on the chains in the table `transactions` (daemon/src/dao/transaction.rs).
use kalatori.Types.Transaction.{Transaction}
use kalatori.Types.Chain.{ChainType, chain_eq}
use kalatori.Dao.Store.{query, Store}
use kalatori.Dao.Transactions.{both, same_coordinates, clashes, create_transaction}
use kalatori.Dao.Invoices.{has_id}
use kalatori.Common.{
  String, ◌≡◌, refl, inl, inr, Bool, false, ◌||◌, Option, some, List, [], ◌∷◌, ◌++◌, arith, str_eq,
  ◌==◌, Bool-cases, exists, eq_iff, or_false, ℕ, subst, true, ◌&&◌, All,
}

-- Two rows that may stand together: they have not the same id, and on the same chain not the same
-- hash, and not the same block with the same position in it. A missing value is the same as
-- nothing.
abbrev pub Apart : Transaction → Transaction → Type 0
Apart t u =
    ¬ (t.id ≡ u.id)
    × ((hash : String)
        → t.transfer_info.chain ≡ u.transfer_info.chain
        → t.transaction_id.tx_hash ≡ some hash
        → ¬ (u.transaction_id.tx_hash ≡ some hash))
    × ((block position : ℕ)
        → t.transfer_info.chain ≡ u.transfer_info.chain
        → t.transaction_id.block_number ≡ some block
        → u.transaction_id.block_number ≡ some block
        → t.transaction_id.position_in_block ≡ some position
        → ¬ (u.transaction_id.position_in_block ≡ some position))

abbrev pub Distinct : List Transaction → Type 0
Distinct [] = Unit
Distinct (t ∷ ts) = All (Apart t) ts × Distinct ts

str_eq_self : (a : String) → str_eq a a ≡ true
str_eq_self a = (eq_iff a a).1 refl

id_self : (a : ℕ) → (a == a) ≡ true
id_self a = ground arith

chain_eq_self : (c : ChainType) → chain_eq c c ≡ true
chain_eq_self ChainType.polkadot_asset_hub = refl
chain_eq_self ChainType.polygon = refl

both_self {ℓ} :
    {A : Type ℓ} (eq : A → A → Bool) (a : A) (x y : Option A)
    → eq a a ≡ true
    → x ≡ some a
    → y ≡ some a
    → both eq x y ≡ true
both_self eq a x y h e f = rw (e, f) h

or_both : (a b : Bool) → (a || b) ≡ false → (a ≡ false) × (b ≡ false)
or_both a b h = ground arith

hash_clash : (c x y z : Bool) → c ≡ true → x ≡ true → (c && (x || (y && z))) ≡ false → ⊥
hash_clash c x y z h i e = ground arith

place_clash : (c x y z : Bool) → c ≡ true → y ≡ true → z ≡ true → (c && (x || (y && z))) ≡ false → ⊥
place_clash c x y z h i j e = ground arith

same_chain_test : (c d : ChainType) → c ≡ d → chain_eq d c ≡ true
same_chain_test c d e = subst (λ x. chain_eq x c ≡ true) e (chain_eq_self c)

-- A row that does not clash with the new one is apart from it.
clashes-Apart : (t u : Transaction) → ((u.id == t.id) || clashes t u) ≡ false → Apart u t
unfolding same_coordinates
clashes-Apart t u h =
    let (ids, places) = or_both (u.id == t.id) (clashes t u) h in
    (
      λ same. differ u.id t.id ids same,
      λ hash chain e f.
          hash_clash _ _ (both ◌==◌ t.transaction_id.block_number u.transaction_id.block_number)
            (both ◌==◌ t.transaction_id.position_in_block u.transaction_id.position_in_block)
            (same_chain_test u.transfer_info.chain t.transfer_info.chain chain)
            (both_self str_eq hash t.transaction_id.tx_hash u.transaction_id.tx_hash
              (str_eq_self hash) f e)
            places,
      λ block position chain e f e' f'.
          place_clash _ (both str_eq t.transaction_id.tx_hash u.transaction_id.tx_hash) _ _
            (same_chain_test u.transfer_info.chain t.transfer_info.chain chain)
            (both_self ◌==◌ block t.transaction_id.block_number u.transaction_id.block_number
              (id_self block) f e)
            (both_self ◌==◌ position t.transaction_id.position_in_block
              u.transaction_id.position_in_block (id_self position) f' e')
            places,
    )
  where
    differ : (a b : ℕ) → (a == b) ≡ false → a ≡ b → ⊥
    differ a b h e = ground arith

All-append_one :
    (P : Transaction → Type 0) (ts : List Transaction) (t : Transaction)
    → All P ts
    → P t
    → All P (ts ++ t ∷ [])
All-append_one P [] t all h = (h, tt)
All-append_one P (u ∷ us) t (first, all) h = (first, All-append_one P us t all h)

append-Distinct :
    (ts : List Transaction) (t : Transaction)
    → Distinct ts
    → exists (λ u. (u.id == t.id) || clashes t u) ts ≡ false
    → Distinct (ts ++ t ∷ [])
append-Distinct [] t d e = (tt, tt)
append-Distinct (u ∷ us) t (apart, others) e =
    let (here, rest) = or_false ((u.id == t.id) || clashes t u) _ e in
    (All-append_one (Apart u) us t apart (clashes-Apart t u here), append-Distinct us t others rest)

-- When no two rows of the table share their id, their hash on one chain, or their block and
-- position on one chain, no two do after `create_transaction`, whatever it is given and whatever it
-- returns.
pub create_transaction-Distinct :
    (t : Transaction) (s : Store)
    → Distinct s.db.transactions
    → Distinct (create_transaction t s).1.db.transactions
unfolding create_transaction query
create_transaction-Distinct t s distinct = elim (Bool-cases (s.env.faulty s.calls)) [
  | inl bad ↦ rw bad distinct
  | inr good ↦
      rw good (elim (Bool-cases (exists (λ u. (u.id == t.id) || clashes t u) s.db.transactions)) [
        | inl known ↦ rw known distinct
        | inr unknown ↦ rw unknown (elim (Bool-cases (exists (has_id t.invoice_id) s.db.invoices)) [
          | inl found ↦ rw found (append-Distinct s.db.transactions t distinct unknown)
          | inr orphan ↦ rw orphan distinct
        ])
      ])
]
