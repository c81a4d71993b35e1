-- ===== src/AppState/Feed/Snapshot.antt =====
-- The snapshot of the change feed of daemon/src/state.rs.
use kalatori.AppState.Feed.Shown.{shown_response, into_public-shown}
use kalatori.AppState.Feed.Reference.{changes_in, invoices_response-gathered}
use kalatori.AppState.Feed.{get_all_changes, sorted_response, get_changes}
use kalatori.Types.Changes.{InvoiceChanges, ChangesResponse, PublicChangesResponse, into_public}
use kalatori.Types.ChangesJson.{Codec}
use kalatori.Types.Invoice.{Invoice, Uuid, DateTime}
use kalatori.Types.Transaction.{completed, transaction_status_eq}
use kalatori.Dao.AllRows.{
  get_all_invoices, get_all_transactions, get_all_payouts, get_all_refunds, get_all_front_end_swaps,
}
use kalatori.Dao.Changes.{DaoChangesError}
use kalatori.Common.Groups.{DistinctIds}
use kalatori.Dao.Store.Successes.{bind_ok}
use kalatori.Dao.Store.{Dao, Db, Store, query, now, map_err, ◌>>=◌}
use kalatori.Common.{
  ◌≡◌, refl, ap, ◌∙◌, sym, subst, inl, inr, Bool-cases, List, map, select, ok, err_ok, ok_inj,
  String, none,
}

-- A statement that reads, when it succeeds.
pub read_ok :
    {E F A : Type 0} (f : E → F) (fault : E) (g : Db → A) (s : Store) (a : A)
    → (map_err f (query fault (λ _ db. ok (g db, db))) s).0 ≡ ok a
    → (g s.db ≡ a) × ((map_err f (query fault (λ _ db. ok (g db, db))) s).1.db ≡ s.db)
unfolding query map_err
read_ok {F = F} f fault g s a e = elim (Bool-cases (s.env.faulty s.calls)) [
  | inl bad ↦ absurd (err_ok (rw bad at e))
  | inr good ↦ (ok_inj F (rw good at e), rw good refl)
]

-- A block that starts with such a statement.
pub read_bind :
    {E F A B : Type 0} (f : E → F) (fault : E) (g : Db → A) (k : A → Dao F B) (s : Store) (d : Db)
    (b : B)
    → s.db ≡ d
    → ((map_err f (query fault (λ _ db. ok (g db, db))) >>= k) s).0 ≡ ok b
    → (t : Store) × (t.db ≡ d) × ((k (g d) t).0 ≡ ok b)
read_bind {F = F} f fault g k s d b same e =
    let (a, ran, later) = bind_ok (map_err f (query fault (λ _ db. ok (g db, db)))) k s b e in
    let (is_g, kept) = read_ok f fault g s a ran in
    let t = (map_err f (query fault (λ _ db. ok (g db, db))) s).1 in
    (t, kept ∙ same, subst (λ x. (k x t).0 ≡ ok b) (sym is_g ∙ ap g same) later)

abbrev response : List InvoiceChanges → DateTime → ChangesResponse
response l time = record { invoices = l; sync_timestamp = time }

response_same :
    {l m : List InvoiceChanges} {a b : DateTime} → l ≡ m → a ≡ b → response l a ≡ response m b
response_same p q = rw (p, q) refl

get_all_changes_ok :
    (s : Store) (r : ChangesResponse)
    → DistinctIds (λ (i : Invoice). i.id) s.db.invoices
    → (get_all_changes s).0 ≡ ok r
    → r ≡ record {
      invoices = map (changes_in s.db) s.db.invoices;
      sync_timestamp = s.env.clock s.calls;
    }
unfolding get_all_changes now get_all_invoices get_all_transactions get_all_payouts get_all_refunds
    get_all_front_end_swaps
get_all_changes_ok s r distinct e =
    let (time, ran, e0) = bind_ok now _ s r e in
    let (t1, s1, e1) = read_bind _ _ (λ db. db.invoices) _ _ s.db r refl e0 in
    let (t2, s2, e2) =
      read_bind _ _ (λ db. select (λ t. transaction_status_eq t.status completed) db.transactions) _
        t1 s.db r s1 e1 in
    let (t3, s3, e3) = read_bind _ _ (λ db. db.payouts) _ t2 s.db r s2 e2 in
    let (t4, s4, e4) = read_bind _ _ (λ db. db.refunds) _ t3 s.db r s3 e3 in
    let (t5, s5, e5) = read_bind _ _ (λ db. db.front_end_swaps) _ t4 s.db r s4 e4 in
    sym (ok_inj DaoChangesError e5)
    ∙ response_same (invoices_response-gathered s.db distinct) (sym (ok_inj DaoChangesError ran))

-- When no two invoices of the table share an id, a snapshot that succeeds holds exactly the
-- invoices of the table by the time of their update, each with its completed incoming transactions
-- and their sum, its payouts and refunds with their completed transactions, and its swaps of the
-- front end; it is as of the time before its first statement.
pub get_changes-snapshot :
    (payment_url : Uuid → String) (codec : Codec) (s : Store) (r : PublicChangesResponse)
    → DistinctIds (λ (i : Invoice). i.id) s.db.invoices
    → (get_changes payment_url codec none s).0 ≡ ok r
    → r ≡ shown_response payment_url s.db s.db.invoices (s.env.clock s.calls)
unfolding get_changes
get_changes-snapshot payment_url codec s r distinct e =
    let (all, ran, last) = bind_ok get_all_changes _ s r e in
    sym (ok_inj DaoChangesError last)
    ∙ ap (λ x. into_public payment_url (sorted_response x)) (get_all_changes_ok s all distinct ran)
    ∙ into_public-shown payment_url s.db s.db.invoices (s.env.clock s.calls)
