-- ===== src/Ledger/Tenants.antt =====
-- What a step for one project leaves of the rows of another.
use mathlib.Core.Path.{subst, ap₂}
use mathlib.Core.Bool.{true≢false}
use saftaja.Prelude.{
  Bool, true, false, ◌&&◌, String, ◌≡◌, refl, sym, ap, ◌∙◌, List, [], ◌∷◌, ◌==◌, map, keep, find?,
  find?-sound, All, All-map, All-find?, some, arith, Bool-cases, inl, inr, ==-eq,
}
use saftaja.Domain.{Uuid, Time, TransactionStatus, InvoiceStatus}
use saftaja.Env.{Env}
use saftaja.Exec.{State}
use saftaja.Store.Rows.{Db, Project, GatewayAccount, Invoice, PaymentSession, Transaction}
use saftaja.Store.Writes.{set_transaction, set_invoice}
use saftaja.Ledger.Step.{
  Step, History, ask, charge, open_session, open_transaction, settle, approve, add_organization,
  add_project, add_account, bill, start, next, transaction_at, invoice_at,
}
use saftaja.Ledger.Inv.{Inv, Distinct}
use saftaja.Ledger.Keeps.{History-Inv}

-- The rows of a project.
pub record Tenant : Type 0 where
  pub projects : List Project
  pub gateway_accounts : List GatewayAccount
  pub invoices : List Invoice
  pub payment_sessions : List PaymentSession
  pub transactions : List Transaction

abbrev pub tenant : Uuid → Db → Tenant
tenant p d = record {
  projects = keep (λ r. r.id == p) d.projects;
  gateway_accounts = keep (λ r. r.project_id == p) d.gateway_accounts;
  invoices = keep (λ r. r.project_id == p) d.invoices;
  payment_sessions = keep (λ r. r.project_id == p) d.payment_sessions;
  transactions = keep (λ r. r.project_id == p) d.transactions;
}

module _ {A : Type 0} where
  -- An update that spares the rows that are kept.
  keep-map :
      (p : A → Bool) (f : A → A) (xs : List A)
      → All (λ x. (p (f x) ≡ p x) × (p x ≡ true → f x ≡ x)) xs
      → keep p (map f xs) ≡ keep p xs
  keep-map p f [] h = refl
  keep-map p f (x ∷ xs) (h, hs) = elim (Bool-cases (p x)) [
    | inl y ↦ rw (h.1 y, y) (ap (λ ys. x ∷ ys) (keep-map p f xs hs))
    | inr n ↦ rw (h.0, n) (keep-map p f xs hs)
  ]

  -- Rows of one key are one row.
  only :
      (key : A → Uuid) (p : A → Bool) (x : A) (xs : List A)
      → Distinct key xs
      → find? p xs ≡ some x
      → All (λ u. (key u == key x) ≡ true → u ≡ x) xs
  only key p x [] d f = tt
  only key p x (y ∷ ys) (other, d) f = elim (Bool-cases (p y)) [
    | inl found ↦
        let same : y ≡ x = ground arith in
        subst (λ z. All (λ u. (key u == key z) ≡ true → u ≡ z) (y ∷ ys)) same
          (
            λ _. refl,
            All-map (λ u. (key u == key y) ≡ false) (λ u. (key u == key y) ≡ true → u ≡ y)
                (λ u n e. absurd (true≢false (sym e ∙ n))) ys other,
          )
    | inr n ↦
        let later : find? p ys ≡ some x = ground arith in
        let differs = All-find? (λ u. (key u == key y) ≡ false) p ys other later in
        (λ e. absurd (ground (arith, e, differs)), only key p x ys d later)
  ]

-- A step for a project adds no project.
Step-projects :
    {env : Env} {q : Uuid} {s t : State} → Step env (some q) s t → t.db.projects ≡ s.db.projects
Step-projects (ask r n e) = rw e
Step-projects (charge r x t v b f i c l u a cu rf whose e) = rw e
Step-projects (open_session x v a f u ac c fresh whose e) = rw e
Step-projects (open_transaction t v x fresh b o c whose e) = rw e
Step-projects (settle t status raw time f n m whose e) = rw e
Step-projects (approve t v raw time time' f x n b u whose e) = rw e
Step-projects (add_organization o fresh whose e) = cc
Step-projects (add_project x fresh free whose e) = cc
Step-projects (add_account a fresh whose e) = rw e
Step-projects (bill v fresh project unpaid whose e) = rw e

pub History-projects :
    {env : Env} {q : Uuid} {s t : State} → History env (some q) s t → t.db.projects ≡ s.db.projects
History-projects start = refl
History-projects (next h st) = Step-projects st ∙ History-projects h

module _ (p q : Uuid) (apart : (q == p) ≡ false) where
  others : {x : Uuid} → x ≡ q → (x == p) ≡ false
  others e = rw e apart

  spared_transaction :
      (t : Transaction)
      → t.project_id ≡ q
      → (status : TransactionStatus) (raw : String) (time : Time) (u : Transaction)
      → ((u.id == t.id) ≡ true → u ≡ t)
      → (((set_transaction t.id status raw time u).project_id == p) ≡ (u.project_id == p))
        × ((u.project_id == p) ≡ true → set_transaction t.id status raw time u ≡ u)
  spared_transaction t whose status raw time u one = elim (Bool-cases (u.id == t.id)) [
    | inl y ↦
        let away = others (ap (λ (r : Transaction). r.project_id) (one y) ∙ whose) in
        rw y (refl, λ e. absurd (true≢false (sym e ∙ away)))
    | inr n ↦ rw n (refl, λ _. refl)
  ]

  spared_invoice :
      (v : Invoice)
      → v.project_id ≡ q
      → (status : InvoiceStatus) (time : Time) (u : Invoice) → ((u.id == v.id) ≡ true → u ≡ v)
      → (((set_invoice v.id status time u).project_id == p) ≡ (u.project_id == p))
        × ((u.project_id == p) ≡ true → set_invoice v.id status time u ≡ u)
  spared_invoice v whose status time u one = elim (Bool-cases (u.id == v.id)) [
    | inl y ↦
        let away = others (ap (λ (r : Invoice). r.project_id) (one y) ∙ whose) in
        rw y (refl, λ e. absurd (true≢false (sym e ∙ away)))
    | inr n ↦ rw n (refl, λ _. refl)
  ]

  transactions_kept :
      (d : Db) (t : Transaction) (status : TransactionStatus) (raw : String) (time : Time)
      → Inv d
      → transaction_at t.id d ≡ some t
      → t.project_id ≡ q
      → keep (λ r. r.project_id == p) (map (set_transaction t.id status raw time) d.transactions)
        ≡ keep (λ r. r.project_id == p) d.transactions
  transactions_kept d t status raw time inv found whose = keep-map _ _ d.transactions (
      All-map _ _ (spared_transaction t whose status raw time) d.transactions
        (only (λ (r : Transaction). r.id) _ t d.transactions inv.transactions_distinct found))

  invoices_kept :
      (d : Db) (i : Uuid) (v : Invoice) (status : InvoiceStatus) (time : Time)
      → Inv d
      → invoice_at i q d.invoices ≡ some v
      → keep (λ r. r.project_id == p) (map (set_invoice i status time) d.invoices)
        ≡ keep (λ r. r.project_id == p) d.invoices
  invoices_kept d i v status time inv found =
      let is = find?-sound (λ (u : Invoice). u.id == i && u.project_id == q) d.invoices found in
      let key : v.id ≡ i = ==-eq _ _ (ground arith) in
      let whose : v.project_id ≡ q = ==-eq _ _ (ground arith) in
      subst
        (λ j.
          keep (λ (r : Invoice). r.project_id == p) (map (set_invoice j status time) d.invoices)
          ≡ keep (λ (r : Invoice). r.project_id == p) d.invoices)
        key
        (keep-map _ _ d.invoices (
          All-map _ _ (spared_invoice v whose status time) d.invoices
            (only (λ (r : Invoice). r.id) _ v d.invoices inv.invoices_distinct found)))

  Step-tenant :
      {env : Env} {s t : State} → Step env (some q) s t → Inv s.db → tenant p t.db ≡ tenant p s.db
  Step-tenant (ask r n e) inv = rw e
  Step-tenant (charge r x t v b f i c l u a cu rf whose e) inv = rw e
  Step-tenant (open_session x v a f u ac c fresh whose e) inv = rw e (rw (others whose))
  Step-tenant (open_transaction t v x fresh b o c whose e) inv = rw e (rw (others whose))
  Step-tenant {s = s} (settle t status raw time f n m whose e) inv = rw e (
      ap (λ ts. record (tenant p s.db) { transactions = ts })
        (transactions_kept s.db t status raw time inv f whose))
  Step-tenant {s = s} (approve t v raw time time' f x n b u whose e) inv = rw e (
      ap₂ (λ vs ts. record (tenant p s.db) { invoices = vs; transactions = ts })
        (invoices_kept s.db t.invoice_id v InvoiceStatus.paid time' inv
          (subst (λ j. invoice_at t.invoice_id j s.db.invoices ≡ some v) whose b.found))
        (transactions_kept s.db t TransactionStatus.success raw time inv f whose))
  Step-tenant (add_organization o fresh whose e) inv = cc
  Step-tenant (add_project x fresh free whose e) inv = cc
  Step-tenant (add_account a fresh whose e) inv = rw e (rw (others whose))
  Step-tenant (bill v fresh project unpaid whose e) inv = rw e (rw (others whose))

  pub History-tenant :
      {env : Env} {s t : State}
      → History env (some q) s t
      → Inv s.db
      → tenant p t.db ≡ tenant p s.db
  History-tenant start inv = refl
  History-tenant (next h st) inv = Step-tenant st (History-Inv h inv) ∙ History-tenant h inv
