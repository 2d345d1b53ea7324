-- ===== src/Ledger/Keeps.antt =====
-- The steps of the specification and the invariant of the tables.
use mathlib.Core.Path.{subst}
use saftaja.Prelude.{
  false, ◌≡◌, refl, sym, ◌∙◌, List, [], ◌∷◌, ◌==◌, exists?, All, All-map, Option, some, none, arith,
  Bool-cases, inl, inr, ==-eq,
}
use saftaja.Domain.{Uuid, PaymentSessionStatus}
use saftaja.Env.{Env}
use saftaja.Exec.{State}
use saftaja.Store.Rows.{Db, Transaction, PaymentSession, Organization, Project, GatewayAccount}
use saftaja.Ledger.Step.{
  Step, ask, charge, open_session, open_transaction, settle, approve, add_organization, add_project,
  add_account, bill, History, start, next, session_at,
}
use saftaja.Ledger.Inv.{Inv}
use saftaja.Ledger.Decides.{Belonging, settle-Inv, approve-Inv}
use saftaja.Ledger.Billing.{bill-Inv}
use saftaja.Ledger.Books.{Absent-of_exists?, payments-open}

Absent_session :
    (x : Uuid) (ps : List PaymentSession)
    → exists? (λ r. r.id == x) ps ≡ false
    → All (λ (p : PaymentSession). (p.id == x) ≡ false) ps
Absent_session x [] h = tt
Absent_session x (p ∷ ps) h = ground (arith, Absent_session x ps)

absent_session :
    (i q : Uuid) (ps : List PaymentSession)
    → exists? (λ r. r.id == i) ps ≡ false
    → session_at i q ps ≡ none
absent_session i q [] h = refl
absent_session i q (p ∷ ps) h = ground (arith, absent_session i q ps)

-- A session of a fresh key hides no other.
cons-Belonging :
    (p : PaymentSession) (ps : List PaymentSession) (t : Transaction)
    → exists? (λ r. r.id == p.id) ps ≡ false
    → Belonging ps t
    → Belonging (p ∷ ps) t
cons-Belonging p ps t fresh (q, b) = elim (Bool-cases (p.id == t.payment_session_id)) [
  | inl e ↦ absurd (
      none≢some (
        sym (
          absent_session t.payment_session_id t.project_id ps (
            subst (λ x. exists? (λ (r : PaymentSession). r.id == x) ps ≡ false)
              (==-eq p.id t.payment_session_id e) fresh))
        ∙ b.found))
  | inr n ↦ (q, record { found = rw n b.found; invoice = b.invoice })
]
  where
    none≢some : none ≡ some q → ⊥
    none≢some h = cc

-- The invariant says nothing of the other tables.
pub other_tables :
    {d : Db} {os : List Organization} {ps : List Project} {gs : List GatewayAccount}
    → Inv d
    → Inv (record d { organizations = os; projects = ps; gateway_accounts = gs })
other_tables inv = record {
  transactions_distinct = inv.transactions_distinct;
  invoices_distinct = inv.invoices_distinct;
  sessions_distinct = inv.sessions_distinct;
  books = inv.books;
  billed = inv.billed;
  belongs = inv.belongs;
  created_only = inv.created_only;
}

-- A session of a fresh key that has just been created.
pub open_session-Inv :
    (d : Db) (p : PaymentSession)
    → Inv d
    → p.status ≡ PaymentSessionStatus.created
    → exists? (λ r. r.id == p.id) d.payment_sessions ≡ false
    → Inv (record d { payment_sessions = p ∷ d.payment_sessions })
open_session-Inv d p inv c fresh = record {
  transactions_distinct = inv.transactions_distinct;
  invoices_distinct = inv.invoices_distinct;
  sessions_distinct = (Absent_session p.id d.payment_sessions fresh, inv.sessions_distinct);
  books = inv.books;
  billed = inv.billed;
  belongs =
      All-map (Belonging d.payment_sessions) (Belonging (p ∷ d.payment_sessions))
        (λ t. cons-Belonging p d.payment_sessions t fresh) d.transactions inv.belongs;
  created_only = (c, inv.created_only);
}

pub Step-Inv :
    {env : Env} {owner : Option Uuid} {s s' : State} → Step env owner s s' → Inv s.db → Inv s'.db
Step-Inv (ask r n e) inv = rw e inv
Step-Inv (charge r p t v b f i c l u a cu rf whose e) inv = rw e inv
Step-Inv {s = s} (open_session p v a f u ac c fresh whose e) inv =
    rw e (open_session-Inv s.db p inv c fresh)
Step-Inv {s = s} (open_transaction t v p fresh b o c whose e) inv = rw e (record {
  transactions_distinct =
      (Absent-of_exists? t.id s.db.transactions fresh, inv.transactions_distinct);
  invoices_distinct = inv.invoices_distinct;
  sessions_distinct = inv.sessions_distinct;
  books = λ i. payments-open i t s.db.transactions c ∙ inv.books i;
  billed = ((v, b), inv.billed);
  belongs = ((p, o), inv.belongs);
  created_only = inv.created_only;
})
Step-Inv {s = s} (settle t status raw time f n m whose e) inv =
    rw e (settle-Inv s.db t status raw time inv f n m)
Step-Inv {s = s} (approve t v raw time time' f p n b u whose e) inv =
    rw e (approve-Inv s.db t v raw time time' inv f p n b u)
Step-Inv (add_organization o fresh whose e) inv = rw e (other_tables inv)
Step-Inv (add_project p fresh free whose e) inv = rw e (other_tables inv)
Step-Inv (add_account a fresh whose e) inv = rw e (other_tables inv)
Step-Inv {s = s} (bill v fresh project unpaid whose e) inv = rw e (bill-Inv s.db v inv fresh unpaid)

pub History-Inv :
    {env : Env} {owner : Option Uuid} {s s' : State} → History env owner s s' → Inv s.db → Inv s'.db
History-Inv start inv = inv
History-Inv (next h st) inv = Step-Inv st (History-Inv h inv)

-- The steps of one call after those of another.
pub History-append :
    {env : Env} {owner : Option Uuid} {s t u : State}
    → History env owner s t
    → History env owner t u
    → History env owner s u
History-append h start = h
History-append h (next k st) = next (History-append h k) st

-- A step for one project is a step.
Step-any : {env : Env} {owner : Option Uuid} {s t : State} → Step env owner s t → Step env none s t
Step-any (ask r n e) = ask r n e
Step-any (charge r p t v b f i c l u a cu rf whose e) = charge r p t v b f i c l u a cu rf tt e
Step-any (open_session p v a f u ac c fresh whose e) = open_session p v a f u ac c fresh tt e
Step-any (open_transaction t v p fresh b o c whose e) = open_transaction t v p fresh b o c tt e
Step-any (settle t status raw time f n m whose e) = settle t status raw time f n m tt e
Step-any (approve t v raw time time' f p n b u whose e) = approve t v raw time time' f p n b u tt e
Step-any (add_organization o fresh whose e) = add_organization o fresh refl e
Step-any (add_project p fresh free whose e) = add_project p fresh free refl e
Step-any (add_account a fresh whose e) = add_account a fresh tt e
Step-any (bill v fresh project unpaid whose e) = bill v fresh project unpaid tt e

pub History-any :
    {env : Env} {owner : Option Uuid} {s t : State} → History env owner s t → History env none s t
History-any start = start
History-any (next h st) = next (History-any h) (Step-any st)
