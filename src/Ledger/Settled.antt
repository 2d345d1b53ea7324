-- ===== src/Ledger/Settled.antt =====
-- The successful payments of a session, in tables that satisfy the invariant.
use mathlib.Core.Path.{subst}
use saftaja.Prelude.{
  Bool, ◌<◌, true, false, ◌≡◌, ◌≢◌, ap, ◌∙◌, List, [], ◌∷◌, ◌==◌, ◌&&◌, find?, find?-sound, All,
  All-find?, some, none, arith, Bool-cases, inl, inr, ==-eq, ==_refl, Option-cases,
}
use saftaja.Domain.{Uuid, is_paid, is_pay, is_success}
use saftaja.Store.Rows.{Db, Invoice, Transaction, PaymentSession}
use saftaja.Store.Writes.{pays}
use saftaja.Ledger.Step.{invoice_at, session_at, Belongs}
use saftaja.Ledger.Inv.{Inv, Distinct, payments}
use saftaja.Ledger.Books.{paid_flag-unpaid}

absent_at :
    (i q : Uuid) (ps : List PaymentSession) {p : PaymentSession}
    → All (λ (r : PaymentSession). (r.id == i) ≡ false) ps
    → session_at i q ps ≢ some p
absent_at i q [] h f = cc
absent_at i q (r ∷ ps) {p} h f = ground (arith, absent_at i q ps {p = p} h.1)

-- Sessions of one key are one session, in whatever project they are looked for.
same_session :
    (i q q' : Uuid) (p p' : PaymentSession) (ps : List PaymentSession)
    → Distinct (λ (p : PaymentSession). p.id) ps
    → session_at i q ps ≡ some p
    → session_at i q' ps ≡ some p'
    → p ≡ p'
same_session i q q' p p' [] d f f' = cc
same_session i q q' p p' (r ∷ ps) d f f' = elim (Bool-cases (r.id == i)) [
  | inl e ↦
      let absent =
        subst (λ x. All (λ (y : PaymentSession). (y.id == x) ≡ false) ps) (==-eq r.id i e) d.0 in
      ground (arith, absent_at i q ps {p = p} absent, absent_at i q' ps {p = p'} absent)
  | inr n ↦ ground (arith, same_session i q q' p p' ps d.1)
]

payments_pos :
    (i : Uuid) (q : Transaction → Bool) (t : Transaction) (ts : List Transaction)
    → find? q ts ≡ some t
    → pays i t ≡ true
    → 0 < payments i ts
payments_pos i q t [] f h = cc
payments_pos i q t (u ∷ us) f h = ground (arith, payments_pos i q t us)

-- the query of `GetPayTransactionBySessionID`
abbrev pub settled_in : Uuid → Transaction → Bool
settled_in session_id t =
    t.payment_session_id == session_id && is_pay t.transaction_type && is_success t.status

-- A session of an unpaid invoice has no successful payment.
pub settled_in-none :
    (d : Db) (i q : Uuid) (p : PaymentSession) (v : Invoice)
    → Inv d
    → session_at p.id q d.payment_sessions ≡ some p
    → invoice_at p.invoice_id i d.invoices ≡ some v
    → is_paid v.status ≡ false
    → find? (settled_in p.id) d.transactions ≡ none
settled_in-none d i q p v inv at billed unpaid =
    elim (Option-cases (find? (settled_in p.id) d.transactions)) [
      | inl e ↦ e
      | inr (t, f) ↦
          let is = find?-sound (settled_in p.id) d.transactions f in
          let (p', b) =
            All-find? (λ t. (p : PaymentSession) × Belongs d.payment_sessions t p) (settled_in p.id)
              d.transactions inv.belongs f in
          let key : t.payment_session_id ≡ p.id = ==-eq _ _ (ground arith) in
          let same : p ≡ p' =
            same_session p.id q t.project_id p p' d.payment_sessions inv.sessions_distinct at
              (subst (λ x. session_at x t.project_id d.payment_sessions ≡ some p') key b.found) in
          let invoice : p.invoice_id ≡ t.invoice_id =
            ap (λ (r : PaymentSession). r.invoice_id) same ∙ b.invoice in
          let one : pays p.invoice_id t ≡ true =
            rw invoice (ground (arith, ==_refl t.invoice_id)) in
          absurd (
            omega (
              arith,
              payments_pos p.invoice_id (settled_in p.id) t d.transactions f one,
              inv.books p.invoice_id,
              paid_flag-unpaid p.invoice_id i v d.invoices inv.invoices_distinct billed unpaid,
            ))
    ]
