-- ===== src/Ledger/Charges.antt =====
-- The payment requests that the service (khazina/internal/payment/service.go) sends to the gateway.
use mathlib.Core.Path.{subst}
use saftaja.Prelude.{
  exists?, ◌∷◌, ℕ, ◌≡◌, refl, sym, ap, ◌∙◌, String, List, [], false, Bool, str_eq, str_eq_sound,
  count_by, some, ◌==◌, ==-eq, ◌&&◌, arith, Bool-cases, inl, inr, All, All-map, map, find?-sound,
  none,
}
use saftaja.Domain.{Uuid, Time, InvoiceStatus, is_paid}
use saftaja.Env.{Env, HttpRequest}
use saftaja.Exec.{State, World}
use saftaja.Mpgs.Types.{Body, ExecutePayRequest}
use saftaja.Store.Rows.{Db, Invoice}
use saftaja.Store.Writes.{set_invoice}
use saftaja.Payment.Types.{Service}
use saftaja.Ledger.Step.{
  Step, History, ask, charge, open_session, open_transaction, settle, approve, add_organization,
  add_project, add_account, bill, start, next, invoice_at, carries_payment,
}
use saftaja.Ledger.Inv.{Inv, paid_flag}
use saftaja.Ledger.Books.{paid_flag-map, paid_flag-unpaid, ids-set_invoice, invoice_at-map}
use saftaja.Ledger.Billing.{paid_flag-cons, invoice_at-cons}
use saftaja.Ledger.Keeps.{History-Inv}
use saftaja.Ledger.Traffic.{Call, serve_all, serve_all-History}

-- The text of the invoice that a request pays for, with its amount.
abbrev pays_for : String → Body → Bool
pays_for reference (Body.execute_pay p) = str_eq p.order_reference reference
pays_for reference _ = false

-- how many payment requests for this invoice have gone out
abbrev pub charges : Env → Uuid → List HttpRequest → ℕ
charges env i sent = count_by (λ r. pays_for (env.uuid_string i) r.body) sent

pays_for-none : (x : String) (b : Body) → carries_payment b ≡ false → pays_for x b ≡ false
pays_for-none x (Body.execute_pay p) h = cc
pays_for-none x b h = refl

module _ (env : Env) (i : Uuid)
    (injective : (j : Uuid) → env.uuid_string j ≡ env.uuid_string i → j ≡ i) where
  -- A request for another invoice than the paid one.
  other_charge :
      (d : Db) (b : Body) (p : ExecutePayRequest) (j q : Uuid) (v : Invoice)
      → Inv d
      → paid_flag i d.invoices ≡ 1
      → b ≡ Body.execute_pay p
      → invoice_at j q d.invoices ≡ some v
      → is_paid v.status ≡ false
      → p.order_reference ≡ env.uuid_string v.id
      → pays_for (env.uuid_string i) b ≡ false
  other_charge d b p j q v inv paid e f unpaid r =
      rw e (elim (Bool-cases (str_eq p.order_reference (env.uuid_string i))) [
        | inr n ↦ n
        | inl y ↦
            let both = find?-sound (λ (u : Invoice). u.id == j && u.project_id == q) d.invoices f in
            let at_i : j ≡ i =
              sym (==-eq v.id j (ground arith)) ∙ injective v.id (sym r ∙ str_eq_sound _ _ y) in
            let flag =
              subst (λ x. paid_flag x d.invoices ≡ 0) at_i
                (paid_flag-unpaid j q v d.invoices inv.invoices_distinct f unpaid) in
            absurd (omega (arith, flag, paid))
      ])

  -- A step after the invoice is paid: it stays paid, and no request for it goes out.
  paid-step :
      (n : ℕ) {u v : State}
      → Step env none u v
      → Inv u.db
      → (paid_flag i u.db.invoices ≡ 1) × (charges env i u.sent ≡ n)
      → (paid_flag i v.db.invoices ≡ 1) × (charges env i v.sent ≡ n)
  paid-step n (ask r free e) inv (paid, c) =
      rw e (paid, rw (pays_for-none (env.uuid_string i) r.body free) (ground (arith, c)))
  paid-step n {u = u} (charge r p t v b f ip s bl unpaid a cu rf whose e) inv (paid, c) = rw e (
    paid,
    rw (other_charge u.db r.body p t.invoice_id t.project_id v inv paid b bl.found unpaid rf)
        (ground (arith, c)),
  )
  paid-step n (open_session p v a f un ac cr fresh whose e) inv h = rw e h
  paid-step n (open_transaction t v p fresh b o c whose e) inv h = rw e h
  paid-step n (settle t status raw time f un dec whose e) inv h = rw e h
  paid-step n {u = u} (approve t v raw time time' f ip un b unpaid whose e) inv (paid, c) =
      rw e
        (paid_flag-map t.invoice_id time' i t.project_id v u.db.invoices b.found ∙ ground arith, c)
  paid-step n (add_organization o fresh whose e) inv h = rw e h
  paid-step n (add_project p fresh free whose e) inv h = rw e h
  paid-step n (add_account a fresh whose e) inv h = rw e h
  paid-step n {u = u} (bill v fresh project unpaid whose e) inv (paid, c) =
      rw e (paid_flag-cons v u.db.invoices fresh i unpaid ∙ paid, c)

  paid-History :
      {u v : State}
      → History env none u v
      → Inv u.db
      → paid_flag i u.db.invoices ≡ 1
      → (paid_flag i v.db.invoices ≡ 1) × (charges env i v.sent ≡ charges env i u.sent)
  paid-History start inv paid = (paid, refl)
  paid-History (next h st) inv paid = paid-step _ st (History-Inv h inv) (paid-History h inv paid)

-- Once an invoice is paid, over tables that satisfy the invariant and where no other UUID prints as
-- the invoice's does, no sequence of calls makes it unpaid or sends another payment request for it.
pub serve_all-paid_once :
    (env : Env) (s : Service) (cs : List Call) (w : World) (i : Uuid)
    → ((j : Uuid) → env.uuid_string j ≡ env.uuid_string i → j ≡ i)
    → Inv w.db
    → paid_flag i w.db.invoices ≡ 1
    → (paid_flag i (serve_all env s cs w).db.invoices ≡ 1)
      × (charges env i (serve_all env s cs w).sent ≡ charges env i w.sent)
serve_all-paid_once env s cs w i injective inv paid =
    paid-History env i injective (serve_all-History env s cs w) inv paid

-- A payment request is for the amount and the currency of an invoice of the tables.
abbrev pub Exact : Env → List Invoice → Body → Type 0
Exact env vs (Body.execute_pay p) =
    (i : Uuid) × (q : Uuid) × (v : Invoice) × (invoice_at i q vs ≡ some v)
    × (p.order_reference ≡ env.uuid_string v.id)
    × (p.order_amount ≡ env.decimal_string v.amount)
    × (p.order_currency ≡ v.currency)
Exact env vs _ = Unit

Exact-other :
    (env : Env) (vs : List Invoice) (b : Body) → carries_payment b ≡ false → Exact env vs b
Exact-other env vs (Body.execute_pay p) h = cc
Exact-other env vs b h = tt

Exact-map :
    (env : Env) (k : Uuid) (time : Time) (vs : List Invoice) (b : Body)
    → Exact env vs b
    → Exact env (map (set_invoice k InvoiceStatus.paid time) vs) b
Exact-map env k time vs (Body.execute_pay p) (i, q, v, f, r, a, c) =
    let ids = ids-set_invoice k time InvoiceStatus.paid v in
    (
      i,
      q,
      set_invoice k InvoiceStatus.paid time v,
      invoice_at-map k time i q v vs f,
      r ∙ sym (ap env.uuid_string ids.0),
      a ∙ sym (ap env.decimal_string ids.2),
      c ∙ sym ids.3,
    )
Exact-map env k time vs b h = tt

Exact-cons :
    (env : Env) (v : Invoice) (vs : List Invoice)
    → exists? (λ r. r.id == v.id) vs ≡ false
    → (b : Body) → Exact env vs b
    → Exact env (v ∷ vs) b
Exact-cons env v vs fresh (Body.execute_pay p) (i, q, u, f, r, a, c) =
    (i, q, u, invoice_at-cons v vs fresh i q u f, r, a, c)
Exact-cons env v vs fresh b h = tt

Exact-step :
    {env : Env} {u v : State}
    → Step env none u v
    → All (λ (r : HttpRequest). Exact env u.db.invoices r.body) u.sent
    → All (λ (r : HttpRequest). Exact env v.db.invoices r.body) v.sent
Exact-step {env = env} {u = u} (ask r free e) h =
    rw e (Exact-other env u.db.invoices r.body free, h)
Exact-step {env = env} {u = u} (charge r p t v b f ip s bl unpaid a cu rf whose e) h =
    rw (e, b) ((t.invoice_id, t.project_id, v, bl.found, rf, a, cu), h)
Exact-step (open_session p v a f un ac cr fresh whose e) h = rw e h
Exact-step (open_transaction t v p fresh b o c whose e) h = rw e h
Exact-step (settle t status raw time f un dec whose e) h = rw e h
Exact-step {env = env} {u = u} (approve t v raw time time' f ip un b unpaid whose e) h = rw e (
    All-map (λ (r : HttpRequest). Exact env u.db.invoices r.body)
      (λ (r : HttpRequest).
        Exact env (map (set_invoice t.invoice_id InvoiceStatus.paid time') u.db.invoices) r.body)
      (λ r. Exact-map env t.invoice_id time' u.db.invoices r.body) u.sent h)
Exact-step (add_organization o fresh whose e) h = rw e h
Exact-step (add_project p fresh free whose e) h = rw e h
Exact-step (add_account a fresh whose e) h = rw e h
Exact-step {env = env} {u = u} (bill v fresh project unpaid whose e) h = rw e (
    All-map (λ (r : HttpRequest). Exact env u.db.invoices r.body)
      (λ (r : HttpRequest). Exact env (v ∷ u.db.invoices) r.body)
      (λ r. Exact-cons env v u.db.invoices fresh r.body) u.sent h)

pub Exact-History :
    {env : Env} {u v : State}
    → History env none u v
    → All (λ (r : HttpRequest). Exact env u.db.invoices r.body) u.sent
    → All (λ (r : HttpRequest). Exact env v.db.invoices r.body) v.sent
Exact-History start h = h
Exact-History (next k st) h = Exact-step st (Exact-History k h)

-- After any sequence of calls that starts with an empty log, every payment request in the log asks
-- for exactly the amount and the currency of an invoice of the tables, under that invoice's id.
pub serve_all-Exact :
    (env : Env) (s : Service) (cs : List Call) (w : World)
    → w.sent ≡ []
    → All
        (λ (r : HttpRequest). Exact env (serve_all env s cs w).db.invoices r.body)
        (serve_all env s cs w).sent
serve_all-Exact env s cs w empty = Exact-History (serve_all-History env s cs w) (rw empty tt)
