-- ===== src/Concurrent/Ready.antt =====
-- An operation that has read its session and the session's invoice, among other programs.
use saftaja.Prelude.{true, false, ◌≡◌, refl, sym, ◌∙◌, ◌∷◌, ◌==◌, ==_refl, none, some, String}
use saftaja.Domain.{Uuid, TransactionType, is_success}
use saftaja.Env.{Env}
use saftaja.Exec.{State, World, gives}
use saftaja.Exec.After.{Runs, write-After}
use saftaja.Mpgs.Types.{Body}
use saftaja.Store.Rows.{Db, Invoice, PaymentSession, Transaction}
use saftaja.Store.Writes.{create_transaction}
use saftaja.Payment.Auth.{transaction_params}
use saftaja.Store.Reads.{one}
use saftaja.Ledger.Placed.{own_session, own_invoice}
use saftaja.Ledger.Step.{session_at, invoice_at, transaction_at, Bills, Belongs, open_transaction}
use saftaja.Ledger.Sql.{Inserted, insert_transaction-gives}
use saftaja.Ledger.Inv.{Inv}
use saftaja.Ledger.Keeps.{Step-Inv}
use saftaja.Concurrent.Change.{Move, Priced, still, unheard}
use saftaja.Concurrent.Change.Inserts.{opened}
use saftaja.Concurrent.Safe.{Fact, Stable}
use saftaja.Concurrent.Rules.{Left, Gave, nothing_known}

-- What an operation knows when it has read its session and the session's invoice.
abbrev pub Ready : PaymentSession → Invoice → Fact
Ready session v d =
    (session_at session.id v.project_id d.payment_sessions ≡ some session)
    × Priced v.id v.project_id v d
    × (session.invoice_id ≡ v.id)

-- What it knows when it has read its session.
abbrev pub Found : Uuid → Uuid → PaymentSession → Fact
Found i q session d = session_at i q d.payment_sessions ≡ some session

pub Found-Stable : (i q : Uuid) (session : PaymentSession) → Stable none (Found i q session)
Found-Stable i q session d d' c found = c.sessions i q session found

pub Ready-of_reads :
    (i q k : Uuid) (session : PaymentSession) (v : Invoice) (d : Db)
    → Found i q session d
    → (session.invoice_id == k) ≡ true
    → one (invoice_at k q d.invoices) ≡ gives v
    → Ready session v d
Ready-of_reads i q k session v d found same row =
    let own = own_session i q k session v d (rw found refl) same row in
    (own.0, (v, own_invoice k q v d row, refl, refl), own.1)

pub Ready-Stable : (session : PaymentSession) (v : Invoice) → Stable none (Ready session v)
Ready-Stable session v d d' c (found, priced, of) =
    (c.sessions session.id v.project_id session found, c.invoices v.id v.project_id v priced, of)

-- The transaction of an operation that is ready, and what the insertion leaves.
module _ (session : PaymentSession) (v : Invoice) (type : TransactionType) (tx_id : String)
    (body : Body) (env : Env) (s : State) (t : Transaction) (d' : Db)
    (ins : Inserted (transaction_params session v type tx_id body) s.db t d') (inv : Inv s.db)
    (ready : Ready session v s.db) where
  bills : Bills s.db.invoices t (ready.1).0
  bills =
      let (u, at, amount, currency) = ready.1 in
      record {
        found = rw (ins.invoice, ins.project) at;
        amount = ins.amount ∙ sym amount;
        currency = ins.currency ∙ sym currency;
      }

  belongs : Belongs s.db.payment_sessions t session
  belongs = record {
    found = rw (ins.session, ins.project) ready.0;
    invoice = ready.2 ∙ sym ins.invoice;
  }

  inserted-Inv : Inv (record s.db { transactions = t ∷ s.db.transactions })
  inserted-Inv =
      Step-Inv {env = env} {owner = none} {s = s}
        (open_transaction t (ready.1).0 session ins.fresh bills belongs ins.status tt refl) inv

pub record InsertedAs (v : Invoice) (kind : TransactionType) (t : Transaction) : Type 0 where
  pub invoice : t.invoice_id ≡ v.id
  pub project : t.project_id ≡ v.project_id
  pub amount : t.amount ≡ v.amount
  pub currency : t.currency ≡ v.currency
  pub type : t.transaction_type ≡ kind
  pub undecided : is_success t.status ≡ false

-- A transaction that the operation has created.
abbrev pub Created : Invoice → TransactionType → Transaction → Fact
Created v type t d =
    (transaction_at t.id d ≡ some t) × Priced v.id v.project_id v d × InsertedAs v type t

pub Created-Stable :
    (v : Invoice) (type : TransactionType) (t : Transaction) → Stable (some t.id) (Created v type t)
Created-Stable v type t d d' c (found, priced, is) =
    (c.own ∙ found, c.invoices v.id v.project_id v priced, is)

pub create-Gave :
    (env : Env) (session : PaymentSession) (v : Invoice) (type : TransactionType) (tx_id : String)
    (body : Body) (w : World)
    → Inv w.db
    → Ready session v w.db
    → Runs
        (Left none nothing_known w.db)
        (Gave none (λ (t : Transaction). some t.id) (Created v type) w.db)
        (create_transaction env (transaction_params session v type tx_id body) w)
unfolding create_transaction
create-Gave env session v type tx_id body w inv ready =
    write-After env _ w (still none w.db inv, tt, tt)
      λ st t d e.
        let ins = insert_transaction-gives _ st w.db t d e in
        let kept = inserted-Inv session v type tx_id body env w.state t d ins inv ready in
        let move : Move none (some t.id) w.db d =
          rw ins.tables (opened w.db t ins.fresh none kept) in
        let found : transaction_at t.id d ≡ some t = rw ins.tables (rw ==_refl refl) in
        let is : InsertedAs v type t = record {
          invoice = ins.invoice;
          project = ins.project;
          amount = ins.amount;
          currency = ins.currency;
          type = ins.type;
          undecided = rw ins.status refl;
        } in
        (
          (unheard none (some t.id) w.db d move, tt, tt),
          (move, (t, found), (found, (rw ins.tables ready.1), is)),
        )
