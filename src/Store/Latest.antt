-- ===== src/Store/Latest.antt =====
-- `ORDER BY created_at DESC LIMIT 1` in khazina/internal/store/checkout.sql.go.
use mathlib.Core.Path.{subst}
use saftaja.Prelude.{
  ◌≤◌, ◌≡◌, refl, sym, ◌==◌, ◌&&◌, keep, List, [], ◌∷◌, none, some, ltb, All, All-map, arith,
  Option-cases, inl, inr, Bool-cases, Bool, true,
}
use saftaja.Domain.{Uuid, is_authenticate_payer, is_success}
use saftaja.Env.{Env}
use saftaja.Exec.{World, ok}
use saftaja.Exec.After.{Runs, Runs-ok, read-After}
use saftaja.Store.Rows.{Transaction}
use saftaja.Store.Reads.{latest, get_successful_auth_transaction}
use saftaja.Ledger.Sql.{one-gives}

-- no later than this transaction
abbrev pub NotAfter : Transaction → Transaction → Type 0
NotAfter t u = u.created_at ≤ t.created_at

latest-none : (ts : List Transaction) → latest ts ≡ none → ts ≡ []
unfolding latest
latest-none [] h = refl
latest-none (t ∷ ts) h = ground arith

All-NotAfter :
    (v t : Transaction) (ts : List Transaction)
    → v.created_at ≤ t.created_at
    → All (NotAfter v) ts
    → All (NotAfter t) ts
All-NotAfter v t ts le h = All-map (NotAfter v) (NotAfter t) (λ u k. omega arith) ts h

-- The transaction that the query takes is no older than any of them.
pub latest-NotAfter :
    (ts : List Transaction) (t : Transaction) → latest ts ≡ some t → All (NotAfter t) ts
unfolding latest
latest-NotAfter [] t h = tt
latest-NotAfter (u ∷ us) t h = elim (Option-cases (latest us)) [
  | inl e ↦
      let first : u.created_at ≤ t.created_at = ground arith in
      let rest : us ≡ [] = latest-none us e in
      (first, subst (λ x. All (NotAfter t) x) (sym rest) tt)
  | inr (v, e) ↦
      let le : (u.created_at ≤ t.created_at) × (v.created_at ≤ t.created_at) = ground arith in
      (le.0, All-NotAfter v t us le.1 (latest-NotAfter us v e))
]

-- the successful authentication of a payer in a session
abbrev pub authenticates : Uuid → Transaction → Bool
authenticates session_id t =
    t.payment_session_id == session_id
    && is_authenticate_payer t.transaction_type
    && is_success t.status

latest_holds :
    (P : Transaction → Type 0) (ts : List Transaction) (t : Transaction)
    → All P ts
    → latest ts ≡ some t
    → P t
unfolding latest
latest_holds P [] t h e = cc
latest_holds P (u ∷ us) t h e = elim (Option-cases (latest us)) [
  | inl n ↦ subst P (ground arith) h.0
  | inr (v, f) ↦ elim (Bool-cases (ltb u.created_at v.created_at)) [
    | inl y ↦ subst P (ground arith) (latest_holds P us v h.1 f)
    | inr n ↦ subst P (ground arith) h.0
  ]
]

All-keep : (q : Transaction → Bool) (ts : List Transaction) → All (λ t. q t ≡ true) (keep q ts)
All-keep q [] = tt
All-keep q (t ∷ ts) = elim (Bool-cases (q t)) [
  | inl y ↦ rw y (y, All-keep q ts)
  | inr n ↦ rw n (All-keep q ts)
]

newest-Runs :
    (env : Env) (session_id : Uuid) (w : World)
    → Runs
        (λ _. Unit)
        (λ t v.
          (authenticates session_id t ≡ true)
          × All (NotAfter t) (keep (authenticates session_id) w.db.transactions))
        (get_successful_auth_transaction env session_id w)
unfolding get_successful_auth_transaction
newest-Runs env session_id w = read-After env _ w tt λ t row.
    let ts = keep (authenticates session_id) w.db.transactions in
    let e : latest ts ≡ some t = one-gives _ t row in
    (
      latest_holds (λ u. authenticates session_id u ≡ true) ts t
          (All-keep (authenticates session_id) w.db.transactions) e,
      latest-NotAfter ts t e,
    )

-- The transaction that `GetSuccessfulAuthTransaction` gives is a successful authentication of a
-- payer in the session, and no other of them is newer.
pub get_successful_auth_transaction-newest :
    (env : Env) (session_id : Uuid) (w : World) (t : Transaction)
    → (get_successful_auth_transaction env session_id w).0 ≡ ok t
    → (authenticates session_id t ≡ true)
      × All (NotAfter t) (keep (authenticates session_id) w.db.transactions)
get_successful_auth_transaction-newest env session_id w t e =
    Runs-ok (newest-Runs env session_id w) e
