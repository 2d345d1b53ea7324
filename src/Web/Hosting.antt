-- ===== src/Web/Hosting.antt =====
-- What the host of a request stands for (khazina/internal/tenant/service.go), over time.
use saftaja.Prelude.{
  true, false, ◌≡◌, none, some, String, List, [], ◌∷◌, ◌&&◌, not, is_some, find?, exists?, arith,
  Bool-cases, inl, inr, str_eq_sound, str_eq_refl,
}
use saftaja.Domain.{Text}
use saftaja.Env.{Env}
use saftaja.Exec.{State, World}
use saftaja.Store.Rows.{Project}
use saftaja.Store.Reads.{text_is}
use saftaja.Ledger.Step.{
  Step, History, ask, charge, open_session, open_transaction, settle, approve, add_organization,
  add_project, add_account, bill, start, next,
}
use saftaja.Web.Request.{Request, Route, WebEnv}
use saftaja.Web.Router.{App}
use saftaja.Web.Outcome.{hosted_project}
use saftaja.Web.Server.{handle_all, handle_all-History}

text_is-shared :
    (a b : Text) (host : String)
    → text_is a (some host) ≡ true
    → text_is b (some host) ≡ true
    → text_is a b ≡ true
text_is-shared none b host p q = ground arith
text_is-shared (some x) none host p q = ground arith
text_is-shared (some x) (some y) host p q =
    rw (str_eq_sound x host p) (rw (str_eq_sound y host q) (str_eq_refl host))

module _ (host : String) (p : Project) where
  -- A domain that no row has is not the host of one of them.
  unhosted :
      (ps : List Project) (q : Project)
      → exists? (λ r. text_is r.custom_domain p.custom_domain) ps ≡ false
      → find? (λ r. text_is r.custom_domain (some host) && not (is_some r.deleted_at)) ps ≡ some q
      → text_is p.custom_domain (some host) ≡ false
  unhosted [] q free found = ground arith
  unhosted (r ∷ ps) q free found = elim (Bool-cases (text_is p.custom_domain (some host))) [
    | inr n ↦ n
    | inl y ↦ elim (Bool-cases (text_is r.custom_domain (some host))) [
      | inl z ↦ ground (arith, free, text_is-shared r.custom_domain p.custom_domain host z y)
      | inr n ↦ ground (arith, free, found, n, unhosted ps q)
    ]
  ]

module _ (host : String) (q : Project) where
  abbrev Names : State → Type 0
  Names s = hosted_project host s.db ≡ some q

  Step-Names : {env : Env} {s t : State} → Step env none s t → Names s → Names t
  Step-Names (ask r n e) h = rw e h
  Step-Names (charge r p t v b f i c l u a cu rf whose e) h = rw e h
  Step-Names (open_session p v a f u ac c fresh whose e) h = rw e h
  Step-Names (open_transaction t v p fresh b o c whose e) h = rw e h
  Step-Names (settle t status raw time f n m whose e) h = rw e h
  Step-Names (approve t v raw time time' f p n b u whose e) h = rw e h
  Step-Names (add_organization o fresh whose e) h = rw e h
  Step-Names {s = s} (add_project p fresh free whose e) h =
      rw e (rw (unhosted host p s.db.projects q free h) h)
  Step-Names (add_account a fresh whose e) h = rw e h
  Step-Names (bill v fresh project unpaid whose e) h = rw e h

  History-Names : {env : Env} {s t : State} → History env none s t → Names s → Names t
  History-Names start h = h
  History-Names (next k st) h = Step-Names st (History-Names k h)

-- A host that is the custom domain of a live project stands for the same project, its row unchanged,
-- after any sequence of HTTP requests to any routes and hosts, of payers and of the admin API.
pub handle_all-hosted :
    (web : WebEnv) (env : Env) (app : App) (rs : List (Route × Request)) (w : World) (host : String)
    (q : Project)
    → hosted_project host w.db ≡ some q
    → hosted_project host (handle_all web env app rs w).db ≡ some q
handle_all-hosted web env app rs w host q h =
    History-Names host q (handle_all-History web env app rs w) h
