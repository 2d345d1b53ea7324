-- ===== src/Concurrent/Http/Handlers/Safety.antt =====
-- The handlers of khazina/internal/web/handlers.go and khazina/internal/admin/handlers.go among
-- other programs, and how many calls they make.
use saftaja.Prelude.{
  ℕ, zero, suc, Bool, true, false, Option, none, some, String, str_eq, not, if◌then◌else◌, is_some,
}
use saftaja.Domain.{Uuid}
use saftaja.Env.{Env}
use saftaja.Exec.{Result}
use saftaja.Store.Rows.{Project}
use saftaja.Payment.Types.{Service}
use saftaja.Admin.Types
use saftaja.Admin.Handlers.{is_nil_uuid, with_environment}
use saftaja.Web.Request.{Request, Response, AdminRoute, WebEnv}
use saftaja.Concurrent.Program.{Program, ends, calls}
use saftaja.Concurrent.Safe.{Safe, Fact}
use saftaja.Concurrent.Rules.{nothing_known}
use saftaja.Concurrent.Ending.{Within}
use saftaja.Concurrent.Ending.Bounds.{thread-Within}
use saftaja.Concurrent.Server.{Operation, thread, thread-Safe}
use saftaja.Concurrent.Http.Handlers.{
  finish, parsed, json_handler, checkout_page_handler, initiate_session_handler,
  card_initiate_auth_handler, card_process_auth_handler, card_finalize_handler,
  verify_domain_handler, admin_handler, api_key_auth,
}

-- A program that keeps the invariant, whatever runs at the same time, and makes at most `n` calls.
pub record Sound {A : Type 0} (n : ℕ) (p : Program A) : Type 1 where
  pub safe : Safe none nothing_known p
  pub within : Within n p

module _ {A B : Type 0} (h : Result A → Result B) where
  finish-Safe :
      (o : Option Uuid) (fact : Fact) (p : Program A) → Safe o fact p → Safe o fact (finish h p)
  unfolding finish
  finish-Safe o fact (ends r) s = tt
  finish-Safe o fact (calls m next) s = λ w inv held k.
      let onward = s w inv held k in
      record {
        own = onward.own;
        fact = onward.fact;
        move = onward.move;
        held = onward.held;
        known = onward.known;
        stable = onward.stable;
        rest = finish-Safe onward.own onward.fact (next (m w).0) onward.rest;
      }

  finish-Within : (n : ℕ) (p : Program A) → Within n p → Within n (finish h p)
  unfolding finish
  finish-Within n (ends r) k = tt
  finish-Within zero (calls m next) k = absurd k
  finish-Within (suc n) (calls m next) k = λ r. finish-Within n (next r) (k r)

  pub finish-Sound : (n : ℕ) (p : Program A) → Sound n p → Sound n (finish h p)
  finish-Sound n p s = record {
    safe = finish-Safe none nothing_known p s.safe;
    within = finish-Within n p s.within;
  }

pub returns-Sound : {A : Type 0} (n : ℕ) (r : Result A) → Sound n (ends r)
returns-Sound n r = record { safe = tt; within = tt }

module _ {A : Type 0} where
  pub parsed-Sound :
      (bad : Response) (o : Option A) (f : A → Program Response)
      → ((a : A) → Sound 10 (f a))
      → Sound 10 (parsed bad o f)
  parsed-Sound bad none f k = returns-Sound 10 _
  parsed-Sound bad (some a) f k = k a

  pub if-Sound :
      (n : ℕ) (b : Bool) (p q : Program A) → Sound n p → Sound n q → Sound n (if b then p else q)
  if-Sound n true p q k k' = k
  if-Sound n false p q k k' = k'

module _ {A Req : Type 0} where
  pub json-Sound :
      (web : WebEnv) (r : Request) (project : Option Project) (read_request : Project → Option Req)
      (f : Req → Program A) (next : A → Response)
      → ((req : Req) → Sound 10 (f req))
      → Sound 10 (json_handler web r project read_request f next)
  json-Sound web r none read_request f next k = returns-Sound 10 _
  json-Sound web r (some p) read_request f next k =
      parsed-Sound _ (read_request p) _ λ req. finish-Sound _ 10 (f req) (k req)

module _ (web : WebEnv) (env : Env) (s : Service) (admin : Types.Service) where
  thread-Sound : (op : Operation) → Sound 10 (thread env s admin op).program
  thread-Sound op = record {
    safe = thread-Safe env s admin op;
    within = thread-Within env s admin op;
  }

  pub checkout-Sound :
      (project : Option Project) (r : Request)
      → Sound 10 (checkout_page_handler web env s project r)
  checkout-Sound none r = returns-Sound 10 _
  checkout-Sound (some p) r =
      parsed-Sound _ (web.parse_uuid r.invoice_id) _
        λ i. finish-Sound _ 10 _ (thread-Sound (Operation.checkout i p.id))

  pub initiate_session-Sound :
      (project : Option Project) (r : Request)
      → Sound 10 (initiate_session_handler web env s project r)
  initiate_session-Sound project r =
      json-Sound web r project _ _ _ λ req. thread-Sound (Operation.session req)

  pub initiate_auth-Sound :
      (project : Option Project) (r : Request)
      → Sound 10 (card_initiate_auth_handler web env s project r)
  initiate_auth-Sound project r =
      json-Sound web r project _ _ _ λ req. thread-Sound (Operation.authenticate req)

  pub process_auth-Sound :
      (project : Option Project) (r : Request)
      → Sound 10 (card_process_auth_handler web env s project r)
  process_auth-Sound project r =
      json-Sound web r project _ _ _ λ req. thread-Sound (Operation.challenge req)

  pub finalize-Sound :
      (project : Option Project) (r : Request)
      → Sound 10 (card_finalize_handler web env s project r)
  finalize-Sound project r =
      json-Sound web r project _ _ _ λ req. thread-Sound (Operation.finalize req)

  pub verify_domain-Sound :
      (secret : String) (r : Request) → Sound 10 (verify_domain_handler env s secret r)
  verify_domain-Sound secret r =
      if-Sound 10 (not (str_eq r.secret secret)) _ _ (returns-Sound 10 _) (
        if-Sound 10 (str_eq r.domain "") _ _ (returns-Sound 10 _)
          (finish-Sound _ 10 _ (thread-Sound (Operation.domain r.domain))))

  pub admin-Sound : (a : AdminRoute) (r : Request) → Sound 10 (admin_handler web env admin a r)
  admin-Sound AdminRoute.organizations r = parsed-Sound _ (web.decode_organization r.body) _ λ req.
      if-Sound 10 (str_eq req.name "") _ _ (returns-Sound 10 _)
        (finish-Sound _ 10 _ (thread-Sound (Operation.organization req)))
  admin-Sound AdminRoute.projects r = parsed-Sound _ (web.decode_project r.body) _ λ req.
      if-Sound 10 (is_nil_uuid env req.organization_id) _ _ (returns-Sound 10 _) (
        if-Sound 10 (str_eq req.name "") _ _ (returns-Sound 10 _)
          (finish-Sound _ 10 _ (thread-Sound (Operation.project (with_environment req)))))
  admin-Sound AdminRoute.gateway_accounts r = parsed-Sound _ (web.decode_account r.body) _ λ req.
      if-Sound 10 (is_nil_uuid env req.project_id) _ _ (returns-Sound 10 _) (
        if-Sound 10 (str_eq req.connector_type "") _ _ (returns-Sound 10 _) (
          if-Sound 10 (str_eq req.account_name "") _ _ (returns-Sound 10 _) (
            if-Sound 10 (not (is_some req.credentials)) _ _ (returns-Sound 10 _)
              (finish-Sound _ 10 _ (thread-Sound (Operation.account req))))))
  admin-Sound AdminRoute.invoices r = parsed-Sound _ (web.decode_invoice r.body) _ λ req.
      if-Sound 10 (is_nil_uuid env req.project_id) _ _ (returns-Sound 10 _) (
        if-Sound 10 (str_eq req.amount "") _ _ (returns-Sound 10 _) (
          if-Sound 10 (str_eq req.currency "") _ _ (returns-Sound 10 _)
            (finish-Sound _ 10 _ (thread-Sound (Operation.invoice req)))))

pub key-Sound :
    (key : String) (r : Request) (p : Program Response)
    → Sound 10 p
    → Sound 10 (api_key_auth key r p)
key-Sound key r p k =
    if-Sound 10 (str_eq r.admin_key "") _ _ (returns-Sound 10 _)
      (if-Sound 10 (not (str_eq key r.admin_key)) _ _ (returns-Sound 10 _) k)
