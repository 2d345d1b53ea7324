-- ===== src/Concurrent/Http/Handlers/Alone.antt =====
-- A handler whose program runs alone does what khazina/internal/web/handlers.go and
-- khazina/internal/admin/handlers.go do.
use mathlib.Core.Path.{fun_ext}
use saftaja.Prelude.{
  ◌≡◌, ◌∙◌, refl, ap, Bool, true, false, Option, none, some, String, str_eq, not, if◌then◌else◌,
  is_some,
}
use saftaja.Env.{Env}
use saftaja.Errors.{Error}
use saftaja.Exec
use saftaja.Exec.{Result, ok, err, panic, World, Exec}
use saftaja.Store.Rows.{Project}
use saftaja.Admin.Types
use saftaja.Admin.Handlers as Admin
use saftaja.Payment.Types.{Service}
use saftaja.Web.Respond as Respond
use saftaja.Web.Texts.{respond_error}
use saftaja.Web.Errors.{handle_payment_error}
use saftaja.Web.Handlers as Web
use saftaja.Web.Request.{Request, Response, AdminRoute, WebEnv}
use saftaja.Concurrent.Program.{Program, ends, calls, run}
use saftaja.Concurrent.Program.Alone.{run-returns}
use saftaja.Concurrent.Http.Handlers.{
  finish, response_of, respond, parsed, json_handler, checkout_page_handler,
  initiate_session_handler, card_initiate_auth_handler, card_process_auth_handler,
  card_finalize_handler, verify_domain_handler, demand, admin_handler,
}
use saftaja.Concurrent.Checkout.{get_checkout_data-alone, verify_domain-alone}
use saftaja.Concurrent.Initiate.{initiate_session-alone}
use saftaja.Concurrent.Auth.{initiate_auth-alone, process_auth-alone}
use saftaja.Concurrent.Finalize.{finalize_payment-alone}
use saftaja.Concurrent.Admin.{
  create_organization-alone, create_project-alone, create_gateway_account-alone,
  create_invoice-alone,
}

module _ {A B : Type 0} where
  pub finish-at :
      (h : Result A → Result B) (p : Program A) (w : World)
      → run (finish h p) w ≡ (let (r, w') = run p w in (h r, w'))
  unfolding run finish
  finish-at h (ends r) w = refl
  finish-at h (calls m next) w = finish-at h (next (m w).0) (m w).1

module _ {A : Type 0} where
  respond_lem :
      (next : A → Response) (failed : Error → Response) (r : Result A) (w : World)
      → (response_of next failed r, w) ≡ Respond.respond (λ _. (r, w)) next failed w
  unfolding Exec.attempt Exec.◌>>=◌ Exec.pure
  respond_lem next failed (ok a) w = refl
  respond_lem next failed (err e) w = refl
  respond_lem next failed panic w = refl

  pub run-respond :
      (p : Program A) (m : Exec A) (next : A → Response) (failed : Error → Response)
      → run p ≡ m
      → run (respond p next failed) ≡ Respond.respond m next failed
  unfolding Exec.attempt Exec.◌>>=◌ Exec.pure
  run-respond p m next failed e =
      fun_ext (λ w.
        finish-at (response_of next failed) p w ∙ respond_lem next failed (run p w).0 (run p w).1)
      ∙ ap (λ m. Respond.respond m next failed) e

  run-parsed :
      (bad : Response) (o : Option A) (f : A → Program Response) (g : A → Exec Response)
      → ((a : A) → run (f a) ≡ g a)
      → run (parsed bad o f) ≡ Respond.parsed bad o g
  run-parsed bad none f g e = run-returns bad
  run-parsed bad (some a) f g e = e a

module _ {A : Type 0} where
  run-json_handler :
      {Req : Type 0} (web : WebEnv) (r : Request) (project : Option Project)
      (read_request : Project → Option Req) (f : Req → Program A) (g : Req → Exec A)
      (next : A → Response)
      → ((req : Req) → run (f req) ≡ g req)
      → run (json_handler web r project read_request f next)
        ≡ Web.json_handler web r project read_request g next
  run-json_handler web r none read_request f g next e = run-returns _
  run-json_handler web r (some p) read_request f g next e = run-parsed _ (read_request p) _ _ λ req.
      run-respond (f req) (g req) next (λ e. respond_error web r (handle_payment_error e)) (e req)

module _ {A : Type 0} where
  pub run-if :
      (b : Bool) (p q : Program A) (m n : Exec A)
      → run p ≡ m
      → run q ≡ n
      → run (if b then p else q) ≡ (if b then m else n)
  run-if true p q m n e e' = e
  run-if false p q m n e e' = e'

run-demand :
    (missing : Bool) (message : String) (next : Program Response) (m : Exec Response)
    → run next ≡ m
    → run (demand missing message next) ≡ Admin.demand missing message m
run-demand missing message next m e = run-if missing _ next _ m (run-returns _) e

module _ (web : WebEnv) (env : Env) (s : Service) (secret : String) where
  pub checkout-alone :
      (project : Option Project) (r : Request)
      → run (checkout_page_handler web env s project r)
        ≡ Web.checkout_page_handler web env s secret project r
  unfolding Web.checkout_page_handler
  checkout-alone none r = run-returns _
  checkout-alone (some p) r =
      run-parsed _ (web.parse_uuid r.invoice_id) _ _
        λ i. run-respond _ _ _ _ (get_checkout_data-alone env s i p.id)

  pub initiate_session_handler-alone :
      (project : Option Project) (r : Request)
      → run (initiate_session_handler web env s project r)
        ≡ Web.initiate_session_handler web env s secret project r
  unfolding Web.initiate_session_handler
  initiate_session_handler-alone project r =
      run-json_handler web r project _ _ _ _ λ req. initiate_session-alone env s req

  pub initiate_auth_handler-alone :
      (project : Option Project) (r : Request)
      → run (card_initiate_auth_handler web env s project r)
        ≡ Web.card_initiate_auth_handler web env s secret project r
  unfolding Web.card_initiate_auth_handler
  initiate_auth_handler-alone project r =
      run-json_handler web r project _ _ _ _ λ req. initiate_auth-alone env s req

  pub process_auth_handler-alone :
      (project : Option Project) (r : Request)
      → run (card_process_auth_handler web env s project r)
        ≡ Web.card_process_auth_handler web env s secret project r
  unfolding Web.card_process_auth_handler
  process_auth_handler-alone project r =
      run-json_handler web r project _ _ _ _ λ req. process_auth-alone env s req

  pub finalize_handler-alone :
      (project : Option Project) (r : Request)
      → run (card_finalize_handler web env s project r)
        ≡ Web.card_finalize_handler web env s secret project r
  unfolding Web.card_finalize_handler
  finalize_handler-alone project r =
      run-json_handler web r project _ _ _ _ λ req. finalize_payment-alone env s req

  pub verify_domain_handler-alone :
      (r : Request)
      → run (verify_domain_handler env s secret r) ≡ Web.verify_domain_handler web env s secret r
  unfolding Web.verify_domain_handler
  verify_domain_handler-alone r = run-if (not (str_eq r.secret secret)) _ _ _ _ (run-returns _) (
      run-if (str_eq r.domain "") _ _ _ _ (run-returns _)
        (run-respond _ _ _ _ (verify_domain-alone env s r.domain)))

module _ (web : WebEnv) (env : Env) (s : Types.Service) where
  pub admin_handler-alone :
      (a : AdminRoute) (r : Request)
      → run (admin_handler web env s a r) ≡ Admin.admin_handler web env s a r
  unfolding Admin.create_organization_handler Admin.create_project_handler
      Admin.create_gateway_account_handler Admin.create_invoice_handler
  admin_handler-alone AdminRoute.organizations r =
      run-parsed _ (web.decode_organization r.body) _ _ λ req.
        run-demand (str_eq req.name "") _ _ _
          (run-respond _ _ _ _ (create_organization-alone env s req))
  admin_handler-alone AdminRoute.projects r = run-parsed _ (web.decode_project r.body) _ _ λ req.
      run-demand (Admin.is_nil_uuid env req.organization_id) _ _ _ (
        run-demand (str_eq req.name "") _ _ _
          (run-respond _ _ _ _ (create_project-alone env s (Admin.with_environment req))))
  admin_handler-alone AdminRoute.gateway_accounts r =
      run-parsed _ (web.decode_account r.body) _ _ λ req.
        run-demand (Admin.is_nil_uuid env req.project_id) _ _ _ (
          run-demand (str_eq req.connector_type "") _ _ _ (
            run-demand (str_eq req.account_name "") _ _ _ (
              run-demand (not (is_some req.credentials)) _ _ _
                (run-respond _ _ _ _ (create_gateway_account-alone env s req)))))
  admin_handler-alone AdminRoute.invoices r = run-parsed _ (web.decode_invoice r.body) _ _ λ req.
      run-demand (Admin.is_nil_uuid env req.project_id) _ _ _ (
        run-demand (str_eq req.amount "") _ _ _ (
          run-demand (str_eq req.currency "") _ _ _
            (run-respond _ _ _ _ (create_invoice-alone env s req))))
