-- ===== src/Web/Handlers.antt =====
-- khazina/internal/web/handlers.go: the handlers. What a handler logs is left out.
use saftaja.Prelude.{true, false, Option, none, some, [], String, map, str_eq, not, if◌then◌else◌}
use saftaja.Env.{Env}
use saftaja.Errors.{Error, is_no_rows}
use saftaja.Exec.{Exec, pure}
use saftaja.Mpgs.Types.{api_version}
use saftaja.Store.Rows.{Project}
use saftaja.Payment.Types.{
  Service, CheckoutData, PaymentOption, MpgsConfig, InitiateSessionRequest, InitiateSessionResult,
  InitiateAuthRequest, ProcessAuthRequest, FinalizePaymentRequest, FinalizePaymentResult,
}
use saftaja.Payment.Checkout.{get_checkout_data, verify_domain}
use saftaja.Payment.Initiate.{initiate_session}
use saftaja.Payment.Auth.{initiate_auth, process_auth}
use saftaja.Payment.Finalize.{finalize_payment}
use saftaja.Localisation.Language.{Tag, detect_language, for_request}
use saftaja.Web.Texts.{message_text, respond_error}
use saftaja.Web.Respond.{parsed, respond}
use saftaja.Web.Errors.{ErrorCode, Message, reply, handle_payment_error, payment_result_message}
use saftaja.Web.Request.{Request, Response, WebEnv, CheckoutPage, PageOption, extract_payer_ip}

abbrev pub unknown_project : WebEnv → Request → Response
unknown_project web r =
    respond_error web r (reply ErrorCode.invoice_not_found Message.msg_invoice_not_found 404)

abbrev pub bad_request : WebEnv → Request → Response
bad_request web r =
    respond_error web r (reply ErrorCode.invalid_request Message.msg_invalid_request 400)

module _ {A B : Type 0} where
  abbrev and_then : Option A → (A → Option B) → Option B
  and_then none f = none
  and_then (some a) f = f a

module _ {A : Type 0} where
  -- the JSON handlers: a project, then a request that can be read, then the call
  abbrev pub json_handler :
      {Req : Type 0}
      → WebEnv
      → Request
      → Option Project
      → (Project → Option Req)
      → (Req → Exec A)
      → (A → Response)
      → Exec Response
  json_handler web r none read_request call next = pure (unknown_project web r)
  json_handler web r (some p) read_request call next =
      parsed (bad_request web r) (read_request p)
        λ req. respond (call req) next (λ e. respond_error web r (handle_payment_error e))

module _ (web : WebEnv) where
  abbrev pub session_request : Request → Project → Option InitiateSessionRequest
  session_request r p = and_then (web.parse_uuid r.invoice_id) λ i.
      and_then (web.decode_initiate r.body) λ (account, method).
        and_then (extract_payer_ip web r) λ ip. some (record {
          project_id = p.id;
          invoice_id = i;
          gateway_account_id = account;
          payment_method = method;
          payer_ip = ip;
          payer_user_agent = r.user_agent;
          idempotency_key = r.idempotency_key;
        })

  abbrev pub auth_request : Request → Project → Option InitiateAuthRequest
  auth_request r p = and_then (web.parse_uuid r.invoice_id) λ i.
      and_then (web.parse_uuid r.payment_session_id)
        λ s. some (record { project_id = p.id; invoice_id = i; payment_session_id = s })

  abbrev pub process_request : Request → Project → Option ProcessAuthRequest
  process_request r p = and_then (web.parse_uuid r.invoice_id) λ i.
      and_then (web.parse_uuid r.payment_session_id) λ s.
        and_then (web.decode_browser_details r.body) λ details.
          and_then (extract_payer_ip web r) λ ip. some (record {
            project_id = p.id;
            invoice_id = i;
            payment_session_id = s;
            browser_details = details;
            payer_ip = ip;
            user_agent = r.user_agent;
            accept_headers = r.accept;
          })

  abbrev pub finalize_request : Request → Project → Option FinalizePaymentRequest
  finalize_request r p = and_then (web.parse_uuid r.invoice_id) λ i.
      and_then (web.parse_uuid r.payment_session_id)
        λ s. some (record { project_id = p.id; invoice_id = i; payment_session_id = s })

abbrev base_url_of : Option MpgsConfig → String
base_url_of none = ""
base_url_of (some c) = c.base_url

abbrev merchant_id_of : Option MpgsConfig → String
merchant_id_of none = ""
merchant_id_of (some c) = c.merchant_id

module _ (env : Env) where
  abbrev page_option : PaymentOption → PageOption
  page_option o = record {
    id = env.uuid_string o.gateway_account_id;
    label = o.label;
    type = o.method;
  }

  abbrev paid_page : Tag → CheckoutData → CheckoutPage
  paid_page lang d = record {
    lang = lang;
    mpgs_base_url = "";
    mpgs_api_version = "";
    mpgs_merchant_id = "";
    invoice_id = env.uuid_string d.invoice.id;
    amount = d.invoice.amount;
    currency = d.invoice.currency;
    description = "";
    customer_email = d.invoice.customer_email;
    customer_name = "";
    items = [];
    options = [];
    is_paid = true;
  }

  abbrev open_page : Tag → CheckoutData → CheckoutPage
  open_page lang d = record {
    lang = lang;
    mpgs_base_url = base_url_of d.mpgs_config;
    mpgs_api_version = api_version;
    mpgs_merchant_id = merchant_id_of d.mpgs_config;
    invoice_id = env.uuid_string d.invoice.id;
    amount = d.invoice.amount;
    currency = d.invoice.currency;
    description = d.invoice.description;
    customer_email = d.invoice.customer_email;
    customer_name = d.invoice.customer_name;
    items = d.items;
    options = map page_option d.payment_options;
    is_paid = false;
  }

  abbrev pub page_of : Tag → CheckoutData → Response
  page_of lang d = Response.checkout_page (if d.is_paid then paid_page lang d else open_page lang d)

  abbrev pub session_response : InitiateSessionResult → Response
  session_response r =
      Response.session_opened (env.uuid_string r.payment_session_id) r.gateway_session_id

abbrev pub not_found_or_broken : Error → Response
not_found_or_broken e = if is_no_rows e then Response.plain 404 else Response.plain 500

abbrev pub completion : WebEnv → Request → FinalizePaymentResult → Response
completion web r result =
    Response.completion_page (if result.success then "success" else "failed")
      (for_request web (message_text (payment_result_message result.result_code)) r)
      result.checkout_url (detect_language web r)

module _ (web : WebEnv) (env : Env) (s : Service) (verify_domain_secret : String) where
  unfoldable pub checkout_page_handler : Option Project → Request → Exec Response
  checkout_page_handler none r = pure (Response.plain 404)
  checkout_page_handler (some p) r = parsed (Response.plain 400) (web.parse_uuid r.invoice_id) λ i.
      respond (get_checkout_data env s i p.id) (page_of env (detect_language web r))
        not_found_or_broken

  unfoldable pub initiate_session_handler : Option Project → Request → Exec Response
  initiate_session_handler project r =
      json_handler web r project (session_request web r) (initiate_session env s)
        (session_response env)

  unfoldable pub card_initiate_auth_handler : Option Project → Request → Exec Response
  card_initiate_auth_handler project r =
      json_handler web r project (auth_request web r) (initiate_auth env s)
        (λ a. Response.auth_initiated a.next_step a.transaction_id)

  unfoldable pub card_process_auth_handler : Option Project → Request → Exec Response
  card_process_auth_handler project r =
      json_handler web r project (process_request web r) (process_auth env s)
        (λ a. Response.auth_processed a.next_step a.redirect_html)

  unfoldable pub card_finalize_handler : Option Project → Request → Exec Response
  card_finalize_handler project r =
      json_handler web r project (finalize_request web r) (finalize_payment env s)
        (completion web r)

  unfoldable pub verify_domain_handler : Request → Exec Response
  verify_domain_handler r =
      if not (str_eq r.secret verify_domain_secret)
      then pure (Response.plain 403)
      else if str_eq r.domain ""
      then pure (Response.plain 400)
      else respond (verify_domain env s r.domain)
          (λ valid. if valid then Response.plain 200 else Response.plain 404)
          (λ _. Response.plain 500)
