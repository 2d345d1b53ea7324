-- ===== src/Web/Replies/First.antt =====
-- The order in which handlePaymentError (khazina/internal/web/errors.go) asks for the types of an
-- error.
use saftaja.Prelude.{ℕ, ◌≤◌, ◌≡◌, ◌∙◌, refl, sym, ap, none, true, false, String, inl, inr, arith}
use saftaja.Errors.{Error, unwrap}
use saftaja.Web.Errors.{handle_payment_error, ErrorCode, Message, Reply, reply}
use saftaja.Web.Replies.{handle_payment_error-gateway, is_early}

-- The first error stands in the chain of the second: it is that error, or is wrapped by it.
pub data Chained : Error → Error → Type 0 where
  itself : (e : Error) → Chained e e
  under_text : {x e : Error} (text : String) → Chained x e → Chained x (Error.wrapped text e)
  under_status :
      {x e : Error} (got expected : ℕ) → Chained x e → Chained x (Error.api_error got expected e)
  under_gateway : {x e : Error} (g : String) → Chained x e → Chained x (Error.gateway g e)

-- How early the type of an error is asked for.
abbrev pub place : Error → ℕ
place (Error.invoice_not_found _) = 0
place (Error.session_expired _) = 1
place (Error.invalid_state_transition _ _ _) = 2
place (Error.invoice_already_paid _) = 3
place (Error.session_invoice_mismatch _ _) = 4
place (Error.gateway _ _) = 5
place _ = 6

-- the reply of an error of this type
abbrev pub own_reply : Error → Reply
own_reply (Error.invoice_not_found _) =
    reply ErrorCode.invoice_not_found Message.msg_invoice_not_found 404
own_reply (Error.session_expired _) =
    reply ErrorCode.session_expired Message.msg_session_expired 410
own_reply (Error.invalid_state_transition _ _ _) =
    reply ErrorCode.invalid_state Message.msg_invalid_state 409
own_reply (Error.invoice_already_paid _) = reply ErrorCode.already_paid Message.msg_already_paid 409
own_reply (Error.session_invoice_mismatch _ _) =
    reply ErrorCode.session_mismatch Message.msg_invalid_state 403
own_reply (Error.gateway _ _) = reply ErrorCode.gateway_error Message.msg_gateway_error 502
own_reply _ = reply ErrorCode.internal_error Message.msg_internal_error 500

-- No error of the chain of `e` has a type that is asked for before that of `x`.
abbrev pub Earliest : Error → Error → Type 0
Earliest x e = (y : Error) → Chained y e → place x ≤ place y

-- An error of the chain of `e` whose type is asked for first, and whose reply this is.
pub record First (e : Error) (r : Reply) : Type 0 where
  pub first : Error
  pub chained : Chained first e
  pub earliest : Earliest first e
  pub replies : r ≡ own_reply first

early_place : (x : Error) → is_early (own_reply x).code ≡ true → place x ≤ 4
early_place Error.no_rows h = cc
early_place (Error.db_failure _) h = cc
early_place (Error.plain _) h = cc
early_place (Error.wrapped _ _) h = cc
early_place (Error.unexpected_status _ _ _) h = cc
early_place (Error.api_error _ _ _) h = cc
early_place (Error.gateway _ _) h = cc
early_place (Error.invoice_not_found _) h = omega arith
early_place (Error.session_expired _) h = omega arith
early_place (Error.invalid_state_transition _ _ _) h = omega arith
early_place (Error.invoice_already_paid _) h = omega arith
early_place (Error.session_invoice_mismatch _ _) h = omega arith

late_place : (x : Error) → is_early (own_reply x).code ≡ false → 5 ≤ place x
late_place Error.no_rows h = omega arith
late_place (Error.db_failure _) h = omega arith
late_place (Error.plain _) h = omega arith
late_place (Error.wrapped _ _) h = omega arith
late_place (Error.unexpected_status _ _ _) h = omega arith
late_place (Error.api_error _ _ _) h = omega arith
late_place (Error.gateway _ _) h = omega arith
late_place (Error.invoice_not_found _) h = cc
late_place (Error.session_expired _) h = cc
late_place (Error.invalid_state_transition _ _ _) h = cc
late_place (Error.invoice_already_paid _) h = cc
late_place (Error.session_invoice_mismatch _ _) h = cc

place_bound : (x : Error) → place x ≤ 6
place_bound Error.no_rows = omega arith
place_bound (Error.db_failure _) = omega arith
place_bound (Error.plain _) = omega arith
place_bound (Error.wrapped _ _) = omega arith
place_bound (Error.unexpected_status _ _ _) = omega arith
place_bound (Error.api_error _ _ _) = omega arith
place_bound (Error.gateway _ _) = omega arith
place_bound (Error.invoice_not_found _) = omega arith
place_bound (Error.session_expired _) = omega arith
place_bound (Error.invalid_state_transition _ _ _) = omega arith
place_bound (Error.invoice_already_paid _) = omega arith
place_bound (Error.session_invoice_mismatch _ _) = omega arith

Earliest-alone : (e : Error) → unwrap e ≡ none → Earliest e e
Earliest-alone e h y (itself e') = omega arith
Earliest-alone e h y (under_text text c) = cc
Earliest-alone e h y (under_status got expected c) = cc
Earliest-alone e h y (under_gateway g c) = cc

Earliest-text : (text : String) (x e : Error) → Earliest x e → Earliest x (Error.wrapped text e)
Earliest-text text x e k y (itself e') = place_bound x
Earliest-text text x e k y (under_text t c) = k y c

Earliest-status :
    (got expected : ℕ) (x e : Error) → Earliest x e → Earliest x (Error.api_error got expected e)
Earliest-status got expected x e k y (itself e') = place_bound x
Earliest-status got expected x e k y (under_status g n c) = k y c

Earliest-gateway :
    (g : String) (x e : Error) → place x ≤ 5 → Earliest x e → Earliest x (Error.gateway g e)
Earliest-gateway g x e le k y (itself e') = le
Earliest-gateway g x e le k y (under_gateway g' c) = k y c

-- Under a gateway error, the first error stays the first unless it is asked for after it.
First-gateway :
    (g : String) (e : Error)
    → First e (handle_payment_error e)
    → First (Error.gateway g e) (handle_payment_error (Error.gateway g e))
First-gateway g e f = elim (handle_payment_error-gateway g e) [
  | inl (early, same) ↦
      let before =
        early_place f.first (ap (λ (r : Reply). is_early r.code) (sym f.replies) ∙ early) in
      record {
        first = f.first;
        chained = under_gateway g f.chained;
        earliest = Earliest-gateway g f.first e (omega (arith, before)) f.earliest;
        replies = same ∙ f.replies;
      }
  | inr (late, own) ↦
      let after = late_place f.first (ap (λ (r : Reply). is_early r.code) (sym f.replies) ∙ late) in
      record {
        first = Error.gateway g e;
        chained = itself _;
        earliest =
            Earliest-gateway g (Error.gateway g e) e (omega arith)
              λ y c. omega (arith, after, f.earliest y c);
        replies = own;
      }
]

First-alone :
    (e : Error)
    → unwrap e ≡ none
    → handle_payment_error e ≡ own_reply e
    → First e (handle_payment_error e)
First-alone e h replies = record {
  first = e;
  chained = itself e;
  earliest = Earliest-alone e h;
  replies = replies;
}

-- The reply to an error, code, message and status, is that of an error of its chain, the error
-- itself or one that it wraps at any depth, whose type is asked for before or with those of all
-- others in the chain, in the order: InvoiceNotFoundError with 404, SessionExpiredError with 410,
-- InvalidStateTransitionError with 409, InvoiceAlreadyPaidError with 409,
-- SessionInvoiceMismatchError with 403, GatewayError with 502, and any other with 500.
pub handle_payment_error-First : (e : Error) → First e (handle_payment_error e)
unfolding handle_payment_error
handle_payment_error-First Error.no_rows = First-alone _ refl refl
handle_payment_error-First (Error.db_failure _) = First-alone _ refl refl
handle_payment_error-First (Error.plain _) = First-alone _ refl refl
handle_payment_error-First (Error.unexpected_status _ _ _) = First-alone _ refl refl
handle_payment_error-First (Error.invoice_not_found _) = First-alone _ refl refl
handle_payment_error-First (Error.session_expired _) = First-alone _ refl refl
handle_payment_error-First (Error.invalid_state_transition _ _ _) = First-alone _ refl refl
handle_payment_error-First (Error.invoice_already_paid _) = First-alone _ refl refl
handle_payment_error-First (Error.session_invoice_mismatch _ _) = First-alone _ refl refl
handle_payment_error-First (Error.gateway g e) = First-gateway g e (handle_payment_error-First e)
handle_payment_error-First (Error.wrapped text e) =
    let f = handle_payment_error-First e in
    record {
      first = f.first;
      chained = under_text text f.chained;
      earliest = Earliest-text text f.first e f.earliest;
      replies = f.replies;
    }
handle_payment_error-First (Error.api_error got expected e) =
    let f = handle_payment_error-First e in
    record {
      first = f.first;
      chained = under_status got expected f.chained;
      earliest = Earliest-status got expected f.first e f.earliest;
      replies = f.replies;
    }
