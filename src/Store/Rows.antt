-- ===== src/Store/Rows.antt =====
-- khazina/internal/store/models.go: the rows, and the database as its tables. A table lists its
-- rows with the newest first.
use saftaja.Prelude.{String, Bool, List, Option}
use saftaja.Domain.{
  ℤ, Uuid, Time, Bytes, Decimal, Text, InvoiceStatus, PaymentSessionStatus, TransactionType,
  TransactionStatus,
}
use saftaja.Mpgs.Types.{Body}

pub record Organization : Type 0 where
  pub id : Uuid
  pub name : String
  pub created_at : Time
  pub updated_at : Time
  pub deleted_at : Option Time

pub record Project : Type 0 where
  pub id : Uuid
  pub organization_id : Uuid
  pub name : String
  pub environment : String
  pub custom_domain : Text
  pub created_at : Time
  pub updated_at : Time
  pub deleted_at : Option Time

pub record GatewayAccount : Type 0 where
  pub id : Uuid
  pub project_id : Uuid
  pub connector_type : String
  pub account_name : String
  pub settings : String
  pub payment_methods : String
  pub is_active : Bool
  pub created_at : Time
  pub updated_at : Time
  pub deleted_at : Option Time
  pub credentials : Bytes

pub record Invoice : Type 0 where
  pub id : Uuid
  pub project_id : Uuid
  pub amount : Decimal
  pub currency : String
  pub status : InvoiceStatus
  pub external_id : Text
  pub customer_email : Text
  pub customer_name : Text
  pub description : Text
  pub paid_at : Option Time
  pub created_at : Time
  pub updated_at : Time
  pub deleted_at : Option Time

pub record InvoiceItem : Type 0 where
  pub id : Uuid
  pub invoice_id : Uuid
  pub name : String
  pub description : Text
  pub quantity : ℤ
  pub unit_price : Decimal
  pub amount : Decimal
  pub created_at : Time

pub record PaymentSession : Type 0 where
  pub id : Uuid
  pub invoice_id : Uuid
  pub project_id : Uuid
  pub gateway_account_id : Uuid
  pub gateway_session_id : String
  pub status : PaymentSessionStatus
  pub payment_method : String
  pub payer_ip : Text
  pub payer_user_agent : Text
  pub expires_at : Option Time
  pub created_at : Time
  pub updated_at : Time
  pub deleted_at : Option Time
  pub idempotency_key : Text

-- `raw_request` holds the body that `json.Marshal` encodes.
pub record Transaction : Type 0 where
  pub id : Uuid
  pub payment_session_id : Uuid
  pub invoice_id : Uuid
  pub project_id : Uuid
  pub transaction_type : TransactionType
  pub gateway_transaction_id : String
  pub amount : Decimal
  pub currency : String
  pub status : TransactionStatus
  pub raw_request : Body
  pub raw_response : Option String
  pub created_at : Time
  pub updated_at : Time
  pub deleted_at : Option Time

pub record Db : Type 0 where
  pub organizations : List Organization
  pub projects : List Project
  pub gateway_accounts : List GatewayAccount
  pub invoices : List Invoice
  pub invoice_items : List InvoiceItem
  pub payment_sessions : List PaymentSession
  pub transactions : List Transaction
