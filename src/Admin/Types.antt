-- ===== src/Admin/Types.antt =====
-- khazina/internal/admin/service.go: the requests and the results.
use saftaja.Prelude.{String, List, Option}
use saftaja.Domain.{Uuid, Bytes, JsonObject}

-- `service`, less the queries.
pub record Service : Type 0 where
  pub encryption_key : Bytes

pub record CreateOrganizationRequest : Type 0 where
  pub name : String

pub record Organization : Type 0 where
  pub id : Uuid
  pub name : String

pub record CreateProjectRequest : Type 0 where
  pub organization_id : Uuid
  pub name : String
  pub environment : String
  pub custom_domain : String

pub record Project : Type 0 where
  pub id : Uuid
  pub organization_id : Uuid
  pub name : String
  pub environment : String
  pub custom_domain : String

-- A nil map is `none`.
pub record CreateGatewayAccountRequest : Type 0 where
  pub project_id : Uuid
  pub connector_type : String
  pub account_name : String
  pub credentials : Option JsonObject
  pub settings : Option JsonObject
  pub payment_methods : List String

pub record GatewayAccount : Type 0 where
  pub id : Uuid
  pub project_id : Uuid
  pub connector_type : String
  pub account_name : String

pub record CreateInvoiceRequest : Type 0 where
  pub project_id : Uuid
  pub amount : String
  pub currency : String
  pub customer_email : String
  pub customer_name : String
  pub description : String

pub record Invoice : Type 0 where
  pub id : Uuid
  pub project_id : Uuid
  pub amount : String
  pub currency : String
  pub status : String
  pub checkout_url : String

-- What a handler sends back with the status 201.
pub data Created : Type 0 where
  organization : Organization → Created
  project : Project → Created
  account : GatewayAccount → Created
  invoice : Invoice → Created
