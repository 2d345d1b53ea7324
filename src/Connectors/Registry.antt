-- ===== src/Connectors/Registry.antt =====
-- khazina/internal/connectors/types.go and registry.go: the kinds of gateway, by their type.
use saftaja.Prelude.{Option, String, Bool, List, ◌∷◌, find?, keep, not, str_eq, none, some}
use saftaja.Errors.{Error}
use saftaja.Exec.{Result, ok, err}
use saftaja.Localisation.Language.{LocalizedString}

pub data FieldType : Type 0 where
  text password url select checkbox : FieldType

pub record Field : Type 0 where
  pub key : String
  pub label : LocalizedString
  pub placeholder : LocalizedString
  pub type : FieldType
  pub required : Bool

pub record PaymentMethodMeta : Type 0 where
  pub method : String
  pub label : LocalizedString
  pub icon : String

pub record ConnectorMeta : Type 0 where
  pub type : String
  pub name : LocalizedString
  pub description : LocalizedString
  pub credential_fields : List Field
  pub settings_fields : List Field
  pub payment_methods : List PaymentMethodMeta

-- `map[domain.ConnectorType]ConnectorMeta`; each type has one entry at most.
abbrev pub Registry : Type 0
Registry = List ConnectorMeta

-- `Registry[meta.Type] = meta`
unfoldable pub register : ConnectorMeta → Registry → Registry
register meta registry = meta ∷ keep (λ m. not (str_eq m.type meta.type)) registry

abbrev pub found : Option ConnectorMeta → Result ConnectorMeta
found none = err (Error.plain "unknown connector type: %s")
found (some meta) = ok meta

unfoldable pub get : String → Registry → Result ConnectorMeta
get t registry = found (find? (λ m. str_eq m.type t) registry)

-- `Available`, in some order
abbrev pub available : Registry → List ConnectorMeta
available registry = registry
