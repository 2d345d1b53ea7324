-- ===== src/Connectors/Demands.antt =====
-- The fields that khazina/internal/connectors/mpgs/metadata.go asks for, and those without which
-- khazina/internal/connectors/mpgs/credentials.go refuses the credentials.
use mathlib.Core.Path.{subst}
use saftaja.Prelude.{
  Bool, refl, sym, str_eq_sound, ◌≡◌, ◌↔◌, true, false, String, Option, none, some, All, str_eq,
  arith, if◌then◌else◌,
}
use saftaja.Domain.{connector_type_mpgs}
use saftaja.Connectors.Types.{Credentials}
use saftaja.Connectors.Credentials.{required}
use saftaja.Connectors.Registry.{Field, ConnectorMeta, register, get, found}
use saftaja.Connectors.Metadata.{registered, metadata}
use saftaja.Exec.{ok}

-- The value under a key of the JSON of the credentials.
abbrev pub value_of : String → Credentials → Option String
value_of key c =
    if str_eq key "merchant_id"
    then some c.merchant_id
    else if str_eq key "base_url"
    then some c.base_url
    else if str_eq key "api_password"
    then some c.api_password
    else none

-- A required field has a value, and it is not empty.
abbrev pub Filled : Credentials → Field → Type 0
Filled c f = f.required ≡ true → (v : String) × (value_of f.key c ≡ some v) × (str_eq v "" ≡ false)

given : (c : Credentials) → required c ≡ ok c → All (Filled c) metadata.credential_fields
given c h = (
  λ r. (c.merchant_id, refl, ground arith),
  (λ r. (c.base_url, refl, ground arith), (λ r. (c.api_password, refl, ground arith), tt)),
)

-- A text that is the value of a field is not empty.
filled : {a v : String} → some a ≡ some v → str_eq v "" ≡ false → str_eq a "" ≡ false
filled {a} {v} e h = subst (λ x. str_eq x "" ≡ false) (sym same) h
  where
    same : a ≡ v
    same = cc

accepted : (c : Credentials) → All (Filled c) metadata.credential_fields → required c ≡ ok c
accepted c (merchant, (url, (password, end))) =
    let (v, is_v, v_given) = merchant refl in
    let (u, is_u, u_given) = url refl in
    let (x, is_x, x_given) = password refl in
    rw (filled is_v v_given, filled is_u u_given, filled is_x x_given) refl

only_mpgs :
    (b : Bool) (meta : ConnectorMeta)
    → found (if b then some metadata else none) ≡ ok meta
    → (b ≡ true) × (metadata ≡ meta)
only_mpgs true meta h = (refl, cc)
only_mpgs false meta h = cc

-- The one connector that the program registers is MPGS, and of any credentials, those are accepted
-- that have a value for each field that its description marks as required, and no others.
pub registered-Demands :
    (t : String) (meta : ConnectorMeta) (c : Credentials)
    → get t registered ≡ ok meta
    → (t ≡ connector_type_mpgs) × ((required c ≡ ok c) ↔ All (Filled c) meta.credential_fields)
unfolding get register
registered-Demands t meta c h =
    let (is, same) = only_mpgs (str_eq connector_type_mpgs t) meta h in
    (
      sym (str_eq_sound connector_type_mpgs t is),
      subst (λ m. (required c ≡ ok c) ↔ All (Filled c) m.credential_fields) same
          (given c, accepted c),
    )
