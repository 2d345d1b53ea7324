-- ===== src/Connectors/Metadata.antt =====
-- khazina/internal/connectors/mpgs/metadata.go: what the MPGS connector asks of an account, with the
-- letters of Arabic by their code points.
use saftaja.Prelude.{true, [], ◌∷◌}
use saftaja.Domain.{connector_type_mpgs, payment_method_card, payment_method_apple_pay}
use saftaja.Localisation.Language.{localized}
use saftaja.Connectors.Registry.{
  FieldType, Field, PaymentMethodMeta, ConnectorMeta, Registry, register,
}

abbrev pub merchant_id_field : Field
merchant_id_field = record {
  key = "merchant_id";
  label =
      localized "Merchant ID"
        "\u{645}\u{639}\u{631}\u{641} \u{627}\u{644}\u{62a}\u{627}\u{62c}\u{631}";
  placeholder = [];
  type = FieldType.text;
  required = true;
}

abbrev pub base_url_field : Field
base_url_field = record {
  key = "base_url";
  label =
      localized "API Base URL"
        "\u{631}\u{627}\u{628}\u{637} API \u{627}\u{644}\u{623}\u{633}\u{627}\u{633}\u{64a}";
  placeholder = [];
  type = FieldType.url;
  required = true;
}

abbrev pub api_password_field : Field
api_password_field = record {
  key = "api_password";
  label = localized "API Password" "\u{643}\u{644}\u{645}\u{629} \u{645}\u{631}\u{648}\u{631} API";
  placeholder = [];
  type = FieldType.password;
  required = true;
}

abbrev pub card_method : PaymentMethodMeta
card_method = record {
  method = payment_method_card;
  label =
      localized "Credit/Debit Card"
        "\u{628}\u{637}\u{627}\u{642}\u{629} \u{627}\u{626}\u{62a}\u{645}\u{627}\u{646}/\u{62e}\u{635}\u{645}";
  icon = "credit-card";
}

abbrev pub apple_pay_method : PaymentMethodMeta
apple_pay_method = record {
  method = payment_method_apple_pay;
  label = localized "Apple Pay" "\u{623}\u{628}\u{644} \u{628}\u{627}\u{64a}";
  icon = "apple";
}

abbrev pub metadata : ConnectorMeta
metadata = record {
  type = connector_type_mpgs;
  name =
      localized "Mastercard Payment Gateway"
        "\u{628}\u{648}\u{627}\u{628}\u{629} \u{645}\u{627}\u{633}\u{62a}\u{631}\u{643}\u{627}\u{631}\u{62f} \u{644}\u{644}\u{62f}\u{641}\u{639}";
  description =
      localized "Accept card payments via MPGS"
        "\u{642}\u{628}\u{648}\u{644} \u{627}\u{644}\u{645}\u{62f}\u{641}\u{648}\u{639}\u{627}\u{62a} \u{628}\u{627}\u{644}\u{628}\u{637}\u{627}\u{642}\u{629} \u{639}\u{628}\u{631} MPGS";
  credential_fields = merchant_id_field ∷ base_url_field ∷ api_password_field ∷ [];
  settings_fields = [];
  payment_methods = card_method ∷ apple_pay_method ∷ [];
}

-- the registry after `init`
abbrev pub registered : Registry
registered = register metadata []
