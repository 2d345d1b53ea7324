-- ===== src/Localisation/Messages.antt =====
-- khazina/internal/domain/messages.go: the texts of replies, with the letters of Arabic by their
-- code points.
use saftaja.Prelude.{List, [], ◌∷◌}
use saftaja.Localisation.Language.{LocalizedString, localized}

abbrev pub msg_invalid_request : LocalizedString
msg_invalid_request =
    localized "Invalid request"
      "\u{637}\u{644}\u{628} \u{63a}\u{64a}\u{631} \u{635}\u{627}\u{644}\u{62d}"

abbrev pub msg_invalid_invoice_id : LocalizedString
msg_invalid_invoice_id =
    localized "Invalid invoice ID"
      "\u{645}\u{639}\u{631}\u{641} \u{627}\u{644}\u{641}\u{627}\u{62a}\u{648}\u{631}\u{629} \u{63a}\u{64a}\u{631} \u{635}\u{627}\u{644}\u{62d}"

abbrev pub msg_invoice_not_found : LocalizedString
msg_invoice_not_found =
    localized "Invoice not found"
      "\u{627}\u{644}\u{641}\u{627}\u{62a}\u{648}\u{631}\u{629} \u{63a}\u{64a}\u{631} \u{645}\u{648}\u{62c}\u{648}\u{62f}\u{629}"

abbrev pub msg_session_expired : LocalizedString
msg_session_expired =
    localized "Payment session expired"
      "\u{627}\u{646}\u{62a}\u{647}\u{62a} \u{635}\u{644}\u{627}\u{62d}\u{64a}\u{629} \u{62c}\u{644}\u{633}\u{629} \u{627}\u{644}\u{62f}\u{641}\u{639}"

abbrev pub msg_session_not_found : LocalizedString
msg_session_not_found =
    localized "Payment session not found"
      "\u{62c}\u{644}\u{633}\u{629} \u{627}\u{644}\u{62f}\u{641}\u{639} \u{63a}\u{64a}\u{631} \u{645}\u{648}\u{62c}\u{648}\u{62f}\u{629}"

abbrev pub msg_invalid_state : LocalizedString
msg_invalid_state =
    localized "Invalid payment state"
      "\u{62d}\u{627}\u{644}\u{629} \u{627}\u{644}\u{62f}\u{641}\u{639} \u{63a}\u{64a}\u{631} \u{635}\u{627}\u{644}\u{62d}\u{629}"

abbrev pub msg_already_paid : LocalizedString
msg_already_paid =
    localized "Invoice already paid"
      "\u{627}\u{644}\u{641}\u{627}\u{62a}\u{648}\u{631}\u{629} \u{645}\u{62f}\u{641}\u{648}\u{639}\u{629} \u{628}\u{627}\u{644}\u{641}\u{639}\u{644}"

abbrev pub msg_internal_error : LocalizedString
msg_internal_error =
    localized "Internal error" "\u{62e}\u{637}\u{623} \u{62f}\u{627}\u{62e}\u{644}\u{64a}"

abbrev pub msg_gateway_error : LocalizedString
msg_gateway_error =
    localized "Payment gateway error"
      "\u{62e}\u{637}\u{623} \u{641}\u{64a} \u{628}\u{648}\u{627}\u{628}\u{629} \u{627}\u{644}\u{62f}\u{641}\u{639}"

abbrev pub msg_payment_successful : LocalizedString
msg_payment_successful =
    localized "Payment successful"
      "\u{62a}\u{645} \u{627}\u{644}\u{62f}\u{641}\u{639} \u{628}\u{646}\u{62c}\u{627}\u{62d}"

abbrev pub msg_payment_declined : LocalizedString
msg_payment_declined =
    localized "Your bank declined this transaction"
      "\u{631}\u{641}\u{636} \u{627}\u{644}\u{628}\u{646}\u{643} \u{647}\u{630}\u{647} \u{627}\u{644}\u{645}\u{639}\u{627}\u{645}\u{644}\u{629}"

abbrev pub msg_authentication_failed : LocalizedString
msg_authentication_failed =
    localized "Card authentication failed"
      "\u{641}\u{634}\u{644} \u{627}\u{644}\u{62a}\u{62d}\u{642}\u{642} \u{645}\u{646} \u{627}\u{644}\u{628}\u{637}\u{627}\u{642}\u{629}"

abbrev pub messages : List LocalizedString
messages =
    msg_invalid_request ∷ msg_invalid_invoice_id ∷ msg_invoice_not_found ∷ msg_session_expired
    ∷ msg_session_not_found ∷ msg_invalid_state ∷ msg_already_paid ∷ msg_internal_error
    ∷ msg_gateway_error ∷ msg_payment_successful ∷ msg_payment_declined ∷ msg_authentication_failed
    ∷ []
