-- ===== src/Localisation/Labels.antt =====
-- khazina/internal/domain/messages.go: the texts of the pages, with the letters of Arabic by
-- their code points.
use saftaja.Prelude.{List, [], ◌∷◌}
use saftaja.Localisation.Language.{LocalizedString, localized}

abbrev pub lbl_secure_checkout : LocalizedString
lbl_secure_checkout =
    localized "Secure Checkout"
      "\u{627}\u{644}\u{62f}\u{641}\u{639} \u{627}\u{644}\u{622}\u{645}\u{646}"

abbrev pub lbl_payment_successful : LocalizedString
lbl_payment_successful =
    localized "Payment Successful!"
      "\u{62a}\u{645} \u{627}\u{644}\u{62f}\u{641}\u{639} \u{628}\u{646}\u{62c}\u{627}\u{62d}!"

abbrev pub lbl_invoice : LocalizedString
lbl_invoice = localized "Invoice" "\u{627}\u{644}\u{641}\u{627}\u{62a}\u{648}\u{631}\u{629}"

abbrev pub lbl_customer : LocalizedString
lbl_customer = localized "Customer" "\u{627}\u{644}\u{639}\u{645}\u{64a}\u{644}"

abbrev pub lbl_thank_you : LocalizedString
lbl_thank_you =
    localized "Thank you for your purchase!"
      "\u{634}\u{643}\u{631}\u{627}ً \u{644}\u{643} \u{639}\u{644}\u{649} \u{627}\u{644}\u{634}\u{631}\u{627}\u{621}!"

abbrev pub lbl_powered_by : LocalizedString
lbl_powered_by =
    localized "Powered by Saftaja"
      "\u{645}\u{62f}\u{639}\u{648}\u{645} \u{645}\u{646} \u{633}\u{641}\u{62a}\u{62c}\u{629}"

abbrev pub lbl_amount_due : LocalizedString
lbl_amount_due =
    localized "Amount Due"
      "\u{627}\u{644}\u{645}\u{628}\u{644}\u{63a} \u{627}\u{644}\u{645}\u{633}\u{62a}\u{62d}\u{642}"

abbrev pub lbl_description : LocalizedString
lbl_description = localized "Description" "\u{627}\u{644}\u{648}\u{635}\u{641}"

abbrev pub lbl_item : LocalizedString
lbl_item = localized "item" "\u{639}\u{646}\u{635}\u{631}"

abbrev pub lbl_items : LocalizedString
lbl_items = localized "items" "\u{639}\u{646}\u{627}\u{635}\u{631}"

abbrev pub lbl256_bit_encryption : LocalizedString
lbl256_bit_encryption =
    localized "256-bit encryption" "\u{62a}\u{634}\u{641}\u{64a}\u{631} 256 \u{628}\u{62a}"

abbrev pub lbl_payment_failed : LocalizedString
lbl_payment_failed =
    localized "Payment Failed" "\u{641}\u{634}\u{644} \u{627}\u{644}\u{62f}\u{641}\u{639}"

abbrev pub lbl_please_try_again : LocalizedString
lbl_please_try_again =
    localized "Please try again."
      "\u{64a}\u{631}\u{62c}\u{649} \u{627}\u{644}\u{645}\u{62d}\u{627}\u{648}\u{644}\u{629} \u{645}\u{631}\u{629} \u{623}\u{62e}\u{631}\u{649}."

abbrev pub lbl_payment_method : LocalizedString
lbl_payment_method =
    localized "Payment Method"
      "\u{637}\u{631}\u{64a}\u{642}\u{629} \u{627}\u{644}\u{62f}\u{641}\u{639}"

abbrev pub lbl_no_payment_methods : LocalizedString
lbl_no_payment_methods =
    localized "No payment methods available."
      "\u{644}\u{627} \u{62a}\u{648}\u{62c}\u{62f} \u{637}\u{631}\u{642} \u{62f}\u{641}\u{639} \u{645}\u{62a}\u{627}\u{62d}\u{629}."

abbrev pub lbl_credit_debit_card : LocalizedString
lbl_credit_debit_card =
    localized "Credit / Debit Card"
      "\u{628}\u{637}\u{627}\u{642}\u{629} \u{627}\u{626}\u{62a}\u{645}\u{627}\u{646} / \u{62e}\u{635}\u{645}"

abbrev pub lbl_visa_mastercard_amex : LocalizedString
lbl_visa_mastercard_amex =
    localized "Visa, Mastercard, Amex"
      "\u{641}\u{64a}\u{632}\u{627}، \u{645}\u{627}\u{633}\u{62a}\u{631}\u{643}\u{627}\u{631}\u{62f}، \u{623}\u{645}\u{631}\u{64a}\u{643}\u{627}\u{646} \u{625}\u{643}\u{633}\u{628}\u{631}\u{64a}\u{633}"

abbrev pub lbl_apple_pay : LocalizedString
lbl_apple_pay = localized "Apple Pay" "\u{623}\u{628}\u{644} \u{628}\u{627}\u{64a}"

abbrev pub lbl_quick_and_secure : LocalizedString
lbl_quick_and_secure =
    localized "Quick and secure" "\u{633}\u{631}\u{64a}\u{639} \u{648}\u{622}\u{645}\u{646}"

abbrev pub lbl_back : LocalizedString
lbl_back = localized "Back" "\u{631}\u{62c}\u{648}\u{639}"

abbrev pub lbl_card_details : LocalizedString
lbl_card_details =
    localized "Card Details"
      "\u{62a}\u{641}\u{627}\u{635}\u{64a}\u{644} \u{627}\u{644}\u{628}\u{637}\u{627}\u{642}\u{629}"

abbrev pub lbl_card_number : LocalizedString
lbl_card_number =
    localized "Card Number"
      "\u{631}\u{642}\u{645} \u{627}\u{644}\u{628}\u{637}\u{627}\u{642}\u{629}"

abbrev pub lbl_month : LocalizedString
lbl_month = localized "Month" "\u{627}\u{644}\u{634}\u{647}\u{631}"

abbrev pub lbl_year : LocalizedString
lbl_year = localized "Year" "\u{627}\u{644}\u{633}\u{646}\u{629}"

abbrev pub lbl_cvc : LocalizedString
lbl_cvc = localized "CVC" "\u{631}\u{645}\u{632} \u{627}\u{644}\u{623}\u{645}\u{627}\u{646}"

abbrev pub lbl_cardholder_name : LocalizedString
lbl_cardholder_name =
    localized "Cardholder Name"
      "\u{627}\u{633}\u{645} \u{62d}\u{627}\u{645}\u{644} \u{627}\u{644}\u{628}\u{637}\u{627}\u{642}\u{629}"

abbrev pub lbl_pay : LocalizedString
lbl_pay = localized "Pay" "\u{627}\u{62f}\u{641}\u{639}"

abbrev pub lbl_processing_payment : LocalizedString
lbl_processing_payment =
    localized "Processing Payment"
      "\u{62c}\u{627}\u{631}\u{64a} \u{645}\u{639}\u{627}\u{644}\u{62c}\u{629} \u{627}\u{644}\u{62f}\u{641}\u{639}"

abbrev pub lbl_please_wait : LocalizedString
lbl_please_wait =
    localized "Please wait..."
      "\u{64a}\u{631}\u{62c}\u{649} \u{627}\u{644}\u{627}\u{646}\u{62a}\u{638}\u{627}\u{631}..."

abbrev pub lbl_bank_verification : LocalizedString
lbl_bank_verification =
    localized "Bank Verification"
      "\u{627}\u{644}\u{62a}\u{62d}\u{642}\u{642} \u{627}\u{644}\u{628}\u{646}\u{643}\u{64a}"

abbrev pub lbl_confirm_identity : LocalizedString
lbl_confirm_identity =
    localized "Confirm your identity" "\u{623}\u{643}ّ\u{62f} \u{647}\u{648}\u{64a}\u{62a}\u{643}"

abbrev pub lbl_bank_required : LocalizedString
lbl_bank_required =
    localized "This verification is required by your bank."
      "\u{647}\u{630}\u{627} \u{627}\u{644}\u{62a}\u{62d}\u{642}\u{642} \u{645}\u{637}\u{644}\u{648}\u{628} \u{645}\u{646} \u{627}\u{644}\u{628}\u{646}\u{643} \u{627}\u{644}\u{62e}\u{627}\u{635} \u{628}\u{643}."

abbrev pub lbl_securing_connection : LocalizedString
lbl_securing_connection =
    localized "Securing connection..."
      "\u{62c}\u{627}\u{631}\u{64a} \u{62a}\u{623}\u{645}\u{64a}\u{646} \u{627}\u{644}\u{627}\u{62a}\u{635}\u{627}\u{644}..."

abbrev pub lbl_date : LocalizedString
lbl_date = localized "Date" "\u{627}\u{644}\u{62a}\u{627}\u{631}\u{64a}\u{62e}"

abbrev pub lbl_payment_failed_init : LocalizedString
lbl_payment_failed_init =
    localized "Failed to initialize payment. Please try again."
      "\u{641}\u{634}\u{644} \u{62a}\u{647}\u{64a}\u{626}\u{629} \u{627}\u{644}\u{62f}\u{641}\u{639}. \u{64a}\u{631}\u{62c}\u{649} \u{627}\u{644}\u{645}\u{62d}\u{627}\u{648}\u{644}\u{629} \u{645}\u{631}\u{629} \u{623}\u{62e}\u{631}\u{649}."

abbrev pub lbl_gateway_load_failed : LocalizedString
lbl_gateway_load_failed =
    localized "Payment gateway failed to load. Please refresh."
      "\u{641}\u{634}\u{644} \u{62a}\u{62d}\u{645}\u{64a}\u{644} \u{628}\u{648}\u{627}\u{628}\u{629} \u{627}\u{644}\u{62f}\u{641}\u{639}. \u{64a}\u{631}\u{62c}\u{649} \u{62a}\u{62d}\u{62f}\u{64a}\u{62b} \u{627}\u{644}\u{635}\u{641}\u{62d}\u{629}."

abbrev pub lbl_completing_payment : LocalizedString
lbl_completing_payment =
    localized "Completing Payment"
      "\u{62c}\u{627}\u{631}\u{64a} \u{625}\u{62a}\u{645}\u{627}\u{645} \u{627}\u{644}\u{62f}\u{641}\u{639}"

abbrev pub lbl_close : LocalizedString
lbl_close = localized "Close" "\u{625}\u{63a}\u{644}\u{627}\u{642}"

abbrev pub lbl_try_again : LocalizedString
lbl_try_again =
    localized "Try Again"
      "\u{62d}\u{627}\u{648}\u{644} \u{645}\u{631}\u{629} \u{623}\u{62e}\u{631}\u{649}"

abbrev pub labels : List LocalizedString
labels =
    lbl_secure_checkout ∷ lbl_payment_successful ∷ lbl_invoice ∷ lbl_customer ∷ lbl_thank_you
    ∷ lbl_powered_by ∷ lbl_amount_due ∷ lbl_description ∷ lbl_item ∷ lbl_items
    ∷ lbl256_bit_encryption ∷ lbl_payment_failed ∷ lbl_please_try_again ∷ lbl_payment_method
    ∷ lbl_no_payment_methods ∷ lbl_credit_debit_card ∷ lbl_visa_mastercard_amex ∷ lbl_apple_pay
    ∷ lbl_quick_and_secure ∷ lbl_back ∷ lbl_card_details ∷ lbl_card_number ∷ lbl_month ∷ lbl_year
    ∷ lbl_cvc ∷ lbl_cardholder_name ∷ lbl_pay ∷ lbl_processing_payment ∷ lbl_please_wait
    ∷ lbl_bank_verification ∷ lbl_confirm_identity ∷ lbl_bank_required ∷ lbl_securing_connection
    ∷ lbl_date ∷ lbl_payment_failed_init ∷ lbl_gateway_load_failed ∷ lbl_completing_payment
    ∷ lbl_close ∷ lbl_try_again ∷ []
