-- ===== src/Localisation/Shown.antt =====
-- Which text of khazina/internal/domain/messages.go a request is shown.
use mathlib.Core.Path.{subst}
use saftaja.Prelude.{
  sym, ◌∙◌, All-map, Bool, true, false, ◌≡◌, refl, ap, ◌&&◌, ◌||◌, not, Option, none, some, exists?,
  get_or, String, List, [], ◌∷◌, ◌++◌, All, str_eq, str_eq_sound, if◌then◌else◌, Bool-cases, inl,
  inr, arith,
}
use saftaja.Localisation.Language.{
  Tag, LocalizedString, localized, lang_english, lang_arabic, supported_languages, get,
  cookie_language, accepted_language, detect_language, for_request,
}
use saftaja.Localisation.Messages.{messages}
use saftaja.Localisation.Labels.{labels}
use saftaja.Web.Request.{Request, WebEnv}

-- every text of messages.go
abbrev pub texts : List LocalizedString
texts = messages ++ labels

-- The two texts are there, and neither is empty.
pub record Translated (ls : LocalizedString) : Type 0 where
  pub english : String
  pub arabic : String
  pub both : ls ≡ localized english arabic
  pub english_given : str_eq english "" ≡ false
  pub arabic_given : str_eq arabic "" ≡ false

abbrev is_translated : LocalizedString → Bool
is_translated ((en, e) ∷ (ar, a) ∷ []) =
    str_eq en lang_english && str_eq ar lang_arabic && not (str_eq e "") && not (str_eq a "")
is_translated _ = false

localized_keys :
    (en e ar a : String)
    → str_eq en lang_english ≡ true
    → str_eq ar lang_arabic ≡ true
    → ((en, e) ∷ (ar, a) ∷ []) ≡ localized e a
localized_keys en e ar a h k =
    rw (str_eq_sound en lang_english h, str_eq_sound ar lang_arabic k) refl

is_translated-Translated : (ls : LocalizedString) → is_translated ls ≡ true → Translated ls
is_translated-Translated [] h = cc
is_translated-Translated ((en, e) ∷ []) h = cc
is_translated-Translated ((en, e) ∷ (ar, a) ∷ []) h = record {
  english = e;
  arabic = a;
  both = localized_keys en e ar a (ground arith) (ground arith);
  english_given = ground arith;
  arabic_given = ground arith;
}
is_translated-Translated ((en, e) ∷ (ar, a) ∷ x ∷ xs) h = cc

abbrev all_translated : List LocalizedString → Bool
all_translated [] = true
all_translated (ls ∷ lss) = is_translated ls && all_translated lss

all_translated-All : (lss : List LocalizedString) → all_translated lss ≡ true → All Translated lss
all_translated-All [] h = tt
all_translated-All (ls ∷ lss) h =
    (is_translated-Translated ls (ground arith), all_translated-All lss (ground arith))

texts-Translated : All Translated texts
texts-Translated = all_translated-All texts refl

abbrev choice : String → String → String → String
choice tag english arabic = if str_eq tag lang_arabic then arabic else english

get-localized : (e a tag : String) → get (localized e a) tag ≡ choice tag e a
unfolding get
get-localized e a tag = elim (Bool-cases (str_eq lang_english tag)) [
  | inl y ↦ subst (λ t. get (localized e a) t ≡ choice t e a) (str_eq_sound lang_english tag y) refl
  | inr n ↦ elim (Bool-cases (str_eq lang_arabic tag)) [
    | inl y ↦
        subst (λ t. get (localized e a) t ≡ choice t e a) (str_eq_sound lang_arabic tag y) refl
    | inr m ↦ elim (Bool-cases (str_eq tag lang_arabic)) [
      | inl y ↦
          subst (λ t. get (localized e a) t ≡ choice t e a) (sym (str_eq_sound tag lang_arabic y))
            refl
      | inr k ↦ rw (n, m, k) refl
    ]
  ]
]

-- what the cookie for the language says
abbrev pub parsed_cookie : WebEnv → Option String → Option Tag
parsed_cookie web none = none
parsed_cookie web (some value) = web.parse_tag value

abbrev pub says : Option Tag → Tag → Bool
says none tag = false
says (some t) tag = str_eq t tag

-- A request asks for Arabic by its cookie, or by its Accept-Language header where the cookie asks
-- for neither language.
abbrev pub asks_for_arabic : WebEnv → Request → Bool
asks_for_arabic web r =
    says (parsed_cookie web r.lang_cookie) "ar"
    || (not (says (parsed_cookie web r.lang_cookie) "en")
        && (not (str_eq r.accept_language "") && str_eq (web.match_strings r.accept_language) "ar"))

abbrev supported : Tag → Option Tag
supported tag = if exists? (λ s. str_eq tag s) supported_languages then some tag else none

supported_lem :
    (t rest : Tag)
    → str_eq (get_or (supported t) rest) "ar"
      ≡ (str_eq t "ar" || (not (str_eq t "en") && str_eq rest "ar"))
supported_lem t rest = elim (Bool-cases (str_eq t "en")) [
  | inl y ↦
      subst
        (λ x.
          str_eq (get_or (supported x) rest) "ar"
          ≡ (str_eq x "ar" || (not (str_eq x "en") && str_eq rest "ar")))
        (sym (str_eq_sound t "en" y)) refl
  | inr n ↦ elim (Bool-cases (str_eq t "ar")) [ inl y ↦ rw (n, y) y | inr m ↦ rw (n, m) refl ]
]

accepted_lem :
    (web : WebEnv) (accept : String)
    → str_eq (accepted_language web accept) "ar"
      ≡ (not (str_eq accept "") && str_eq (web.match_strings accept) "ar")
accepted_lem web accept = elim (Bool-cases (str_eq accept "")) [
  | inl y ↦ rw y refl
  | inr n ↦ rw n refl
]

cookie_lem :
    (web : WebEnv) (cookie : Option String) (rest : Tag)
    → str_eq (get_or (cookie_language web cookie) rest) "ar" ≡ (
        says (parsed_cookie web cookie) "ar"
        || (not (says (parsed_cookie web cookie) "en") && str_eq rest "ar"))
cookie_lem web none rest = refl
cookie_lem web (some value) rest = chosen (web.parse_tag value)
  where
    chosen :
        (o : Option Tag)
        → str_eq (get_or (elim o [ none ↦ none | some tag ↦ supported tag ]) rest) "ar"
          ≡ (says o "ar" || (not (says o "en") && str_eq rest "ar"))
    chosen none = refl
    chosen (some t) = supported_lem t rest

detect_language-arabic :
    (web : WebEnv) (r : Request)
    → str_eq (detect_language web r) lang_arabic ≡ asks_for_arabic web r
unfolding detect_language
detect_language-arabic web r =
    cookie_lem web r.lang_cookie (accepted_language web r.accept_language)
    ∙ ap
        (λ b.
          says (parsed_cookie web r.lang_cookie) "ar"
          || (not (says (parsed_cookie web r.lang_cookie) "en") && b))
        (accepted_lem web r.accept_language)

-- The text that a request is shown.
abbrev pub Shows : WebEnv → Request → LocalizedString → Type 0
Shows web r ls =
    (t : Translated ls) × (for_request web ls r
      ≡ (if asks_for_arabic web r then t.arabic else t.english))

shows : (web : WebEnv) (r : Request) (ls : LocalizedString) → Translated ls → Shows web r ls
unfolding for_request
shows web r ls t = (
  t,
  subst (λ x. get x (detect_language web r) ≡ choice (detect_language web r) t.english t.arabic)
        (sym t.both) (get-localized t.english t.arabic (detect_language web r))
      ∙ ap (λ (b : Bool). if b then t.arabic else t.english) (detect_language-arabic web r),
)

-- Every text of messages.go, messages and labels, has an English and an Arabic form, neither of them
-- empty. A request is shown the Arabic one where its cookie for the language parses to the tag ar,
-- or where the cookie is missing or parses to neither ar nor en, the Accept-Language header is not
-- empty and the matcher gives exactly the tag ar for it. Otherwise it is shown the English one, also
-- where the matcher gives a tag that extends ar with a region.
pub for_request-Shows : (web : WebEnv) (r : Request) → All (λ ls. Shows web r ls) texts
for_request-Shows web r =
    All-map (λ ls. Translated ls) (λ ls. Shows web r ls) (shows web r) texts texts-Translated
