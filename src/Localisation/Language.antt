-- ===== src/Localisation/Language.antt =====
-- khazina/internal/domain/i18n.go: the language of a request, and the text in it. The package
-- golang.org/x/text/language is a parameter; a tag is known by its BCP 47 text.
use saftaja.Prelude.{
  Option, none, some, String, List, [], ◌∷◌, str_eq, exists?, get_or, if◌then◌else◌,
}
use saftaja.Web.Request.{Request, WebEnv}

abbrev pub Tag : Type 0
Tag = String

abbrev pub lang_english : Tag
lang_english = "en"

abbrev pub lang_arabic : Tag
lang_arabic = "ar"

abbrev pub supported_languages : List Tag
supported_languages = lang_english ∷ lang_arabic ∷ []

-- `map[language.Tag]string`
abbrev pub LocalizedString : Type 0
LocalizedString = List (Tag × String)

-- `LocalizedString{language.English: …, language.Arabic: …}`
abbrev pub localized : String → String → LocalizedString
localized english arabic = (lang_english, english) ∷ (lang_arabic, arabic) ∷ []

abbrev pub entry : Tag → LocalizedString → Option String
entry tag [] = none
entry tag ((key, text) ∷ ls) = if str_eq key tag then some text else entry tag ls

-- A missing key of a map is the empty text.
unfoldable pub get : LocalizedString → Tag → String
get ls tag = get_or (entry tag ls) (get_or (entry lang_english ls) "")

module _ (web : WebEnv) where
  -- the tag of the cookie, if it is one of the supported
  abbrev pub cookie_language : Option String → Option Tag
  cookie_language none = none
  cookie_language (some value) = elim (web.parse_tag value) [
    | none ↦ none
    | some tag ↦ if exists? (λ s. str_eq tag s) supported_languages then some tag else none
  ]

  abbrev pub accepted_language : String → Tag
  accepted_language accept = if str_eq accept "" then lang_english else web.match_strings accept

  unfoldable pub detect_language : Request → Tag
  detect_language r = get_or (cookie_language r.lang_cookie) (accepted_language r.accept_language)

  unfoldable pub for_request : LocalizedString → Request → String
  for_request ls r = get ls (detect_language r)

  -- `MarshalJSON`: the members of the object, in some order.
  unfoldable pub marshal_members : LocalizedString → List (String × String)
  marshal_members [] = []
  marshal_members ((tag, text) ∷ ls) = (tag, text) ∷ marshal_members ls

  -- `UnmarshalJSON`, once the members are read: a key that is no tag is left out.
  unfoldable pub unmarshal_members : List (String × String) → LocalizedString
  unmarshal_members [] = []
  unmarshal_members ((key, text) ∷ members) =
      let rest = unmarshal_members members in
      elim (web.parse_tag key) [ none ↦ rest | some tag ↦ (tag, text) ∷ rest ]
