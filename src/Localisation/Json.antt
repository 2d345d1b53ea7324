-- ===== src/Localisation/Json.antt =====
-- The JSON forms of a localised text (khazina/internal/domain/i18n.go).
use saftaja.Prelude.{◌≡◌, refl, ap, some, [], ◌∷◌, All, String}
use saftaja.Localisation.Language.{Tag, LocalizedString, marshal_members, unmarshal_members}
use saftaja.Web.Request.{WebEnv}

-- Reading back what was written gives the same texts, where the text of every tag parses to it.
pub unmarshal-marshal :
    (web : WebEnv) (ls : LocalizedString)
    → All (λ (e : Tag × String). web.parse_tag e.0 ≡ some e.0) ls
    → unmarshal_members web (marshal_members web ls) ≡ ls
unfolding unmarshal_members marshal_members
unmarshal-marshal web [] h = refl
unmarshal-marshal web ((tag, text) ∷ ls) h =
    rw h.0 (ap (λ xs. (tag, text) ∷ xs) (unmarshal-marshal web ls h.1))
