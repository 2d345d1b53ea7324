-- ===== src/Localisation.antt =====
-- khazina/internal/domain/i18n.go and messages.go: the texts in English and Arabic.
pub mod Language
pub mod Messages
pub mod Labels
pub mod Shown
pub mod Json
