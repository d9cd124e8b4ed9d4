-- ===== src/Language.antt =====
-- crates/zerem-core/src/language.rs: the languages that are shipped, and which one a tag asks for.
use zerem.Prelude.{
  ℕ, Bool, ◌||◌, ◌==◌, none, some, List, [], ◌∷◌, find, position_from, get_elem?, get_or,
  if◌then◌else◌,
}
use zerem.Prelude.Text.{Text, codes, text_eq, eq_ignore_ascii_case, is_empty, trim, split}

abbrev pub shipped : List (Text × Text)
shipped =
    (codes "en", codes "English")
    ∷ (codes "ar", 0x627 ∷ 0x644 ∷ 0x639 ∷ 0x631 ∷ 0x628 ∷ 0x64A ∷ 0x629 ∷ [])
    ∷ (codes "de", codes "Deutsch")
    ∷ (codes "es", codes "Español")
    ∷ (codes "fr", codes "Français")
    ∷ (codes "hi", codes "हिन्दी")
    ∷ (codes "id", codes "Bahasa Indonesia")
    ∷ (codes "pt-BR", codes "Português (Brasil)")
    ∷ (codes "ru", codes "Русский")
    ∷ (codes "tr", codes "Türkçe")
    ∷ (codes "vi", codes "Tiếng Việt")
    ∷ []

abbrev pub system : Text
system = []

-- `split(…).next().unwrap_or_default()`.
abbrev pub first_part : (ℕ → Bool) → Text → Text
first_part sep tag = elim (split sep tag) as (λ _. Text) [ [] ↦ [] | (part ∷ parts) ↦ part ]

unfoldable pub resolve : Text → Text
resolve spaced =
    let tag = trim spaced in
    let primary = first_part (λ c. c == 45 || c == 95) tag in
    elim (find (λ l. eq_ignore_ascii_case l.0 tag) shipped) as (λ _. Text) [
      | some exact ↦ exact.0
      | none ↦
          if is_empty primary
          then codes "en"
          else elim (find (λ l. eq_ignore_ascii_case (first_part (λ c. c == 45) l.0) primary)
                shipped)
              as (λ _. Text) [ some near ↦ near.0 | none ↦ codes "en" ]
    ]

abbrev pub choices : List (Text × Text)
choices = (system, codes "System") ∷ shipped

unfoldable pub index_of : Text → ℕ
index_of stored = get_or (position_from 0 (λ l. text_eq l.0 stored) choices) 0

unfoldable pub language_at : ℕ → Text
language_at index = elim (get_elem? choices index) as (λ _. Text) [ none ↦ system | some l ↦ l.0 ]
