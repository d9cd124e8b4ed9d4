-- ===== src/Category.antt =====
-- crates/zerem-core/src/category.rs: the shelves that torrents are put on. `lower` is `to_lowercase`.
pub mod Shelving
use zerem.Prelude.{Bool, false, not, Option, none, some, List, [], ◌∷◌, is_some, if◌then◌else◌}
use zerem.Prelude.Text.{Text, text_eq, text_ltb, is_empty, split_whitespace, join, trim}
use zerem.Prelude.Maps.{lookup, remove}

-- A map by name, in the order of the names.
abbrev pub Shelves : Type 0
Shelves = List (Text × Text)

abbrev pub put_shelf : Text → Text → Shelves → Shelves
put_shelf name folder [] = (name, folder) ∷ []
put_shelf name folder ((n, f) ∷ shelves) =
    let later = put_shelf name folder shelves in
    if text_eq n name
    then (n, folder) ∷ shelves
    else if text_ltb name n
    then (name, folder) ∷ (n, f) ∷ shelves
    else (n, f) ∷ later

module _ (lower : Text → Text) where
  -- A name folded for comparison.
  unfoldable pub key : Text → Text
  key name = lower (join (32 ∷ []) (split_whitespace name))

  unfoldable pub is_named : Text → Bool
  unfolding key
  is_named name = not (is_empty (key name))

  -- The first of the names with that key.
  abbrev pub find_name : Text → Shelves → Option Text
  unfolding key
  find_name wanted [] = none
  find_name wanted ((n, f) ∷ shelves) =
      let later = find_name wanted shelves in if text_eq (key n) wanted then some n else later

  unfoldable pub canonical : Shelves → Text → Option Text
  unfolding find_name
  canonical shelves name = find_name (key name) shelves

  unfoldable pub folder_of : Shelves → Text → Option Text
  unfolding canonical
  folder_of shelves name = elim (canonical shelves name) as (λ _. Option Text) [
    | none ↦ none
    | some stored ↦ lookup stored shelves
  ]

  unfoldable pub remember : Shelves → Text → Text → Shelves
  unfolding canonical is_named
  remember shelves name folder =
      if not (is_named name) then shelves else elim (canonical shelves name) as (λ _. Shelves) [
        | none ↦ put_shelf (trim name) folder shelves
        | some stored ↦ put_shelf stored folder shelves
      ]

  -- The shelves that are left, and whether one was dropped.
  unfoldable pub forget : Shelves → Text → Shelves × Bool
  unfolding canonical
  forget shelves name = elim (canonical shelves name) as (λ _. Shelves × Bool) [
    | none ↦ (shelves, false)
    | some stored ↦ (remove stored shelves, is_some (lookup stored shelves))
  ]
