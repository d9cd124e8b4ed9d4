-- ===== src/Session/Entries.antt =====
-- The map of the entries by their id: lookups, writes and removals.
use zerem.Prelude.{
  ℕ, not, Option, none, some, List, [], ◌∷◌, ◌==◌, if◌then◌else◌, keep, ◌≡◌, refl, arith,
  Bool-cases, inl, inr,
}
use zerem.Session.{Entry, change}

-- `entries.get(&id)`.
unfoldable pub get_entry : ℕ → List Entry → Option Entry
get_entry id [] = none
get_entry id (e ∷ entries) = if e.id == id then some e else get_entry id entries

-- `entries.insert(id, entry)`.
unfoldable pub put_entry : Entry → List Entry → List Entry
put_entry e [] = e ∷ []
put_entry e (f ∷ entries) = if f.id == e.id then e ∷ entries else f ∷ put_entry e entries

-- `entries.remove(&id)`.
unfoldable pub drop_entry : ℕ → List Entry → List Entry
drop_entry id entries = keep (λ e. not (e.id == id)) entries

pub get-put :
    (id : ℕ) (e : Entry) (entries : List Entry)
    → get_entry id (put_entry e entries) ≡ (if e.id == id then some e else get_entry id entries)
unfolding get_entry put_entry
get-put id e [] = refl
get-put id e (f ∷ entries) = ground (arith, get-put id e entries)

pub get-drop :
    (id gone : ℕ) (entries : List Entry)
    → get_entry id (drop_entry gone entries) ≡ (if gone == id then none else get_entry id entries)
unfolding get_entry drop_entry
get-drop id gone [] = ground arith
get-drop id gone (f ∷ entries) = ground (arith, get-drop id gone entries)

-- A write through the map touches one entry.
pub get-change :
    (f : Entry → Entry) (id : ℕ) (entries : List Entry)
    → ((e : Entry) → (f e).id ≡ e.id)
    → get_entry id (change f id entries)
      ≡ elim (get_entry id entries) as (λ _. Option Entry) [ none ↦ none | some e ↦ some (f e) ]
unfolding get_entry change
get-change f id [] keeps = refl
get-change f id (e ∷ entries) keeps = elim (Bool-cases (e.id == id)) [
  | inl mine ↦ rw mine (rw (keeps e) (rw mine refl))
  | inr other ↦ rw other (rw other (get-change f id entries keeps))
]
