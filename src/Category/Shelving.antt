-- ===== src/Category/Shelving.antt =====
-- What a shelf's name finds after a shelf was remembered.
use zerem.Prelude.{
  true, false, Option, none, some, [], ◌∷◌, if◌then◌else◌, ◌≡◌, ◌⊎◌, inl, inr, refl, sym, ap, subst,
  ◌∙◌, arith, Bool-cases, Option-cases,
}
use zerem.Prelude.Text.{Text, text_eq, text_ltb, text_eq→eq, text_eq_self, join, trim}
use zerem.Prelude.Maps.{lookup}
use zerem.Category.{Shelves, put_shelf, key, is_named, find_name, canonical, folder_of, remember}
use zerem.Prelude.Trimming.{words-trim}

not_both :
    (n name other : Text)
    → text_eq n name ≡ false
    → text_eq n other ≡ true
    → text_eq name other ≡ false
not_both n name other differ same = elim (Bool-cases (text_eq name other)) [
  | inr h ↦ h
  | inl h ↦
      let one = text_eq→eq n other same in
      let two = text_eq→eq name other h in let self = text_eq_self n in cc
]

lookup-put_shelf :
    (name folder other : Text) (shelves : Shelves)
    → lookup other (put_shelf name folder shelves)
      ≡ (if text_eq name other then some folder else lookup other shelves)
lookup-put_shelf name folder other [] = refl
lookup-put_shelf name folder other ((n, f) ∷ shelves) = elim (Bool-cases (text_eq n name)) [
  | inl e ↦ let same = text_eq→eq n name e in rw (e, put_shelf) (rw same (ground arith))
  | inr e ↦ elim (Bool-cases (text_ltb name n)) [
    | inl l ↦ rw (e, put_shelf) (rw l refl)
    | inr l ↦
        let later = lookup-put_shelf name folder other shelves in
        rw (e, put_shelf)
          (rw l (elim (Bool-cases (text_eq n other)) [
            | inl here ↦ let off = not_both n name other e here in rw here (rw off refl)
            | inr there ↦ rw there later
          ]))
  ]
]

elsewhere : (n name : Text) → text_eq n name ≡ false → (some n ≡ none) ⊎ (some n ≡ some name) → ⊥
elsewhere n name e (inl p) = cc
elsewhere n name e (inr p) = let self = text_eq_self n in cc

module _ (lower : Text → Text) where
  key-trim : (name : Text) → key lower (trim name) ≡ key lower name
  unfolding key
  key-trim name = ap (λ ws. lower (join (32 ∷ []) ws)) (words-trim name)

  -- A shelf whose key is not looked for makes no difference.
  find_name-other :
      (wanted name folder : Text) (shelves : Shelves)
      → text_eq (key lower name) wanted ≡ false
      → find_name lower wanted (put_shelf name folder shelves) ≡ find_name lower wanted shelves
  unfolding find_name
  find_name-other wanted name folder [] h = rw h refl
  find_name-other wanted name folder ((n, f) ∷ shelves) h = elim (Bool-cases (text_eq n name)) [
    | inl e ↦ rw (e, put_shelf) refl
    | inr e ↦ elim (Bool-cases (text_ltb name n)) [
      | inl l ↦ rw (e, put_shelf) (rw l (rw h refl))
      | inr l ↦
          let later = find_name-other wanted name folder shelves h in
          rw (e, put_shelf)
            (rw l (ap (λ t. if text_eq (key lower n) wanted then some n else t) later))
    ]
  ]

  -- A shelf that was found, or that is the first of its key, is the one that is found.
  find_name-same :
      (wanted name folder : Text) (shelves : Shelves)
      → text_eq (key lower name) wanted ≡ true
      → (find_name lower wanted shelves ≡ none) ⊎ (find_name lower wanted shelves ≡ some name)
      → find_name lower wanted (put_shelf name folder shelves) ≡ some name
  unfolding find_name
  find_name-same wanted name folder [] h first = rw h refl
  find_name-same wanted name folder ((n, f) ∷ shelves) h first =
      elim (Bool-cases (text_eq n name)) [
        | inl e ↦ let same = text_eq→eq n name e in rw (e, put_shelf) (rw same (rw h refl))
        | inr e ↦ elim (Bool-cases (text_ltb name n)) [
          | inl l ↦ rw (e, put_shelf) (rw l (rw h refl))
          | inr l ↦
              rw (e, put_shelf)
                (rw l (elim (Bool-cases (text_eq (key lower n) wanted)) [
                  | inl m ↦
                      let here : find_name lower wanted ((n, f) ∷ shelves) ≡ some n = rw m refl in
                      absurd (
                        elsewhere n name e
                          (elim first [ inl p ↦ inl (sym here ∙ p) | inr p ↦ inr (sym here ∙ p) ]))
                  | inr m ↦
                      let gone : find_name lower wanted ((n, f) ∷ shelves)
                          ≡ find_name lower wanted shelves =
                        rw m refl in
                      rw m (
                        find_name-same wanted name folder shelves h
                          (elim first [ inl p ↦ inl (sym gone ∙ p) | inr p ↦ inr (sym gone ∙ p) ]))
                ]))
        ]
      ]

  find_name-key :
      (wanted : Text) (shelves : Shelves) {found : Text}
      → find_name lower wanted shelves ≡ some found
      → text_eq (key lower found) wanted ≡ true
  unfolding find_name
  find_name-key wanted [] h = cc
  find_name-key wanted ((n, f) ∷ shelves) {found} h =
      elim (Bool-cases (text_eq (key lower n) wanted)) [
        | inl m ↦
            let same : n ≡ found = cc (rw m at h) in
            subst (λ t. text_eq (key lower t) wanted ≡ true) same m
        | inr m ↦ find_name-key wanted shelves (rw m at h)
      ]

  other_name :
      (name stored wanted : Text)
      → text_eq (key lower name) wanted ≡ false
      → text_eq (key lower stored) wanted ≡ true
      → text_eq name stored ≡ false
  other_name name stored wanted off on = elim (Bool-cases (text_eq name stored)) [
    | inr h ↦ h
    | inl h ↦ let same = ap (key lower) (text_eq→eq name stored h) in cc
  ]

  -- One shelf put in: what its key finds, and what the other keys find.
  put_shelf-folder_of :
      (shelves : Shelves) (name folder other : Text)
      → (find_name lower (key lower name) shelves ≡ none)
        ⊎ (find_name lower (key lower name) shelves ≡ some name)
      → folder_of lower (put_shelf name folder shelves) other ≡ (
          if text_eq (key lower name) (key lower other)
          then some folder
          else folder_of lower shelves other)
  unfolding folder_of canonical
  put_shelf-folder_of shelves name folder other first =
      let shelves' = put_shelf name folder shelves in
      let finds = λ (o : Option Text). elim o as (λ _. Option Text) [
        | none ↦ none
        | some stored ↦ lookup stored shelves'
      ] in
      let found_before = λ (o : Option Text). elim o as (λ _. Option Text) [
        | none ↦ none
        | some stored ↦ lookup stored shelves
      ] in
      elim (Bool-cases (text_eq (key lower name) (key lower other))) [
        | inl e ↦
            let same = text_eq→eq (key lower name) (key lower other) e in
            let there : find_name lower (key lower other) shelves' ≡ some name =
              find_name-same (key lower other) name folder shelves e (
                subst
                  (λ k.
                    (find_name lower k shelves ≡ none) ⊎ (find_name lower k shelves ≡ some name))
                  same first) in
            rw e (
              ap finds there
              ∙ lookup-put_shelf name folder name shelves
              ∙ rw (text_eq_self name) refl)
        | inr e ↦
            let kept = find_name-other (key lower other) name folder shelves e in
            rw e (
              ap finds kept ∙ elim (Option-cases (find_name lower (key lower other) shelves)) [
                | inl absent ↦ ap finds absent ∙ sym (ap found_before absent)
                | inr (stored, there) ↦
                    let keyed = find_name-key (key lower other) shelves there in
                    let differ = other_name name stored (key lower other) e keyed in
                    ap finds there
                    ∙ lookup-put_shelf name folder stored shelves
                    ∙ rw differ refl
                    ∙ sym (ap found_before there)
              ])
      ]

  -- Remembering a shelf moves it, and nothing else: a name with the same key, however it is typed, then
  -- finds the new folder, and any other name finds what it found before.
  pub remember-folder_of :
      (shelves : Shelves) (name folder other : Text)
      → is_named lower name ≡ true
      → folder_of lower (remember lower shelves name folder) other ≡ (
          if text_eq (key lower name) (key lower other)
          then some folder
          else folder_of lower shelves other)
  unfolding remember canonical
  remember-folder_of shelves name folder other named =
      elim (Option-cases (find_name lower (key lower name) shelves)) [
        | inl absent ↦
            rw (named, remember)
              (rw (absent, canonical)
                (put_shelf-folder_of shelves (trim name) folder other
                    (inl (ap (λ k. find_name lower k shelves) (key-trim name) ∙ absent))
                  ∙ ap
                      (λ k.
                        if text_eq k (key lower other)
                        then some folder
                        else folder_of lower shelves other)
                      (key-trim name)))
        | inr (stored, there) ↦
            let same =
              text_eq→eq (key lower stored) (key lower name)
                (find_name-key (key lower name) shelves there) in
            rw (named, remember)
              (rw (there, canonical)
                (put_shelf-folder_of shelves stored folder other
                    (inr (ap (λ k. find_name lower k shelves) same ∙ there))
                  ∙ ap
                      (λ k.
                        if text_eq k (key lower other)
                        then some folder
                        else folder_of lower shelves other)
                      same))
      ]
