-- ===== src/Stream/Guard.antt =====
-- Who is answered, and with how much.
use zerem.Prelude.{
  ℕ, ◌++◌, subst, ◌+◌, ◌-◌, ◌<◌, Bool, true, false, Option, none, some, List, [], ◌∷◌, leb, ◌==◌,
  >>=-eq-some, ◌≡◌, refl, ap, ◌∙◌, arith, All, Bool-cases, Option-cases, inl, inr,
}
use zerem.Prelude.Text.{Text, codes, strip_prefix, split_once, split_whitespace}
use zerem.Prelude.Cutting.{
  strip_prefix-All, strip_prefix-append, split_once-All, split_once-append, split_whitespace-All,
}
use zerem.Stream.{
  span, utf8, same, first_of, numbers_of, target, sends, headers, answer_from, serve,
}
use zerem.Stream.Secret.{same_sound}

-- A code point that a text can hold.
abbrev pub IsScalar : ℕ → Type 0
IsScalar c = c < 1114112

-- A request line for a file: the first word behind `GET ` is a path of the secret's bytes and of what
-- names the torrent and the file.
abbrev pub Asks : Text → Text → ℕ → ℕ → Type 0
Asks key line id file =
    (before given rest : Text) × (line ≡ codes "GET " ++ before)
    × (first_of (split_whitespace before) ≡ some (47 ∷ given ++ (47 ∷ rest)))
    × (utf8 given ≡ utf8 key)
    × (numbers_of rest ≡ some (id, file))

first_of-All :
    {A : Type 0} (Q : A → Type 0) (xs : List A) {x : A} → first_of xs ≡ some x → All Q xs → Q x
first_of-All Q [] h all_xs = cc
first_of-All Q (y ∷ xs) h all_xs = subst Q (cc h) all_xs.0

-- A request line is understood only behind the secret.
target-Asks :
    (line key : Text) (id file : ℕ)
    → All IsScalar line
    → All IsScalar key
    → target line key ≡ some (id, file)
    → Asks key line id file
unfolding target
target-Asks line key id file line_scalars key_scalars h =
    let (before, e1, h1) = >>=-eq-some (strip_prefix (codes "GET ") line) _ h in
    let (path, e2, h2) = >>=-eq-some (first_of (split_whitespace before)) _ h1 in
    let (tail, e3, h3) = >>=-eq-some (strip_prefix (codes "/") path) _ h2 in
    let (parts, e4, h4) = >>=-eq-some (split_once 47 tail) _ h3 in
    let given_scalars =
      (split_once-All IsScalar 47 tail e4 (
        strip_prefix-All IsScalar (codes "/") path e3 (
          first_of-All (All IsScalar) (split_whitespace before) e2 (
            split_whitespace-All IsScalar before
              (strip_prefix-All IsScalar (codes "GET ") line e1 line_scalars))))) in
    elim (Bool-cases (same parts.0 key)) [
      | inr other ↦ let stopped = rw other at h4 in cc
      | inl equal ↦
          let cut =
            strip_prefix-append (codes "/") path e3
            ∙ ap (λ t. 47 ∷ t) (split_once-append 47 tail e4) in
          (
            before,
            parts.0,
            parts.1,
            strip_prefix-append (codes "GET ") line e1,
            e2 ∙ ap some cut,
            same_sound parts.0 key given_scalars key_scalars equal,
            rw equal at h4,
          )
    ]

span_sum :
    (from total remaining : ℕ) (partial : Bool)
    → span from total ≡ some (remaining, partial)
    → (from + remaining ≡ total) × (partial ≡ true → from < total)
unfolding span
span_sum from total remaining partial h = elim (Bool-cases (from == 0)) [
  | inl z ↦
      let whole = rw z at h in
      let n : total ≡ remaining = cc in let p : partial ≡ false = cc in (ground arith, λ e. cc)
  | inr nz ↦ elim (Bool-cases (leb total from)) [
    | inl past ↦ let nothing = rw (nz, past) at h in cc
    | inr inside ↦
        let part = rw (nz, inside) at h in
        let n : total - from ≡ remaining = cc in (ground arith, λ e. ground arith)
  ]
]

-- An answer of the line reader that is a text.
abbrev pub IsLine : Option Text → Type 0
IsLine none = Unit
IsLine (some line) = All IsScalar line

module _ (Torrent : Type 0) (lookup : ℕ → Option Torrent) (stream : Torrent → ℕ → Option ℕ) where
  answer_from_sends :
      (id' file' start id file from remaining total : ℕ) (partial : Bool)
      → answer_from Torrent lookup stream id' file' start
        ≡ sends id file from remaining total partial
      → (id' ≡ id)
        × (file' ≡ file)
        × (handle : Torrent) × (lookup id ≡ some handle)
        × (stream handle file ≡ some total)
        × (from + remaining ≡ total)
        × (partial ≡ true → from < total)
  unfolding answer_from
  answer_from_sends id' file' start id file from remaining total partial h =
      elim (Option-cases (lookup id')) [
        | inl gone ↦ let refused = rw (gone, answer_from) at h in cc
        | inr (handle, held) ↦
            let h1 = rw (held, answer_from) at h in
            elim (Option-cases (stream handle file')) [
              | inl gone ↦ let refused = rw gone at h1 in cc
              | inr (size, opened) ↦
                  let h2 = rw opened at h1 in
                  elim (Option-cases (span start size)) [
                    | inl past ↦ let refused = rw past at h2 in cc
                    | inr ((left, part), fits) ↦
                        let h3 = rw fits at h2 in
                        let same_id : id' ≡ id = cc in
                        let same_file : file' ≡ file = cc in
                        let same_total : size ≡ total = cc in
                        let same_span : span from total ≡ some (remaining, partial) = cc in
                        let (sum, inside) = span_sum from total remaining partial same_span in
                        (same_id, same_file, handle, cc, cc, sum, inside)
                  ]
            ]
      ]

  -- Bytes are sent only for a request line whose path starts with the secret, byte for byte, and goes on
  -- to name the torrent and the file that are sent, which are there; what is announced, from where it
  -- starts, ends at the end of the file, and a partial answer starts inside it (so the last byte in its
  -- header is not computed from an empty file). The lines and the secret are texts.
  pub serve_sends :
      (key : Text) (lines : List (Option Text)) (id file from remaining total : ℕ) (partial : Bool)
      → All IsScalar key
      → All IsLine lines
      → serve Torrent lookup stream key lines ≡ sends id file from remaining total partial
      → (line : Text) × (later : List (Option Text)) × (handle : Torrent) × (lines
          ≡ some line ∷ later)
        × Asks key line id file
        × (lookup id ≡ some handle)
        × (stream handle file ≡ some total)
        × (from + remaining ≡ total)
        × (partial ≡ true → from < total)
  unfolding serve answer_from
  serve_sends key [] id file from remaining total partial hk hl h = cc
  serve_sends key (none ∷ lines) id file from remaining total partial hk hl h = cc
  serve_sends key (some line ∷ lines) id file from remaining total partial hk hl h =
      elim (Option-cases (target line key)) [
        | inl bad ↦ let refused = rw bad at h in cc
        | inr ((id', file'), named) ↦
            let h1 = rw named at h in
            elim (Option-cases (headers 64 0 lines)) [
              | inl long ↦ let refused = rw long at h1 in cc
              | inr (start, read) ↦
                  let h2 = rw read at h1 in
                  let (same_id, same_file, handle, held, opened, sum, inside) =
                    answer_from_sends id' file' start id file from remaining total partial h2 in
                  let asked : target line key ≡ some (id, file) =
                    named ∙ ap (λ i. some (i, file')) same_id ∙ ap (λ f. some (id, f)) same_file in
                  (
                    line,
                    lines,
                    handle,
                    refl,
                    target-Asks line key id file hl.0 hk asked,
                    held,
                    opened,
                    sum,
                    inside,
                  )
            ]
      ]
