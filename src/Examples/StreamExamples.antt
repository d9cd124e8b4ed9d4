-- ===== src/Examples/StreamExamples.antt =====
-- Tests of crates/zerem-engine/src/stream.rs.
use zerem.Prelude.{
  ℕ, subst, keep, ltb, All, Bool-cases, inl, inr, arith, ◌+◌, ◌<◌, true, Option, some, none, List,
  [], ◌∷◌, ◌==◌, if◌then◌else◌, ◌≡◌, refl,
}
use zerem.Prelude.Text.{Text, codes}
use zerem.Stream.{
  span, utf8, same, target, range_start, differs, sends, not_satisfiable, headers, answer_from,
  serve,
}
use zerem.Prelude.Words.{xor_u8, or_u8}
use zerem.Stream.Guard.{IsScalar, Asks, serve_sends}

abbrev key : Text
key = codes "0a1b"

abbrev request : Text
request = codes "GET /0a1b/t/7/2 HTTP/1.1"

-- One torrent, number 7, whose file 2 has a hundred bytes.
abbrev lookup : ℕ → Option (Unit {0})
lookup id = if id == 7 then some tt else none

abbrev stream : Unit {0} → ℕ → Option ℕ
stream handle file = if file == 2 then some 100 else none

names_a_file : target request key ≡ some (7, 2)
unfolding target same utf8 differs xor_u8 or_u8
names_a_file = refl

no_secret : target (codes "GET /t/7/2 HTTP/1.1") key ≡ none
unfolding target same utf8 differs xor_u8 or_u8
no_secret = refl

resumes : range_start (codes "Range: bytes=40-") ≡ some 40
unfolding range_start
resumes = refl

served :
    serve
      (Unit {0})
      lookup
      stream
      key
      (some request ∷ some (codes "Range: bytes=40-") ∷ some [] ∷ [])
    ≡ sends 7 2 40 60 100 true
unfolding serve target same utf8 differs xor_u8 or_u8 headers range_start answer_from span
served = refl

beyond :
    serve
      (Unit {0})
      lookup
      stream
      key
      (some request ∷ some (codes "Range: bytes=100-") ∷ some [] ∷ [])
    ≡ not_satisfiable
unfolding serve target same utf8 differs xor_u8 or_u8 headers range_start answer_from span
beyond = refl

-- A text is one of scalars where a test says so of each code point.
scalars : (s : Text) → keep (λ c. ltb c 1114112) s ≡ s → All IsScalar s
scalars s e = subst (All IsScalar) e (keep-scalars s)
  where
    keep-scalars : (s : Text) → All IsScalar (keep (λ c. ltb c 1114112) s)
    keep-scalars [] = tt
    keep-scalars (c ∷ s) = elim (Bool-cases (ltb c 1114112)) [
      | inl small ↦ rw small (ground arith, keep-scalars s)
      | inr large ↦ rw large (keep-scalars s)
    ]

serve_sends_example :
    (line : Text) × (later : List (Option Text)) × (handle : Unit {0}) × (some request
        ∷ some (codes "Range: bytes=40-")
        ∷ some []
        ∷ []
      ≡ some line ∷ later)
    × Asks key line 7 2
    × (lookup 7 ≡ some handle)
    × (stream handle 2 ≡ some 100)
    × (40 + 60 ≡ 100)
    × (true ≡ true → 40 < 100)
serve_sends_example =
    serve_sends (Unit {0}) lookup stream key
      (some request ∷ some (codes "Range: bytes=40-") ∷ some [] ∷ []) 7 2 40 60 100 true
      (scalars key refl) (scalars request refl, (scalars (codes "Range: bytes=40-") refl, (tt, tt)))
      served
