-- ===== src/Mime/Routing.antt =====
-- The address that a player is given leads to the file that it was made for.
use zerem.Prelude.{ℕ, ◌≤◌, false, some, [], ◌∷◌, ◌++◌, All, All-append, ◌==◌, ◌≡◌, refl, arith}
use zerem.Prelude.Text.{Text, codes, decimal, split_once}
use zerem.Prelude.Printing.{
  IsInk, IsWord, split_whitespace-spaced, parse_uint-decimal, decimal-All, decimal-IsWord,
}
use zerem.Prelude.Words.{u32_max, u64_max}
use zerem.Snapshot.{StreamAt}
use zerem.Stream.{numbers_of, target}
use zerem.Stream.Secret.{same_complete}
use zerem.Mime.{path_of, url}

-- A text without blanks and slashes.
abbrev pub IsPlain : Text → Type 0
IsPlain key = All (λ c. IsInk c × ((c == 47) ≡ false)) key

split_once-plain :
    (s rest : Text)
    → All (λ c. (c == 47) ≡ false) s
    → split_once 47 (s ++ (47 ∷ rest)) ≡ some (s, rest)
split_once-plain [] rest h = refl
split_once-plain (c ∷ s) rest h = rw (h.0, split_once) (rw (split_once-plain s rest h.1) refl)

numbers_of-decimal :
    (id file : ℕ)
    → id ≤ u32_max
    → file ≤ u64_max
    → numbers_of (codes "t/" ++ (decimal id ++ (codes "/" ++ decimal file))) ≡ some (id, file)
numbers_of-decimal id file small_id small_file =
    let apart =
      split_once-plain (decimal id) (decimal file)
        (decimal-All (λ c. (c == 47) ≡ false) (λ d h. ground arith) id) in
    rw (apart, numbers_of)
      (rw (parse_uint-decimal u32_max id small_id)
        (rw (parse_uint-decimal u64_max file small_file) refl))

key_inks : (key : Text) → IsPlain key → All IsInk key
key_inks [] h = tt
key_inks (c ∷ key) h = (h.0.0, key_inks key h.1)

key_slashes : (key : Text) → IsPlain key → All (λ c. (c == 47) ≡ false) key
key_slashes [] h = tt
key_slashes (c ∷ key) h = (h.0.1, key_slashes key h.1)

path-IsWord : (key : Text) (id file : ℕ) → IsPlain key → IsWord (path_of key id file)
path-IsWord key id file plain = (
  refl,
  (
    refl,
    All-append IsInk key _ (key_inks key plain) (
      refl,
      (
        refl,
        (
          refl,
          All-append IsInk (decimal id) _ (decimal-IsWord id).1 (refl, (decimal-IsWord file).1),
        ),
      ),
    ),
  ),
)

-- The address is the loopback's, its port, and a path; a request for that path carries the key and is
-- understood as that torrent and that file. The key is asked to have no blanks and no slashes, and the
-- numbers to fit their machine words.
pub target-url :
    (at : StreamAt) (id file : ℕ)
    → IsPlain at.key
    → id ≤ u32_max
    → file ≤ u64_max
    → (url at id file ≡ codes "http://127.0.0.1:" ++ (decimal at.port ++ path_of at.key id file))
      × (target (codes "GET " ++ (path_of at.key id file ++ codes " HTTP/1.1")) at.key
          ≡ some (id, file))
unfolding url target
target-url at id file plain small_id small_file =
    let path = path_of at.key id file in
    let version : IsWord (codes "HTTP/1.1") =
      (refl, (refl, (refl, (refl, (refl, (refl, (refl, (refl, (refl, tt))))))))) in
    let line =
      split_whitespace-spaced path (codes "HTTP/1.1" ∷ [])
        (path-IsWord at.key id file plain, (version, tt)) in
    let parts =
      split_once-plain at.key (codes "t/" ++ (decimal id ++ (codes "/" ++ decimal file)))
        (key_slashes at.key plain) in
    (
      refl,
      rw (line, target)
          (rw parts (
            rw (same_complete at.key at.key refl)
              (numbers_of-decimal id file small_id small_file))),
    )
