-- ===== src/Fault.antt =====
-- crates/zerem-core/src/fault.rs: engine failures, said in words.
use zerem.Prelude.{
  ℕ, Bool, true, false, ◌||◌, Option, none, some, [], ◌∷◌, ◌==◌, if◌then◌else◌, ◌>>=◌,
}
use zerem.Prelude.Text.{Text, codes, strip_prefix, is_digit, parse_uint}
use zerem.Prelude.Words.{u32_max}

-- What stands behind the last occurrence of a pattern: the second half of `rsplit_once`.
abbrev pub behind_last : Text → Text → Option Text
behind_last pattern [] = strip_prefix pattern []
behind_last pattern (c ∷ text) =
    let here = strip_prefix pattern (c ∷ text) in
    elim (behind_last pattern text) as (λ _. Option Text) [ none ↦ here | some tail ↦ some tail ]

abbrev pub leading_digits : Text → Text
leading_digits [] = []
leading_digits (c ∷ text) = let rest = leading_digits text in if is_digit c then c ∷ rest else []

unfoldable pub os_code : Text → Option ℕ
os_code raw = do
  tail ← behind_last (codes "os error ") raw
  parse_uint u32_max (leading_digits tail)

-- The sentence for a code, on Windows and elsewhere.
unfoldable pub reason : Bool → ℕ → Option Text
reason true code =
    if code == 112 || code == 39
    then some (codes "Not enough space on the disk")
    else if code == 5
    then some (codes "No permission to write in the download folder")
    else if code == 2 || code == 3
    then some (codes "The download folder is not there any more")
    else if code == 32
    then some (codes "Another program has one of the files open")
    else if code == 19
    then some (codes "The download folder is read-only")
    else if code == 21
    then some (codes "That drive is not available")
    else none
reason false code =
    if code == 28 || code == 122
    then some (codes "Not enough space on the disk")
    else if code == 13 || code == 1
    then some (codes "No permission to write in the download folder")
    else if code == 2
    then some (codes "The download folder is not there any more")
    else if code == 30
    then some (codes "The download folder is read-only")
    else none

-- `tr` translates into the current language.
unfoldable pub explain : (Text → Text) → Bool → Text → Option Text
unfolding os_code reason
explain tr windows raw = do code ← os_code raw; said ← reason windows code; some (tr said)
