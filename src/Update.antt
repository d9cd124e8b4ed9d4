-- ===== src/Update.antt =====
-- src/update.rs and `swap` of crates/zerem-shell/src/update.rs: which release is offered, and how it is
-- installed. The feed arrives as parsed JSON. What the network, the signature check and the disk answer
-- are arguments.
pub mod Installing
use zerem.Prelude.{
  ℕ, Bool, true, false, not, ◌&&◌, ◌||◌, ◌==◌, Option, none, some, List, [], ◌∷◌, ltb,
  if◌then◌else◌, get_or, ◌>>=◌,
}
use zerem.Prelude.Text.{Text, trim, split, parse_uint}
use zerem.Prelude.Words.{u32_max}

abbrev pub strip_v : Text → Text
strip_v [] = []
strip_v (c ∷ tag) = let later = strip_v tag in if c == 118 then later else c ∷ tag

-- The next part as a number, 0 where there is none.
abbrev pub number_of : List Text → ℕ
number_of [] = 0
number_of (part ∷ parts) = get_or (parse_uint u32_max part) 0

abbrev pub later_parts : List Text → List Text
later_parts [] = []
later_parts (part ∷ parts) = parts

unfoldable pub semver : Text → ℕ × ℕ × ℕ
semver tag =
    let parts = split (λ c. c == 46 || c == 45 || c == 43) (strip_v (trim tag)) in
    (number_of parts, number_of (later_parts parts), number_of (later_parts (later_parts parts)))

-- The order of the triples.
unfoldable pub above : ℕ × ℕ × ℕ → ℕ × ℕ × ℕ → Bool
above (a, b, c) (d, e, f) = ltb d a || (a == d && (ltb e b || (b == e && ltb f c)))

unfoldable pub is_newer : Text → Text → Bool
unfolding semver above
is_newer offered running = above (semver offered) (semver running)

-- What the feed says for this platform.
pub record Release : Type 0 where
  pub url : Option Text
  pub signature : Option Text

pub record Feed : Type 0 where
  pub version : Option Text
  pub platform : Option Release

pub record Available : Type 0 where
  pub version : Text
  pub url : Text
  pub signature : Text

pub data Finding : Type 0 where
  unreadable no_version no_build no_download unsigned up_to_date : Finding
  offered : Available → Finding

-- `newest`; a body that is no JSON is `none`.
unfoldable pub newest : Option Feed → Text → Finding
unfolding is_newer
newest none running = unreadable
newest (some feed) running = elim (feed.version) as (λ _. Finding) [
  | none ↦ no_version
  | some version ↦
      if not (is_newer version running)
      then up_to_date
      else elim (feed.platform) as (λ _. Finding) [
        | none ↦ no_build
        | some release ↦ elim (release.url) as (λ _. Finding) [
          | none ↦ no_download
          | some url ↦ elim (release.signature) as (λ _. Finding) [
            | none ↦ unsigned
            | some signature ↦
                offered (record { version = version; url = url; signature = signature })
          ]
        ]
      ]
]

-- The program that runs, and the staged file.
pub record Disk : Type 0 where
  pub program : List ℕ
  pub staged : Option (List ℕ)

-- What the outside answers: the download, the signature check, what a write to the staged file leaves
-- and whether it was whole, and whether the replacing and the removing work.
pub record Outside : Type 0 where
  pub download : Text → Option (List ℕ)
  pub is_signed : List ℕ → Text → Bool
  pub write_ok : Bool
  pub partial : Option (List ℕ)
  pub replace_ok : Bool
  pub remove_ok : Bool

pub data Step : Type 0 where
  not_downloaded not_signed not_saved not_replaced installed : Step

-- `self_replace` puts the staged file in the place of the program, or leaves the program.
unfoldable pub swap : Outside → Disk → Disk × Bool
swap os d = elim (d.staged) as (λ _. Disk × Bool) [
  | none ↦ (d, false)
  | some bytes ↦ if os.replace_ok then (record d { program = bytes }, true) else (d, false)
]

abbrev pub remove_staged : Outside → Disk → Disk
remove_staged os d = if os.remove_ok then record d { staged = none } else d

unfoldable pub fetch_and_apply : Outside → Available → Disk → Disk × Step
unfolding swap
fetch_and_apply os update d = elim (os.download update.url) as (λ _. Disk × Step) [
  | none ↦ (d, not_downloaded)
  | some bytes ↦
      if not (os.is_signed bytes update.signature)
      then (d, not_signed)
      else if not os.write_ok
      then (record d { staged = os.partial }, not_saved)
      else (let (after, swapped) = swap os (record d { staged = some bytes }) in
          (remove_staged os after, if swapped then installed else not_replaced))
]
