-- ===== src/Session/Publishing/Announcing.antt =====
-- What a run of ticks says: which torrents are announced as finished, in which order the rows come, and
-- how long a notice stays.
use zerem.Prelude.{
  ℕ, zero, suc, ◌+◌, ◌-◌, ◌≤◌, Bool, true, false, not, ◌&&◌, Option, none, some, List, [], ◌∷◌, map,
  ltb, leb, if◌then◌else◌, ◌≡◌, refl, ap, subst, ◌∙◌, inl, inr, arith, Bool-cases, Option-cases,
  leb→le,
}
use zerem.Prelude.Text.{Text}
use zerem.Prelude.Sorting.{sort, IsSorted, sort-IsSorted, sort-perm}
use mathlib.Core.List.{Perm}
use zerem.Torrent.{TorrentRow, is_complete, shared}
use zerem.Mapping.{TorrentStats, to_row}
use zerem.Content.{Content}
use zerem.Snapshot.{StreamAt, new_snapshot}
use zerem.Session.{Entry, Session, Notice}
use zerem.Session.Adding.{notify}
use zerem.Session.Publishing.{
  Reports, resolve_name, resolve_content, dressed, row_complete, crossed, publish_entry,
  publish_all, age, by_id, publish,
}

-- The library reports every byte of a torrent that has some.
abbrev pub is_whole : Reports → ℕ → Bool
is_whole r id =
    ltb 0 (r.stats id).total_bytes && leb (r.stats id).total_bytes (r.stats id).progress_bytes

to_row-sizes :
    (tr : Text → Text) (windows : Bool) (id : ℕ) (name key : Text) (stats : TorrentStats)
    (down up still : ℕ)
    → ((to_row tr windows id name key stats down up still).0.size ≡ stats.total_bytes)
      × ((to_row tr windows id name key stats down up still).0.done ≡ stats.progress_bytes)
unfolding to_row shared
to_row-sizes tr windows id name key stats down up still = elim (Option-cases (stats.live)) [
  | inl absent ↦ rw absent (refl, refl)
  | inr (peers, there) ↦ rw there (refl, refl)
]

dressed-sizes :
    (r : Reports) (queue : List Text) (e : Entry) (content : Content) (row : TorrentRow)
    → ((dressed r queue e content row).size ≡ row.size)
      × ((dressed r queue e content row).done ≡ row.done)
dressed-sizes r queue e content row = ground arith

resolve-keeps :
    (r : Reports) (e : Entry)
    → let judged = (resolve_content (resolve_name r.to_lowercase e).0).0 in
      (judged.id ≡ e.id) × (judged.was_complete ≡ e.was_complete)
unfolding resolve_content resolve_name
resolve-keeps r e = ground arith

published-whole :
    (r : Reports) (queue : List Text) (e : Entry)
    → row_complete (publish_entry r queue e).1 ≡ is_whole r e.id
unfolding publish_entry is_complete
published-whole r queue e =
    let named = resolve_name r.to_lowercase e in
    let content = resolve_content named.0 in
    let raw =
      to_row r.tr r.windows e.id named.1 named.2 (r.stats e.id) (r.down e.id) (r.up e.id) e.still in
    let sizes = dressed-sizes r queue e content.1 raw.0 in
    let own =
      to_row-sizes r.tr r.windows e.id named.1 named.2 (r.stats e.id) (r.down e.id) (r.up e.id)
        e.still in
    cc

published-id : (r : Reports) (queue : List Text) (e : Entry) → (publish_entry r queue e).0.id ≡ e.id
unfolding publish_entry
published-id r queue e = (resolve-keeps r e).0

published-seen :
    (r : Reports) (queue : List Text) (e : Entry)
    → (publish_entry r queue e).0.was_complete ≡ some (is_whole r e.id)
unfolding publish_entry
published-seen r queue e = ap some (published-whole r queue e)

published-crossed :
    (r : Reports) (queue : List Text) (e : Entry)
    → (publish_entry r queue e).2 ≡ crossed e.was_complete (is_whole r e.id)
unfolding publish_entry
published-crossed r queue e = ap (crossed e.was_complete) (published-whole r queue e)

-- A torrent that was published is not announced by the same reports again.
pub published_again :
    (r : Reports) (queue : List Text) (e : Entry)
    → (publish_entry r queue (publish_entry r queue e).0).2 ≡ false
unfolding crossed
published_again r queue e =
    let e' = (publish_entry r queue e).0 in
    published-crossed r queue e'
    ∙ ap (λ id. crossed e'.was_complete (is_whole r id)) (published-id r queue e)
    ∙ ap (λ was. crossed was (is_whole r e.id)) (published-seen r queue e)
    ∙ not_risen (is_whole r e.id)
  where
    not_risen : (now : Bool) → crossed (some now) now ≡ false
    not_risen true = refl
    not_risen false = refl

-- The announcements of one torrent over a run of ticks.
pub announcements : List (Reports × List Text) → Entry → List Bool
announcements [] e = []
announcements ((r, queue) ∷ ticks) e =
    (publish_entry r queue e).2 ∷ announcements ticks (publish_entry r queue e).0

-- The ticks at which a reading is true and the one before it was not.
abbrev pub rises : Bool → List Bool → List Bool
rises before [] = []
rises before (now ∷ later) = (not before && now) ∷ rises now later

abbrev pub wholes : ℕ → List (Reports × List Text) → List Bool
wholes id ticks = map (λ t. is_whole t.0 id) ticks

crossed-rise : (before now : Bool) → crossed (some before) now ≡ (not before && now)
unfolding crossed
crossed-rise true now = refl
crossed-rise false now = refl

announcements-seen :
    (ticks : List (Reports × List Text)) (e : Entry) (before : Bool)
    → e.was_complete ≡ some before
    → announcements ticks e ≡ rises before (wholes e.id ticks)
unfolding announcements
announcements-seen [] e before seen = refl
announcements-seen ((r, queue) ∷ ticks) e before seen =
    let e' = (publish_entry r queue e).0 in
    let head : (publish_entry r queue e).2 ≡ (not before && is_whole r e.id) =
      published-crossed r queue e
      ∙ ap (λ w. crossed w (is_whole r e.id)) seen
      ∙ crossed-rise before (is_whole r e.id) in
    let tail : announcements ticks e' ≡ rises (is_whole r e.id) (wholes e.id ticks) =
      announcements-seen ticks e' (is_whole r e.id) (published-seen r queue e)
      ∙ ap (λ id. rises (is_whole r e.id) (wholes id ticks)) (published-id r queue e) in
    cc

-- Over a run of ticks a torrent is announced as finished exactly at those at which it is whole and was
-- not at the tick before. The first tick that sees it announces nothing: a list of finished torrents is
-- silent when the program starts.
pub announcements-rises :
    (first : Reports × List Text) (ticks : List (Reports × List Text)) (e : Entry)
    → e.was_complete ≡ none
    → announcements (first ∷ ticks) e ≡ false ∷ rises (is_whole first.0 e.id) (wholes e.id ticks)
unfolding announcements
announcements-rises (r, queue) ticks e unseen =
    let e' = (publish_entry r queue e).0 in
    let head : (publish_entry r queue e).2 ≡ false =
      published-crossed r queue e ∙ (unfold crossed in rw unseen refl) in
    let tail : announcements ticks e' ≡ rises (is_whole r e.id) (wholes e.id ticks) =
      announcements-seen ticks e' (is_whole r e.id) (published-seen r queue e)
      ∙ ap (λ id. rises (is_whole r e.id) (wholes id ticks)) (published-id r queue e) in
    cc

-- What stands in the status bar at each of so many publishes.
pub notices : ℕ → Option Notice → List (Option Text)
notices zero n = []
notices (suc ticks) n = (age n).0 ∷ notices ticks (age n).1

-- A notice is on screen for `k` publishes less one, if it was given `k` ticks.
pub shown_for : ℕ → ℕ → Text → List (Option Text)
shown_for k zero text = []
shown_for k (suc ticks) text = (if ltb 1 k then some text else none) ∷ shown_for (k - 1) ticks text

notices-none : (ticks k : ℕ) (text : Text) → k ≤ 1 → notices ticks none ≡ shown_for k ticks text
unfolding notices shown_for age
notices-none zero k text h = refl
notices-none (suc ticks) k text h =
    let none_left : ltb 1 k ≡ false = ground arith in
    rw none_left (ap (λ t. none ∷ t) (notices-none ticks (k - 1) text (omega arith)))

notices-shown :
    (ticks k : ℕ) (text : Text)
    → notices ticks (some (record { text = text; ticks_left = k })) ≡ shown_for k ticks text
unfolding notices shown_for age
notices-shown zero k text = refl
notices-shown (suc ticks) k text = elim (Bool-cases (ltb 1 k)) [
  | inl more ↦
      let left : ltb 0 (k - 1) ≡ true = ground arith in
      rw more (rw left (ap (λ t. some text ∷ t) (notices-shown ticks (k - 1) text)))
  | inr last ↦
      let gone : ltb 0 (k - 1) ≡ false = ground arith in
      rw last (rw gone (ap (λ t. none ∷ t) (notices-none ticks (k - 1) text (ground arith))))
]

-- A notice stands in the status bar for seven publishes and then clears itself, though its constant says
-- that it stays for eight ticks.
pub notify-shown :
    (s : Session) (text : Text) (ticks : ℕ)
    → notices (7 + ticks) (notify s text).notice
      ≡ some text
        ∷ some text
        ∷ some text
        ∷ some text
        ∷ some text
        ∷ some text
        ∷ some text
        ∷ shown_for 1 ticks text
unfolding notify
notify-shown s text ticks =
    let more : 7 + ticks ≡ suc (suc (suc (suc (suc (suc (suc ticks)))))) = omega arith in
    rw more (
      notices-shown (suc (suc (suc (suc (suc (suc (suc ticks))))))) 8 text
      ∙ (unfold shown_for in refl))

rows_of : Reports → List Text → List Entry → List TorrentRow
rows_of r queue entries = map (λ e. (publish_entry r queue e).1) entries

publish_all-rows :
    (r : Reports) (queue : List Text) (entries : List Entry)
    → (publish_all r queue entries).1 ≡ map (λ e. (publish_entry r queue e).1) entries
publish_all-rows r queue [] = refl
publish_all-rows r queue (e ∷ entries) =
    ap (λ t. (publish_entry r queue e).1 ∷ t) (publish_all-rows r queue entries)

-- The rows of a snapshot are those of the session's torrents, one for each, in the order of their ids,
-- and the snapshot is the next in number.
publish-IsSorted :
    (r : Reports) (at : Option StreamAt) (s : Session)
    → IsSorted by_id (publish r at s).1.torrents
      × Perm (publish r at s).1.torrents (map (λ e. (publish_entry r s.queued e).1) s.entries)
      × ((publish r at s).1.seq ≡ s.seq + 1)
unfolding publish new_snapshot
publish-IsSorted r at s =
    let rows = (publish_all r s.queued s.entries).1 in
    (
      sort-IsSorted by_id
          (λ a b. elim (Bool-cases (leb a.id b.id)) [ inl h ↦ inl h | inr h ↦ inr (ground arith) ])
          (λ a b c h k. ground (arith, leb→le a.id b.id h, leb→le b.id c.id k)) rows,
      subst (Perm (sort by_id rows)) (publish_all-rows r s.queued s.entries) (sort-perm by_id rows),
      refl,
    )
