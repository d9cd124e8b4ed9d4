-- ===== src/Session/Adding/Reading.antt =====
-- What the add dialog shows while reads come in, in whatever order.
use zerem.Prelude.{
  ℕ, true, false, Option, none, some, if◌then◌else◌, List, [], ◌∷◌, ◌≡◌, refl, sym, ap, ◌∙◌, arith,
  Bool-cases, inl, inr,
}
use zerem.Prelude.Text.{Text, text_eq, text_eq→eq}
use zerem.Pending.{Pending, fetching, failed}
use zerem.Session.{Session}
use zerem.Session.Adding.{
  Read, Answer, listed, already, timed_out, refused, read_torrent, begin_inspect, adopt_read,
}

pub adopt_all : Session → List Read → Session
adopt_all s [] = s
adopt_all s (r ∷ reads) = adopt_all (adopt_read s r) reads

-- A read answers the question that it names.
read-source :
    (tr : Text → Text) (source : Text) (a : Answer)
    → (read_torrent tr source a).pending.source ≡ (read_torrent tr source a).source
unfolding read_torrent failed
read-source tr source (listed l) = refl
read-source tr source already = refl
read-source tr source timed_out = refl
read-source tr source (refused why) = refl

-- The reads of some links, each with what the library answered.
abbrev pub reads_of : (Text → Text) → List (Text × Answer) → List Read
reads_of tr [] = []
reads_of tr ((source, a) ∷ asked) = read_torrent tr source a ∷ reads_of tr asked

-- What the library answered last for a link, behind an earlier answer if there was one.
abbrev pub last_answer : Text → Option Answer → List (Text × Answer) → Option Answer
last_answer source current [] = current
last_answer source current ((link, a) ∷ asked) =
    last_answer source (if text_eq source link then some a else current) asked

-- What the dialog shows, and the bytes that accepting adds, for that answer: without one the dialog
-- waits, and the bytes are those of before.
abbrev pub Shows : (Text → Text) → Text → Option (List ℕ) → Option Answer → Session → Type 0
Shows tr source before none s = (s.pending ≡ some (fetching source)) × (s.pending_bytes ≡ before)
Shows tr source before (some a) s =
    (s.pending ≡ some (read_torrent tr source a).pending)
    × (s.pending_bytes ≡ (read_torrent tr source a).bytes)

read-asked :
    (tr : Text → Text) (source : Text) (a : Answer) → (read_torrent tr source a).source ≡ source
unfolding read_torrent
read-asked tr source (listed l) = refl
read-asked tr source already = refl
read-asked tr source timed_out = refl
read-asked tr source (refused why) = refl

adopt_skip :
    (s : Session) (r : Read) (p : Pending)
    → s.pending ≡ some p
    → text_eq p.source r.source ≡ false
    → adopt_read s r ≡ s
unfolding adopt_read
adopt_skip s r p shown h = ground arith

adopt_take :
    (s : Session) (r : Read) (p : Pending)
    → s.pending ≡ some p
    → text_eq p.source r.source ≡ true
    → adopt_read s r ≡ record s { pending_bytes = r.bytes; pending = some r.pending }
unfolding adopt_read
adopt_take s r p shown h = rw (shown, adopt_read) (rw h refl)

shown_source :
    (tr : Text → Text) (source : Text) (before : Option (List ℕ)) (current : Option Answer)
    (s : Session)
    → Shows tr source before current s
    → (p : Pending) × (s.pending ≡ some p) × (p.source ≡ source)
unfolding fetching
shown_source tr source before none s (waiting, bytes) = (fetching source, waiting, refl)
shown_source tr source before (some a) s (shown, bytes) =
    ((read_torrent tr source a).pending, shown, read-source tr source a ∙ read-asked tr source a)

-- A read of the link replaces what is shown, and a read of another link does nothing.
adopt-Shows :
    (tr : Text → Text) (source link : Text) (before : Option (List ℕ)) (current : Option Answer)
    (a : Answer) (s : Session)
    → Shows tr source before current s
    → Shows tr source before
        (if text_eq source link then some a else current)
        (adopt_read s (read_torrent tr link a))
adopt-Shows tr source link before current a s h =
    let (p, shown, mine) = shown_source tr source before current s h in
    let asked : text_eq p.source (read_torrent tr link a).source ≡ text_eq source link =
      rw mine (ap (text_eq source) (read-asked tr link a)) in
    elim (Bool-cases (text_eq source link)) [
      | inl same ↦
          let one : link ≡ source = sym (text_eq→eq source link same) in
          rw same (
            rw (adopt_take s (read_torrent tr link a) p shown (asked ∙ same)) (
              ap (λ l. some (read_torrent tr l a).pending) one,
              ap (λ l. (read_torrent tr l a).bytes) one,
            ))
      | inr other ↦ rw other (rw (adopt_skip s (read_torrent tr link a) p shown (asked ∙ other)) h)
    ]

adopt_all-Shows :
    (tr : Text → Text) (source : Text) (before : Option (List ℕ)) (current : Option Answer)
    (s : Session) (asked : List (Text × Answer))
    → Shows tr source before current s
    → Shows tr source before (last_answer source current asked) (adopt_all s (reads_of tr asked))
unfolding adopt_all
adopt_all-Shows tr source before current s [] h = h
adopt_all-Shows tr source before current s ((link, a) ∷ asked) h =
    adopt_all-Shows tr source before (if text_eq source link then some a else current)
      (adopt_read s (read_torrent tr link a)) asked
      (adopt-Shows tr source link before current a s h)

-- After a link was pasted, reads of any links may come in, in any order: the dialog shows what the
-- library answered last for the pasted link, and accepting adds the bytes of that answer (none where it
-- was refused). Until there is such an answer the dialog waits for it, while the bytes are still those
-- of whatever was read before the link was pasted.
pub dialog-Shows :
    (tr : Text → Text) (s : Session) (source : Text) (asked : List (Text × Answer))
    → Shows tr source s.pending_bytes
        (last_answer source none asked)
        (adopt_all (begin_inspect s source) (reads_of tr asked))
unfolding begin_inspect
dialog-Shows tr s source asked =
    adopt_all-Shows tr source s.pending_bytes none (begin_inspect s source) asked (refl, refl)
