-- ===== src/Session/Enforcing.antt =====
-- What enforcing the queue comes to.
use zerem.Prelude.{
  is_nil, ℕ, true, false, not, ◌&&◌, List, [], ◌∷◌, map, ◌==◌, ◌≡◌, refl, sym, ap, ◌∙◌, arith,
  Bool-cases, inl, inr, All,
}
use zerem.Queue.{admit}
use zerem.Session.{
  Entry, Session, Answers, waiting_of, holds, settle_one, held_back, admitted_of, enforce_queue,
}

settle_one-waiting_of :
    (os : Answers) (ids : List ℕ) (e : Entry) → waiting_of (settle_one os ids e) ≡ waiting_of e
unfolding settle_one
settle_one-waiting_of os ids e = ground arith

waiting_after :
    (os : Answers) (ids : List ℕ) (entries : List Entry)
    → map waiting_of (map (settle_one os ids) entries) ≡ map waiting_of entries
waiting_after os ids [] = refl
waiting_after os ids (e ∷ entries) =
    cc (settle_one-waiting_of os ids e, waiting_after os ids entries)

settle_one_idem :
    (os : Answers) (ids : List ℕ) (e : Entry)
    → settle_one os ids (settle_one os ids e) ≡ settle_one os ids e
unfolding settle_one
settle_one_idem os ids e = ground arith

settled_idem :
    (os : Answers) (ids : List ℕ) (entries : List Entry)
    → map (settle_one os ids) (map (settle_one os ids) entries) ≡ map (settle_one os ids) entries
settled_idem os ids [] = refl
settled_idem os ids (e ∷ entries) = cc (settle_one_idem os ids e, settled_idem os ids entries)

held_after :
    (os : Answers) (ids other : List ℕ) (entries : List Entry)
    → held_back ids (map (settle_one os other) entries) ≡ held_back ids entries
unfolding held_back settle_one
held_after os ids other [] = refl
held_after os ids other (e ∷ entries) = let ih = held_after os ids other entries in ground arith

pass : Answers → Session → Session
pass os s = record s {
  entries = map (settle_one os (admitted_of s)) s.entries;
  queued = held_back (admitted_of s) s.entries;
}

enforced :
    (os : Answers) (s : Session)
    → (s.limit == 0 && is_nil s.queued) ≡ false
    → enforce_queue os s ≡ pass os s
unfolding enforce_queue pass
enforced os s busy = rw busy refl

idle :
    (os : Answers) (s : Session) → (s.limit == 0 && is_nil s.queued) ≡ true → enforce_queue os s ≡ s
unfolding enforce_queue
idle os s free = rw free refl

pass_idem : (os : Answers) (s : Session) → pass os (pass os s) ≡ pass os s
unfolding pass
pass_idem os s =
    let same : admitted_of (pass os s) ≡ admitted_of s =
      ap (λ w. admit w s.limit) (waiting_after os (admitted_of s) s.entries) in
    let entries =
      ap (λ ids. map (settle_one os ids) (pass os s).entries) same
      ∙ settled_idem os (admitted_of s) s.entries in
    let queued =
      ap (λ ids. held_back ids (pass os s).entries) same
      ∙ held_after os (admitted_of s) (admitted_of s) s.entries in
    ap
      (λ es. record s {
        entries = es;
        queued = held_back (admitted_of (pass os s)) (pass os s).entries;
      })
      entries
    ∙ ap (λ q. record s { entries = (pass os s).entries; queued = q }) queued

-- Enforcing the queue a second time changes nothing, whatever pauses and starts went wrong: so a tick in
-- which nothing happened asks the library for nothing new.
enforce_queue_idem :
    (os : Answers) (s : Session) → enforce_queue os (enforce_queue os s) ≡ enforce_queue os s
enforce_queue_idem os s = elim (Bool-cases (s.limit == 0 && is_nil s.queued)) [
  | inl free ↦ ap (enforce_queue os) (idle os s free)
  | inr busy ↦ again os s busy
]
  where
    again :
        (os : Answers) (s : Session)
        → (s.limit == 0 && is_nil s.queued) ≡ false
        → enforce_queue os (enforce_queue os s) ≡ enforce_queue os s
    again os s busy =
        let once = enforced os s busy in
        ap (enforce_queue os) once
        ∙ elim (Bool-cases ((pass os s).limit == 0 && is_nil (pass os s).queued)) [
          | inl free ↦ idle os (pass os s) free ∙ sym once
          | inr busy_still ↦ enforced os (pass os s) busy_still ∙ pass_idem os s ∙ sym once
        ]

-- What the queue is to bring about for one torrent: of those that are wanted and have not failed, the
-- admitted ones run and the others are stopped.
abbrev pub Obeys : List ℕ → Entry → Type 0
Obeys ids e = e.failed ≡ false → e.wanted_running ≡ true → e.paused ≡ not (holds ids e.id)

settle_one-Obeys :
    (os : Answers) (ids : List ℕ) (e : Entry)
    → os.unpause_ok e.id ≡ true
    → os.pause_ok e.id ≡ true
    → Obeys ids (settle_one os ids e)
unfolding settle_one
settle_one-Obeys os ids e up down = λ sound wanted. ground arith

settled-Obeys :
    (os : Answers) (ids : List ℕ) (entries : List Entry)
    → ((id : ℕ) → (os.unpause_ok id ≡ true) × (os.pause_ok id ≡ true))
    → All (Obeys ids) (map (settle_one os ids) entries)
settled-Obeys os ids [] fine = tt
settled-Obeys os ids (e ∷ entries) fine =
    (settle_one-Obeys os ids e (fine e.id).0 (fine e.id).1, settled-Obeys os ids entries fine)

-- Under a limit, if the library does as it is told, exactly the admitted ones of the torrents that are
-- wanted and have not failed run afterwards, and those are the ones that `admit` names for the session
-- as it is then.
pub enforce_queue-Obeys :
    (os : Answers) (s : Session)
    → ((id : ℕ) → (os.unpause_ok id ≡ true) × (os.pause_ok id ≡ true))
    → (s.limit == 0) ≡ false
    → All (Obeys (admitted_of (enforce_queue os s))) (enforce_queue os s).entries
unfolding pass
enforce_queue-Obeys os s fine limited =
    let busy : (s.limit == 0 && is_nil s.queued) ≡ false = rw limited refl in
    let same : admitted_of (pass os s) ≡ admitted_of s =
      ap (λ w. admit w s.limit) (waiting_after os (admitted_of s) s.entries) in
    rw (enforced os s busy) (rw same (settled-Obeys os (admitted_of s) s.entries fine))
