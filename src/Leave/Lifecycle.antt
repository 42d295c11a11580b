-- ===== src/Leave/Lifecycle.antt =====
-- The life of one request: who decides it, which statuses follow which, and which are final.
use attendance_system.Prelude.{
  subst, ℕ, ◌≡◌, refl, sym, ap, ◌∙◌, ◌≢◌, ◌⊎◌, inl, inr, Bool, true, false, Option, some, [], ◌∷◌,
  arith, ◌==◌, if◌then◌else◌, Bool-cases, find, updated, find-holds, find-rewrite_same, find-by_key,
  find-append, find-updated, ok,
}
use attendance_system.Text.{NoteAfter, Text, is_empty}
use attendance_system.Access.{Role, at_least, Claims}
use attendance_system.User.Hierarchy.{reach}
use attendance_system.Leave.Rows.{Status, Leave}
use attendance_system.Leave.Store.{is_active, leave_by_id, is_from}
use attendance_system.Leave.Requests.{Host, Decision, is_decision, outcome, decided_by, decide}
use attendance_system.Leave.Inversion.{Settled, decide-Decided}
use attendance_system.Leave.Steps.{Step, Reach, KeepsPlace, Moves, Effect, Step-Effect}
use attendance_system.Leave.Sound.{HasLeaveKey, IsSound}
use attendance_system.Db.{Db}

-- A later state of a request: the same leave, in the same status or one that follows.
pub record Later (r r' : Leave) : Type 0 where
  pub user_id_kept : r'.user_id ≡ r.user_id
  pub start_date_kept : r'.start_date ≡ r.start_date
  pub end_date_kept : r'.end_date ≡ r.end_date
  pub leave_type_id_kept : r'.leave_type_id ≡ r.leave_type_id
  pub working_days_kept : r'.working_days ≡ r.working_days
  pub status_moved : (r' ≡ r) ⊎ Moves r.status r'.status

same_Later : (r : Leave) → Later r r
same_Later r = record {
  user_id_kept = refl;
  start_date_kept = refl;
  end_date_kept = refl;
  leave_type_id_kept = refl;
  working_days_kept = refl;
  status_moved = inl refl;
}

updated-Later :
    (p : Leave → Bool) (f : Leave → Leave) (r : Leave)
    → KeepsPlace f
    → ((x : Leave) → p x ≡ true → Moves x.status (f x).status)
    → Later r (updated p f r)
updated-Later p f r place move = elim (Bool-cases (p r)) [
  | inr n ↦ rw n (same_Later r)
  | inl t ↦
      let k = place r in
      rw t (record {
        user_id_kept = k.1;
        start_date_kept = k.2;
        end_date_kept = k.3;
        leave_type_id_kept = k.4;
        working_days_kept = k.5;
        status_moved = inr (move r t);
      })
]

found_or :
    (db : Db) (id : ℕ) {r : Leave}
    → leave_by_id db id ≡ ok r
    → find (λ x. x.id == id) db.leave_requests ≡ some r
found_or db id h = ground arith

Effect-Later :
    (db db' : Db) (id : ℕ) (r : Leave)
    → Effect db db'
    → leave_by_id db id ≡ ok r
    → (r' : Leave) × (leave_by_id db' id ≡ ok r') × Later r r'
Effect-Later db db' id r (Effect.inserted new row i m) h = (
  r,
  subst (λ (d : Db). leave_by_id d id ≡ ok r) (sym i.db_is)
      (rw (find-append (λ x. x.id == id) db.leave_requests (row ∷ []) {r = r} (found_or db id h))
        refl),
  same_Later r,
)
Effect-Later db db' id r (Effect.settled k from f row active place m g e) h = (
  updated (is_from k from) f r,
  subst (λ (d : Db). leave_by_id d id ≡ ok (updated (is_from k from) f r)) (sym e.db_is)
      (rw
        (find-updated (λ x. x.id == id) (is_from k from) f db.leave_requests {r = r}
          (λ x. ground (arith, place x)) (found_or db id h))
        refl),
  updated-Later (is_from k from) f r place g,
)
Effect-Later db db' id r (Effect.untouched u) h = (r, rw u.0 h, same_Later r)

-- A call of the leave module leaves every request as it was, or moves its status along one edge:
-- from pending to approved, rejected or cancelled, from approved to cancelled. Whose leave it is,
-- its dates, its type and its working days never change, and no request disappears.
pub Step-Later :
    (db db' : Db) (id : ℕ) (r : Leave)
    → Step db db'
    → leave_by_id db id ≡ ok r
    → (r' : Leave) × (leave_by_id db' id ≡ ok r') × Later r r'
Step-Later db db' id r st h = Effect-Later db db' id r (Step-Effect st) h

no_move : (s t : Status) → is_active s ≡ false → Moves s t → ⊥
no_move s t h Moves.approval = cc
no_move s t h Moves.rejection = cc
no_move s t h Moves.withdrawal = cc
no_move s t h Moves.recall = cc

-- A rejected or cancelled request stays as it is, whatever calls follow.
pub settled_forever :
    (db db' : Db) (id : ℕ) (r : Leave)
    → Reach db db'
    → leave_by_id db id ≡ ok r
    → is_active r.status ≡ false
    → leave_by_id db' id ≡ ok r
settled_forever db db' id r Reach.here h done = h
settled_forever db db'' id r (Reach.next {db' = db'} reach st) h done =
    let before = settled_forever db db' id r reach h done in
    let (r', found, later) = Step-Later db' db'' id r st before in
    elim later.status_moved [
      | inl same ↦ subst (λ x. leave_by_id db'' id ≡ ok x) same found
      | inr move ↦ absurd (no_move r.status r'.status done move)
    ]

module _ (db : Db) (id : ℕ) (from : Status) (f : Leave → Leave) (row : Leave) (db' : Db)
    (keys : HasLeaveKey db) (place : KeepsPlace f) (e : Settled db id from f row db') where
  old_is_from : is_from id from e.old ≡ true
  old_is_from = find-holds (is_from id from) db.leave_requests e.found_old

  old_id : e.old.id ≡ id
  old_id = ground (arith, old_is_from)

  found_by_id : find (λ x. x.id == id) db.leave_requests ≡ some e.old
  found_by_id =
      subst (λ k. find (λ x. x.id == k) db.leave_requests ≡ some e.old) old_id
        (find-by_key (λ (r : Leave). r.id) (is_from id from) db.leave_requests keys e.found_old)

  settled-stood : leave_by_id db id ≡ ok e.old
  settled-stood = rw found_by_id refl

  settled-status : e.old.status ≡ from
  settled-status = ground (arith, old_is_from)

  updated_old : updated (is_from id from) f e.old ≡ row
  updated_old = rw old_is_from (sym e.row_is)

  settled-stands : leave_by_id db' id ≡ ok row
  settled-stands =
      subst (λ (d : Db). leave_by_id d id ≡ ok row) (sym e.db_is)
        (rw
          (
            find-updated (λ x. x.id == id) (is_from id from) f db.leave_requests {r = e.old}
                (λ x. ground (arith, place x)) found_by_id,
            updated_old,
          )
          refl)

  settled-others : (other : ℕ) → other ≢ id → leave_by_id db' other ≡ leave_by_id db other
  settled-others other ne =
      subst (λ (d : Db). leave_by_id d other ≡ leave_by_id db other) (sym e.db_is)
        (rw
          (find-rewrite_same (is_from id from) f (λ x. x.id == other) db.leave_requests
            (λ x p. ground arith) (λ x p. ground (arith, place x)))
          refl)

ok_eq : {a b : Leave} → ok a ≡ ok b → a ≡ b
ok_eq h = ground arith

-- Which status a decision gives; there is none for a text that is no decision.
pub data Outcome : Decision → Status → Type 0 where
  approves : Outcome Decision.approve Status.approved
  rejects : Outcome Decision.reject Status.rejected

note_after :
    (held : Option Text) (note : Text)
    → NoteAfter held note (if is_empty note then held else some note)
note_after held [] = NoteAfter.nothing_sent
note_after held (c ∷ note) = NoteAfter.sent

outcome-Outcome : (d : Decision) → is_decision d ≡ true → Outcome d (outcome d)
outcome-Outcome Decision.approve h = Outcome.approves
outcome-Outcome Decision.reject h = Outcome.rejects
outcome-Outcome Decision.other h = absurd (ground arith)

-- What a decision that was accepted has met and has done.
pub record DecidedBy (host : Host) (db : Db) (claims : Claims) (id : ℕ) (decision : Decision)
    (note : Text) (row : Leave) (db' : Db) : Type 0 where
  pub old : Leave
  pub stood : leave_by_id db id ≡ ok old
  pub was_pending : old.status ≡ Status.pending
  pub by_supervisor : at_least claims.role Role.supervisor ≡ true
  pub of_another : old.user_id ≢ claims.user_id
  pub in_reach : reach db claims old.user_id ≡ ok tt
  pub outcome_is : Outcome decision row.status
  pub reviewer_is : row.reviewed_by ≡ some claims.user_id
  pub moment_is : row.reviewed_at ≡ some host.now
  pub note_is : NoteAfter old.review_note note row.review_note
  pub rest_is :
      record row {
        status = old.status;
        reviewed_by = old.reviewed_by;
        reviewed_at = old.reviewed_at;
        review_note = old.review_note;
      }
      ≡ old
  pub stands : leave_by_id db' id ≡ ok row
  pub others : (other : ℕ) → other ≢ id → leave_by_id db' other ≡ leave_by_id db other
  pub tables : record db' { leave_requests = db.leave_requests } ≡ db

-- A decision is accepted only of a pending request of somebody else whom the caller, a supervisor
-- or above, reaches. It makes the request approved or rejected as decided, with the caller as reviewer, the
-- moment and the note where one was sent, and changes no other field, request or table; all this
-- if the tables are sound.
pub decide_lem :
    (host : Host) (db : Db) (claims : Claims) (id : ℕ) (decision : Decision) (note : Text)
    (row : Leave) (db' : Db)
    → IsSound db
    → decide host db claims id decision note ≡ ok (row, db')
    → DecidedBy host db claims id decision note row db'
decide_lem host db claims id decision note row db' sound h =
    let d = decide-Decided host db claims id decision note row db' h in
    let f = decided_by claims.user_id host.now decision note in
    let place : KeepsPlace f = λ r. (refl, refl, refl, refl, refl, refl) in
    let stood = settled-stood db id Status.pending f row db' sound.keyed place d.settled in
    let same : d.old ≡ d.settled.old = ok_eq (sym d.read_old ∙ stood) in
    record {
      old = d.settled.old;
      stood = stood;
      was_pending = settled-status db id Status.pending f row db' sound.keyed place d.settled;
      by_supervisor = d.may_decide;
      of_another =
          subst (λ (r : Leave). r.user_id ≢ claims.user_id) same (ground (arith, d.not_own));
      in_reach = subst (λ (r : Leave). reach db claims r.user_id ≡ ok tt) same d.reached;
      outcome_is =
          subst (λ (r : Leave). Outcome decision r.status) (sym d.settled.row_is)
            (outcome-Outcome decision d.a_decision);
      reviewer_is = ap (λ (r : Leave). r.reviewed_by) d.settled.row_is;
      moment_is = ap (λ (r : Leave). r.reviewed_at) d.settled.row_is;
      note_is =
          subst (λ (r : Leave). NoteAfter d.settled.old.review_note note r.review_note)
            (sym d.settled.row_is) (note_after d.settled.old.review_note note);
      rest_is =
          ap
            (λ (r : Leave). record r {
              status = d.settled.old.status;
              reviewed_by = d.settled.old.reviewed_by;
              reviewed_at = d.settled.old.reviewed_at;
              review_note = d.settled.old.review_note;
            })
            d.settled.row_is;
      tables = ap (λ (x : Db). record x { leave_requests = db.leave_requests }) d.settled.db_is;
      stands = settled-stands db id Status.pending f row db' sound.keyed place d.settled;
      others = settled-others db id Status.pending f row db' sound.keyed place d.settled;
    }
