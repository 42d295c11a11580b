-- ===== src/Attendance/Leaving.antt =====
-- What a check-out leaves (attendance/service.go `CheckOut`).
use attendance_system.Prelude.{
  subst, ℕ, suc, ◌+◌, ◌-◌, ◌*◌, ◌≤◌, ◌≡◌, refl, sym, ap, ◌∙◌, inl, inr, true, false, Option, none,
  some, List, [], ◌∷◌, arith, ltb, ◌==◌, if◌then◌else◌, Bool-cases, get_elem?, keep, rewrite, All,
  All-map, keep-Found, All-keep, find-of_listed, find-updated, ok, >>=-elim,
}
use attendance_system.Time.{Instant, Date, hour, Zone}
use attendance_system.Attendance.Shift.{place, early_leave_minutes}
use attendance_system.Attendance.Service.{
  Host, max_open_check_in, evidence, schedule_of, check_closable, closed, check_out,
}
use attendance_system.Attendance.Sound.{IsSound}
use attendance_system.Db.{Db}
use attendance_system.Attendance.Validation.{Mark, check_mark, is_given}
use attendance_system.Attendance.Rows.{Attendance}
use attendance_system.Attendance.Store.{
  latest, is_open_since, open_check_in, with_check_out, is_open_row, store_check_out,
  attendance_by_id,
}
use attendance_system.Attendance.Proving.{Proved, evidence-Proved}
use attendance_system.Schedule.Rows.{WorkSchedule}

record Latest (rows : List Attendance) (r : Attendance) : Type 0 where
  index : ℕ
  listed : get_elem? rows index ≡ some r
  none_later : All (λ (s : Attendance). s.check_in_at ≤ r.check_in_at) rows

latest-none : (rows : List Attendance) → latest rows ≡ none → rows ≡ []
unfolding latest
latest-none [] h = refl
latest-none (r ∷ rows) h = go (latest rows) h
  where
    go :
        (l : Option Attendance)
        → elim l [
          | none ↦ some r
          | some s ↦ if ltb r.check_in_at s.check_in_at then some s else some r
        ]
          ≡ none
        → r ∷ rows ≡ []
    go none k = absurd (ground arith)
    go (some s) k = absurd (ground arith)

latest-Latest : (rows : List Attendance) (r : Attendance) → latest rows ≡ some r → Latest rows r
unfolding latest
latest-Latest [] r h = absurd (ground arith)
latest-Latest (x ∷ rows) r h = go (latest rows) refl (λ s e. latest-Latest rows s e) h
  where
    go :
        (l : Option Attendance)
        → latest rows ≡ l
        → ((s : Attendance) → latest rows ≡ some s → Latest rows s)
        → elim l [
          | none ↦ some x
          | some s ↦ if ltb x.check_in_at s.check_in_at then some s else some x
        ]
          ≡ some r
        → Latest (x ∷ rows) r
    go none e ih k =
        let same : x ≡ r = ground arith in
        subst (Latest (x ∷ rows)) same (record {
          index = 0;
          listed = refl;
          none_later = (
            omega arith,
            subst (λ l. All (λ (s : Attendance). s.check_in_at ≤ x.check_in_at) l)
                (sym (latest-none rows e)) tt,
          );
        })
    go (some s) e ih k =
        let rest = ih s e in
        elim (Bool-cases (ltb x.check_in_at s.check_in_at)) [
          | inl y ↦
              let same : s ≡ r = ground arith in
              subst (Latest (x ∷ rows)) same (record {
                index = suc rest.index;
                listed = rest.listed;
                none_later = (ground arith, rest.none_later);
              })
          | inr o ↦
              let same : x ≡ r = ground arith in
              subst (Latest (x ∷ rows)) same (record {
                index = 0;
                listed = refl;
                none_later = (
                  omega arith,
                  All-map (λ (t : Attendance). t.check_in_at ≤ s.check_in_at)
                      (λ (t : Attendance). t.check_in_at ≤ x.check_in_at) (λ t b. ground arith) rows
                      rest.none_later,
                );
              })
        ]

-- What a check-out has met and has done.
pub record CheckedOut (host : Host) (db : Db) (user : ℕ) (mark : Mark) (row : Attendance) (db' : Db)
    : Type 0 where
  pub old : Attendance
  pub stood : attendance_by_id db old.id ≡ ok old
  pub own : old.user_id ≡ user
  pub was_open : is_given old.check_out_at ≡ false
  pub recent : host.now - 24 * hour ≤ old.check_in_at
  pub latest_open :
      All
        (λ (s : Attendance).
          is_open_since user (host.now - 24 * hour) s ≡ true → s.check_in_at ≤ old.check_in_at)
        db.attendances
  pub in_time :
      (hours : WorkSchedule)
      → schedule_of db old.schedule_id ≡ some hours
      → host.now ≤ (place old.work_date (some hours) host.zone).end + 8 * hour
  pub proved : Proved host db user mark row.check_out
  pub moment_is : row.check_out_at ≡ some host.now
  pub early_is :
      row.early_leave_minutes
      ≡ early_leave_minutes
          (place old.work_date (schedule_of db old.schedule_id) host.zone)
          host.now
  pub rest_is :
      record row {
        check_out_at = old.check_out_at;
        check_out = old.check_out;
        early_leave_minutes = old.early_leave_minutes;
      }
      ≡ old
  pub stands : attendance_by_id db' old.id ≡ ok row

-- A shift of hours that may still be closed.
closable_until :
    (at : Instant) (d : Date) (hours : WorkSchedule) (zone : Zone)
    → check_closable at (place d (some hours) zone) ≡ ok tt
    → at ≤ (place d (some hours) zone).end + 8 * hour
unfolding place
closable_until at d hours zone h = ground arith

store_check_out-rows :
    (db : Db) (row : Attendance) (db' : Db)
    → store_check_out db row ≡ ok db'
    → db'.attendances ≡ rewrite (is_open_row row.id) (with_check_out row) db.attendances
unfolding store_check_out
store_check_out-rows db row db' h = ground arith

open_check_in-eq_ok :
    (db : Db) (user : ℕ) (since : Instant) (old : Attendance)
    → open_check_in db user since ≡ ok old
    → latest (keep (is_open_since user since) db.attendances) ≡ some old
unfolding open_check_in
open_check_in-eq_ok db user since old h = ground arith

-- A check-out closes the caller's latest check-in of the last 24 hours that is still open, not more
-- than eight hours after the end of its shift where it kept hours; the row then has the moment, the
-- evidence, whose photo was new, and the early leave by the hours that it kept, and is the same
-- otherwise. All this if the tables are sound.
pub check_out_lem :
    (host : Host) (db : Db) (user : ℕ) (mark : Mark) (row : Attendance) (db' : Db)
    → IsSound db
    → check_out host db user mark ≡ ok (row, db')
    → CheckedOut host db user mark row db'
unfolding check_out attendance_by_id
check_out_lem host db user mark row db' sound h = >>=-elim (check_mark mark) _ h λ _ _ h1.
    >>=-elim (open_check_in db user (host.now - max_open_check_in)) _ h1 λ old read h2.
      let measured = place old.work_date (schedule_of db old.schedule_id) host.zone in
      >>=-elim (check_closable host.now measured) _ h2 λ _ in_time h3.
        >>=-elim (evidence host db user mark) _ h3 λ proof proved h4.
          >>=-elim (store_check_out db (closed host measured proof old)) _ h4 λ out written h5.
            let since = host.now - 24 * hour in
            let test = is_open_since user since in
            let l =
              latest-Latest (keep test db.attendances) old
                (open_check_in-eq_ok db user since old read) in
            let (f, fe) = keep-Found test db.attendances l.index old l.listed in
            let holds : test old ≡ true = subst (λ r. test r ≡ true) fe f.accepted in
            let listed : get_elem? db.attendances f.index ≡ some old = f.listed ∙ ap some fe in
            let by_id =
              find-of_listed (λ (r : Attendance). r.id) db.attendances f.index old sound.keyed
                listed in
            let row_is : row ≡ closed host measured proof old = ground arith in
            let out_is : out ≡ db' = ground arith in
            let rows =
              store_check_out-rows db (closed host measured proof old) db'
                (written ∙ ap ok out_is) in
            let p = is_open_row old.id in
            let hit : p old ≡ true = ground arith in
            record {
              old = old;
              stood = rw by_id refl;
              own = ground arith;
              was_open = ground arith;
              recent = ground arith;
              latest_open =
                  All-keep test (λ (s : Attendance). s.check_in_at ≤ old.check_in_at) db.attendances
                    l.none_later;
              in_time = λ hours e. closable_until host.now old.work_date hours host.zone (
                  subst (λ o. check_closable host.now (place old.work_date o host.zone) ≡ ok tt) e
                    in_time);
              proved =
                  subst (λ (r : Attendance). Proved host db user mark r.check_out) (sym row_is)
                    (evidence-Proved host db user mark proof proved);
              moment_is = ap (λ (r : Attendance). r.check_out_at) row_is;
              early_is = ap (λ (r : Attendance). r.early_leave_minutes) row_is;
              rest_is =
                  ap
                    (λ (r : Attendance). record r {
                      check_out_at = old.check_out_at;
                      check_out = old.check_out;
                      early_leave_minutes = old.early_leave_minutes;
                    })
                    row_is;
              stands =
                  rw
                    (
                      rows,
                      find-updated (λ r. r.id == old.id) p
                          (with_check_out (closed host measured proof old)) db.attendances {r = old}
                          (λ x. ground arith) by_id,
                      hit,
                    )
                    (ap ok (sym row_is));
            }
