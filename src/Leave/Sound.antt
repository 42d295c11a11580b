-- ===== src/Leave/Sound.antt =====
-- What holds of leave_requests between any two calls.
use attendance_system.Prelude.{
  subst, ℕ, ◌+◌, ◌<◌, ◌≡◌, sym, ap, inl, inr, true, false, [], ◌∷◌, arith, ◌==◌, Bool-cases, All,
  Pairs, updated, any-false-All, All-append, Pairs-snoc, All-map, All-rewrite, Pairs-rewrite,
  HasKey,
}
use attendance_system.Leave.Rows.{Status, Leave}
use attendance_system.Leave.Store.{is_active, overlaps, is_from}
use attendance_system.Leave.Inversion.{Inserted, Settled}
use attendance_system.Leave.Checks.{MeetsChecks}
use attendance_system.Leave.Steps.{Reach, KeepsPlace, Effect, Step-Effect}
use attendance_system.Db.{Db}

-- Nobody is on two pending or approved leaves on one day.
abbrev pub NoOverlap : Db → Type 0
NoOverlap db = Pairs (λ a b. overlaps a b ≡ false) db.leave_requests

-- leave_requests.id is a primary key.
abbrev pub HasLeaveKey : Db → Type 0
HasLeaveKey db = HasKey (λ (r : Leave). r.id) db.leave_requests

pub record IsSound (db : Db) : Type 0 where
  pub no_overlap : NoOverlap db
  pub keyed : HasLeaveKey db
  pub issued : All (λ r. r.id < db.next_leave_id) db.leave_requests
  pub checked : All MeetsChecks db.leave_requests

overlaps-updated :
    (id : ℕ) (from : Status) (f : Leave → Leave)
    → is_active from ≡ true
    → KeepsPlace f
    → (a b : Leave) → overlaps a b ≡ false
    → overlaps (updated (is_from id from) f a) (updated (is_from id from) f b) ≡ false
overlaps-updated id from f n k a b h = ground (arith, k a, k b)

module _ (db : Db) (new row : Leave) (db' : Db) (i : Inserted db new row db') (s : IsSound db) where
  inserted-NoOverlap : NoOverlap db'
  inserted-NoOverlap = subst NoOverlap (sym i.db_is) (
      Pairs-snoc (λ a b. overlaps a b ≡ false) db.leave_requests row s.no_overlap
        (any-false-All (λ r. overlaps r row) db.leave_requests i.no_overlap))

  row_id : row.id ≡ db.next_leave_id
  row_id = ap (λ (r : Leave). r.id) i.row_is

  inserted-keyed : HasLeaveKey db'
  inserted-keyed = subst HasLeaveKey (sym i.db_is) (
      Pairs-snoc (λ a b. (a.id == b.id) ≡ false) db.leave_requests row s.keyed
        (All-map (λ r. r.id < db.next_leave_id) (λ r. (r.id == row.id) ≡ false)
          (λ r h. ground (arith, row_id)) db.leave_requests s.issued))

  inserted-issued : All (λ r. r.id < db'.next_leave_id) db'.leave_requests
  inserted-issued =
      subst (λ (d : Db). All (λ r. r.id < d.next_leave_id) d.leave_requests) (sym i.db_is)
        (All-append (λ r. r.id < db.next_leave_id + 1) db.leave_requests (row ∷ [])
          (All-map (λ r. r.id < db.next_leave_id) (λ r. r.id < db.next_leave_id + 1)
            (λ r h. omega arith) db.leave_requests s.issued)
          (omega (arith, row_id), tt))

  inserted-checked : MeetsChecks new → All MeetsChecks db'.leave_requests
  inserted-checked m =
      subst (λ (d : Db). All MeetsChecks d.leave_requests) (sym i.db_is)
        (All-append MeetsChecks db.leave_requests (row ∷ []) s.checked (
          subst MeetsChecks (sym i.row_is) (record {
            dates = m.dates;
            some_days = m.some_days;
            attachment_whole = m.attachment_whole;
            cancel_whole = m.cancel_whole;
            cancel_dated = m.cancel_dated;
          }),
          tt,
        ))

module _ (db : Db) (id : ℕ) (from : Status) (f : Leave → Leave) (row : Leave) (db' : Db)
    (active : is_active from ≡ true) (place : KeepsPlace f) (e : Settled db id from f row db')
    (s : IsSound db) where
  settled-NoOverlap : NoOverlap db'
  settled-NoOverlap = subst NoOverlap (sym e.db_is) (
      Pairs-rewrite (is_from id from) f (λ a b. overlaps a b ≡ false)
        (overlaps-updated id from f active place) db.leave_requests s.no_overlap)

  settled-keyed : HasLeaveKey db'
  settled-keyed = subst HasLeaveKey (sym e.db_is) (
      Pairs-rewrite (is_from id from) f (λ a b. (a.id == b.id) ≡ false)
        (λ a b h. ground (arith, place a, place b)) db.leave_requests s.keyed)

  settled-issued : All (λ r. r.id < db'.next_leave_id) db'.leave_requests
  settled-issued =
      subst (λ (d : Db). All (λ r. r.id < d.next_leave_id) d.leave_requests) (sym e.db_is)
        (All-rewrite (is_from id from) f (λ r. r.id < db.next_leave_id)
          (λ r. r.id < db.next_leave_id) (λ r h. ground (arith, place r)) db.leave_requests
          s.issued)

  settled-checked :
      ((r : Leave) → is_from id from r ≡ true → MeetsChecks r → MeetsChecks (f r))
      → All MeetsChecks db'.leave_requests
  settled-checked g =
      subst (λ (d : Db). All MeetsChecks d.leave_requests) (sym e.db_is)
        (All-rewrite (is_from id from) f MeetsChecks MeetsChecks
          (λ r m. elim (Bool-cases (is_from id from r)) [ inl p ↦ rw p (g r p m) | inr n ↦ rw n m ])
          db.leave_requests s.checked)

pub Effect-IsSound : (db db' : Db) → IsSound db → Effect db db' → IsSound db'
Effect-IsSound db db' s (Effect.inserted new row i m) = record {
  no_overlap = inserted-NoOverlap db new row db' i s;
  keyed = inserted-keyed db new row db' i s;
  issued = inserted-issued db new row db' i s;
  checked = inserted-checked db new row db' i s m;
}
Effect-IsSound db db' s (Effect.settled id from f row active place m g e) = record {
  no_overlap = settled-NoOverlap db id from f row db' active place e s;
  keyed = settled-keyed db id from f row db' active place e s;
  issued = settled-issued db id from f row db' active place e s;
  checked = settled-checked db id from f row db' active place e s m;
}
Effect-IsSound db db' s (Effect.untouched u) = record {
  no_overlap = rw u.0 s.no_overlap;
  keyed = rw u.0 s.keyed;
  issued = rw (u.0, u.1) s.issued;
  checked = rw u.0 s.checked;
}

-- After any sequence of calls of the leave module, by anybody, no two pending or approved requests
-- of a person share a day, ids are unique and below the next one, and every row meets the CHECK
-- constraints of its table, if all this held at first.
pub Reach-IsSound : (db db' : Db) → IsSound db → Reach db db' → IsSound db'
Reach-IsSound db db' s Reach.here = s
Reach-IsSound db db'' s (Reach.next {db' = db'} r st) =
    Effect-IsSound db' db'' (Reach-IsSound db db' s r) (Step-Effect st)
