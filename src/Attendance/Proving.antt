-- ===== src/Attendance/Proving.antt =====
-- What the evidence of a check-in or a check-out says (attendance/service.go `evidence`).
use attendance_system.Prelude.{
  subst, ℕ, ◌*◌, ◌≤◌, ◌≡◌, sym, ap, ◌∙◌, ◌⊎◌, inl, inr, Bool, true, false, not, ◌&&◌, Option, none,
  some, [], arith, get_elem?, keep-Found, ok, refuse_if, >>=-elim,
}
use attendance_system.Attendance.Locating.{holds_point, Chosen, locate_lem}
use attendance_system.Attendance.Geofence.{locate}
use attendance_system.Attendance.Service.{Host, live_locations, evidence}
use attendance_system.Attendance.Rows.{Evidence}
use attendance_system.Attendance.Validation.{Mark}
use attendance_system.Attendance.Store.{photo_key_used}
use attendance_system.Schedule.Rows.{OfficeLocation}
use attendance_system.Db.{Db}
use attendance_system.Text.{Text}

-- A live office whose circle holds the point.
pub record Inside (host : Host) (db : Db) (mark : Mark) : Type 0 where
  pub index : ℕ
  pub office : OfficeLocation
  pub listed : get_elem? db.office_locations index ≡ some office
  pub live : office.deleted ≡ false
  pub near : host.distance mark.lat mark.lng office.lat office.lng ≤ office.radius_m * 1000

-- The office that is written down, and whether its circle holds the point: the one that comes first
-- among the live ones, or none where there is none.
abbrev pub AtOffice : Host → Db → Mark → Evidence → Type 0
AtOffice host db mark proof =
    ((live_locations db ≡ []) × (proof.location_id ≡ none) × (proof.within_geofence ≡ some false))
    ⊎ ((office : Option ℕ) × (within : Bool) × Chosen host.distance mark.lat mark.lng
          (live_locations db) (office, within)
        × (proof.location_id ≡ office)
        × (proof.within_geofence ≡ some within))

pub record Proved (host : Host) (db : Db) (user : ℕ) (mark : Mark) (proof : Evidence) : Type 0 where
  pub lat_is : proof.lat ≡ some mark.lat
  pub lng_is : proof.lng ≡ some mark.lng
  pub accuracy_is : proof.accuracy ≡ some mark.accuracy
  pub photo_is : proof.photo_key ≡ some mark.photo_key
  pub mock_is : proof.mock_location ≡ some mark.mock_location
  pub new_photo : photo_key_used db mark.photo_key ≡ false
  pub vouched : (kind : Text) × (host.verify user mark.photo_key ≡ ok kind)
  pub at_office : AtOffice host db mark proof
  pub fenced : host.enforce ≡ true → Inside host db mark

chosen-Inside :
    (host : Host) (db : Db) (mark : Mark) (out : Option ℕ × Bool)
    → Chosen host.distance mark.lat mark.lng (live_locations db) out
    → out.1 ≡ true
    → Inside host db mark
chosen-Inside host db mark out c w =
    let is_kept : OfficeLocation → Bool = λ o. not o.deleted in
    let (f, same) = keep-Found is_kept db.office_locations c.index c.office c.listed in
    let holds : holds_point host.distance mark.lat mark.lng c.office ≡ true = sym c.within_is ∙ w in
    record {
      index = f.index;
      office = c.office;
      listed = f.listed ∙ ap some same;
      live = ground (arith, subst (λ o. is_kept o ≡ true) same f.accepted);
      near = ground (arith, holds);
    }

pub evidence-Proved :
    (host : Host) (db : Db) (user : ℕ) (mark : Mark) (proof : Evidence)
    → evidence host db user mark ≡ ok proof
    → Proved host db user mark proof
unfolding evidence
evidence-Proved host db user mark proof h =
    let placed = locate host.distance (live_locations db) mark.lat mark.lng in
    let where_it_is = locate_lem host.distance (live_locations db) mark.lat mark.lng in
    >>=-elim (refuse_if (host.enforce && not (placed.1)) _) _ h λ _ inside h1.
      >>=-elim (refuse_if (photo_key_used db mark.photo_key) _) _ h1 λ _ fresh h2.
        >>=-elim (host.verify user mark.photo_key) _ h2 λ kind vouched h3.
          let within : proof.within_geofence ≡ some (placed.1) = ground arith in
          let office : proof.location_id ≡ placed.0 = ground arith in
          record {
            lat_is = ground arith;
            lng_is = ground arith;
            accuracy_is = ground arith;
            photo_is = ground arith;
            mock_is = ground arith;
            new_photo = ground (arith, fresh);
            vouched = (kind, vouched);
            at_office = elim where_it_is [
              | inl (none_live, at) ↦ inl (
                none_live,
                office ∙ ap (λ (o : Option ℕ × Bool). o.0) at,
                within ∙ ap (λ (o : Option ℕ × Bool). some (o.1)) at,
              )
              | inr c ↦ inr (placed.0, placed.1, c, office, within)
            ];
            fenced = λ e.
                let holds : placed.1 ≡ true = ground (arith, inside, e) in
                elim where_it_is [
                  | inl (none_live, at) ↦
                      absurd (ground (arith, ap (λ (o : Option ℕ × Bool). o.1) at))
                  | inr c ↦ chosen-Inside host db mark placed c holds
                ];
          }
