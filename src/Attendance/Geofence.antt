-- ===== src/Attendance/Geofence.antt =====
-- attendance/geofence.go: the office that a point is placed against. The haversine distance is a
-- parameter, in millimetres; floating-point numbers are left out.
use attendance_system.Prelude.{
  ℕ, ◌*◌, Bool, true, false, not, ◌&&◌, ◌||◌, Option, none, some, List, [], ◌∷◌, ltb, leb,
  if◌then◌else◌, ℤ,
}
use attendance_system.Schedule.Rows.{OfficeLocation}

abbrev pub Distance : Type 0
Distance = ℤ → ℤ → ℤ → ℤ → ℕ

-- The state of the loop: the office so far, whether its circle holds the point, and how far it is;
-- no distance is `math.Inf(1)`.
pub record Best : Type 0 where
  pub office : Option ℕ
  pub within : Bool
  pub nearest : Option ℕ

abbrev pub is_nearer : ℕ → Option ℕ → Bool
is_nearer d none = true
is_nearer d (some n) = ltb d n

unfoldable pub visit : ℕ → OfficeLocation → Best → Best
visit distance office best =
    let inside = leb distance (office.radius_m * 1000) in
    if (inside && not best.within)
      || ((if inside then best.within else not best.within) && is_nearer distance best.nearest)
    then record { office = some office.id; within = inside; nearest = some distance }
    else best

unfoldable pub visit_all : Distance → ℤ → ℤ → List OfficeLocation → Best → Best
unfolding visit
visit_all distance lat lng [] best = best
visit_all distance lat lng (o ∷ os) best =
    visit_all distance lat lng os (visit (distance lat lng o.lat o.lng) o best)

unfoldable pub locate : Distance → List OfficeLocation → ℤ → ℤ → Option ℕ × Bool
unfolding visit_all
locate distance offices lat lng =
    let best =
      visit_all distance lat lng offices
        (record { office = none; within = false; nearest = none }) in
    (best.office, best.within)
