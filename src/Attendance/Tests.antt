-- ===== src/Attendance/Tests.antt =====
-- Runs of the attendance module and the theorems at concrete inputs.
use attendance_system.Prelude.{
  ◌≡◌, refl, ◌⊎◌, true, false, none, some, [], ◌∷◌, arith, ok, pos, ◌-ℤ◌, min_ℤ, max_ℤ, quot_ℤ,
}
use attendance_system.Time.{sub_time, whole_minutes, east_of_utc}
use attendance_system.User.Hierarchy.{in_subtree, reach}
use attendance_system.Schedule.Resolve.{resolve}
use attendance_system.Schedule.Validation.{check_range, shift_length}
use attendance_system.Schedule.Roster.{plan_days}
use attendance_system.Attendance.Shift.{
  place, pick_shift, minutes, late_minutes, early_leave_minutes,
}
use attendance_system.Attendance.Geofence.{locate}
use attendance_system.Attendance.Lateness.{
  lateness, earliness, late_minutes_lem, early_leave_minutes_lem, minutes-place,
}
use attendance_system.Attendance.Picking.{PickedFrom, pick_shift-PickedFrom}
use attendance_system.Attendance.Locating.{Chosen, locate_lem}
use attendance_system.Attendance.Service.{evidence, check_in, check_out}
use attendance_system.Attendance.Corrections.{
  corrected, Decision, hours_for, measure, decide_correction,
}
use attendance_system.Attendance.Steps.{Step, Reach}
use attendance_system.Attendance.Sound.{IsSound, Reach-attendance_IsSound}
use attendance_system.Attendance.Closed.{closed_forever}
use attendance_system.Attendance.Deciding.{DecidedCorrection, decide_correction_lem}
use attendance_system.Attendance.Arrival.{CheckedIn, check_in_lem}
use attendance_system.Samples.{monday, office_hours, jakarta, half_past_nine}
use attendance_system.Attendance.Validation.{check_mark, check_note}
use attendance_system.Attendance.Store.{meets_checks, create, open_check_in, store_check_out}
use attendance_system.Attendance.CorrectionStore.{correction_by_id, approve}
use attendance_system.Attendance.Leaving.{CheckedOut, check_out_lem}
use attendance_system.Attendance.Cases.{
  far_apart, head_office, with_office, phone, gate, arrived, with_arrival, monday_shift, three_plan,
  with_ask, boss, granted, with_grant, next_day, second_photo, arrived_again, with_second,
  half_past_four, left, with_leaving,
}

check_in_runs : check_in gate with_office 1 phone ≡ ok (arrived, with_arrival)
unfolding check_in check_mark plan_days check_range resolve pick_shift evidence create meets_checks
    late_minutes quot_ℤ ◌-ℤ◌ min_ℤ max_ℤ
check_in_runs = refl

check_in_lem_example : CheckedIn gate with_office 1 phone arrived with_arrival
check_in_lem_example = check_in_lem gate with_office 1 phone arrived with_arrival check_in_runs

with_office-IsSound : IsSound with_office
with_office-IsSound = record {
  one_a_day = tt;
  keyed = tt;
  issued = tt;
  checked = tt;
  one_pending = tt;
  corrections_keyed = tt;
  corrections_issued = tt;
}

Reach-attendance_IsSound_example : IsSound with_arrival
Reach-attendance_IsSound_example =
    Reach-attendance_IsSound with_office with_arrival with_office-IsSound
      (Reach.next Reach.here (Step.checked_in gate 1 phone arrived check_in_runs))

late_minutes_lem_example :
    late_minutes monday_shift half_past_nine ≡ pos (lateness monday_shift half_past_nine)
late_minutes_lem_example =
    late_minutes_lem monday_shift half_past_nine (omega arith) (omega arith) (omega arith)

early_leave_minutes_lem_example :
    early_leave_minutes monday_shift half_past_nine ≡ pos (earliness monday_shift half_past_nine)
early_leave_minutes_lem_example =
    early_leave_minutes_lem monday_shift half_past_nine (omega arith) (omega arith) (omega arith)

minutes-place_example :
    minutes (place monday (some office_hours) (east_of_utc 420)) ≡ pos (shift_length 540 1020)
minutes-place_example =
    minutes-place monday office_hours 420 (omega arith) (omega arith) (omega arith) (omega arith)

pick_runs : pick_shift half_past_nine jakarta three_plan ≡ ok monday_shift
unfolding pick_shift
pick_runs = refl

pick_shift-PickedFrom_example : PickedFrom half_past_nine jakarta three_plan monday_shift
pick_shift-PickedFrom_example =
    pick_shift-PickedFrom half_past_nine jakarta three_plan monday_shift pick_runs

locate_lem_example :
    ((head_office ∷ [] ≡ [])
      × (locate far_apart (head_office ∷ []) (pos 0) (pos 0) ≡ (none, false)))
    ⊎ Chosen far_apart
        (pos 0)
        (pos 0)
        (head_office ∷ [])
        (locate far_apart (head_office ∷ []) (pos 0) (pos 0))
locate_lem_example = locate_lem far_apart (head_office ∷ []) (pos 0) (pos 0)

decide_runs : decide_correction gate with_ask boss 1 Decision.approved [] ≡ ok (granted, with_grant)
unfolding decide_correction check_note reach in_subtree approve meets_checks corrected hours_for
    measure late_minutes whole_minutes quot_ℤ sub_time ◌-ℤ◌ min_ℤ max_ℤ place
decide_runs = refl

arrived-checked : meets_checks arrived ≡ true
unfolding meets_checks
arrived-checked = refl

with_ask-IsSound : IsSound with_ask
with_ask-IsSound = record {
  one_a_day = (tt, tt);
  keyed = (tt, tt);
  issued = (omega arith, tt);
  checked = (arrived-checked, tt);
  one_pending = (tt, tt);
  corrections_keyed = (tt, tt);
  corrections_issued = (omega arith, tt);
}

decide_correction_lem_example :
    DecidedCorrection gate with_ask boss 1 Decision.approved [] granted with_grant
decide_correction_lem_example =
    decide_correction_lem gate with_ask boss 1 Decision.approved [] granted with_grant
      with_ask-IsSound decide_runs

check_in_runs_again : check_in next_day with_grant 1 second_photo ≡ ok (arrived_again, with_second)
unfolding check_in check_mark plan_days check_range resolve pick_shift evidence create meets_checks
    late_minutes quot_ℤ ◌-ℤ◌ min_ℤ max_ℤ
check_in_runs_again = refl

closed_forever_example : correction_by_id with_second 1 ≡ ok granted
closed_forever_example =
    closed_forever with_grant with_second 1 granted
      (Reach.next Reach.here
        (Step.checked_in next_day 1 second_photo arrived_again check_in_runs_again))
      refl refl

check_out_runs : check_out half_past_four with_arrival 1 second_photo ≡ ok (left, with_leaving)
unfolding check_out check_mark open_check_in place evidence store_check_out meets_checks
    early_leave_minutes quot_ℤ min_ℤ max_ℤ
check_out_runs = refl

with_arrival-IsSound : IsSound with_arrival
with_arrival-IsSound = record {
  one_a_day = (tt, tt);
  keyed = (tt, tt);
  issued = (omega arith, tt);
  checked = (arrived-checked, tt);
  one_pending = tt;
  corrections_keyed = tt;
  corrections_issued = tt;
}

check_out_lem_example : CheckedOut half_past_four with_arrival 1 second_photo left with_leaving
check_out_lem_example =
    check_out_lem half_past_four with_arrival 1 second_photo left with_leaving with_arrival-IsSound
      check_out_runs
