-- ===== src/Schedule/PlanTests.antt =====
-- Witnesses of the theorems on the writes of schedule/service.go.
use attendance_system.Prelude.{
  ◌+◌, ◌-◌, ◌*◌, ◌≡◌, refl, ◌⊎◌, true, false, none, some, List, [], ◌∷◌, arith, ok, err, pos,
}
use attendance_system.Text.{trim}
use attendance_system.Access.{Role, Claims}
use attendance_system.Time.{day_length}
use attendance_system.Schedule.Rows.{WorkSchedule, ShiftAssignment}
use attendance_system.Db.{Db}
use attendance_system.Schedule.Resolve.{Reason, worked_unless_holiday, resolve}
use attendance_system.Schedule.Roster.{inputs_on}
use attendance_system.Schedule.Validation.{check_name, check_workdays, check_schedule}
use attendance_system.Schedule.Clock.{parse_clock}
use attendance_system.Schedule.Store.{already_exists, schedule_fits}
use attendance_system.Schedule.RosterStore.{put_rows, lock_assignments, upsert_assignments}
use attendance_system.Schedule.Planning.{Host, Hours, build_schedule, add_schedule}
use attendance_system.Schedule.Assigning.{
  Assignment, check_each, check_assignments, audit_assigned, assign,
}
use attendance_system.Schedule.RosterMap.{entry, assign-overlaid}
use attendance_system.Schedule.RosterAudit.{changed_entry, assign-audit_logs}
use attendance_system.Schedule.Steps.{Step, Reach}
use attendance_system.Schedule.Sound.{IsSound}
use attendance_system.Schedule.Reached.{Reach-schedule_IsSound}
use attendance_system.Schedule.Rostered.{assign-resolve}
use attendance_system.Schedule.Fitting.{name_taken, stored, with_schedule, add_schedule_lem}
use attendance_system.Samples.{monday, office_hours, company, jakarta, half_past_nine}

abbrev hr_3 : Claims
hr_3 = record { user_id = 3; role = Role.hr_admin }

abbrev planner : Host
planner = record { now = half_past_nine; zone = jakarta; lower = λ t. t }

abbrev sunday_off : ShiftAssignment
sunday_off = record { id = 1; user_id = 1; work_date = monday - 1; schedule_id = none; note = [] }

abbrev rostered_company : Db
rostered_company = record company { shift_assignments = sunday_off ∷ []; next_assignment_id = 2 }

abbrev two_rows : List Assignment
two_rows =
    record { user_id = 1; work_date = (monday - 1) * day_length; schedule_id = some 1; note = [] }
    ∷ record { user_id = 2; work_date = (monday + 1) * day_length; schedule_id = none; note = [] }
    ∷ []

abbrev sunday_on : ShiftAssignment
sunday_on = record sunday_off { schedule_id = some 1 }

abbrev tuesday_off : ShiftAssignment
tuesday_off = record { id = 2; user_id = 2; work_date = monday + 1; schedule_id = none; note = [] }

abbrev replanned : Db
replanned = record rostered_company {
  shift_assignments = sunday_on ∷ tuesday_off ∷ [];
  next_assignment_id = 3;
  audit_logs = changed_entry rostered_company hr_3 sunday_on ∷ [];
}

assign_runs :
    assign planner rostered_company hr_3 two_rows ≡ ok (sunday_on ∷ tuesday_off ∷ [], replanned)
unfolding assign check_assignments check_each upsert_assignments put_rows lock_assignments
    audit_assigned
assign_runs = refl

assign-overlaid_example : entry replanned 1 (monday - 1) ≡ some (some 1, [])
assign-overlaid_example =
    assign-overlaid planner rostered_company hr_3 two_rows (sunday_on ∷ tuesday_off ∷ []) replanned
      1 (monday - 1) assign_runs

assign-audit_logs_example :
    replanned.audit_logs ≡ changed_entry rostered_company hr_3 sunday_on ∷ []
assign-audit_logs_example =
    assign-audit_logs planner rostered_company hr_3 two_rows (sunday_on ∷ tuesday_off ∷ [])
      replanned assign_runs

assign-resolve_example :
    resolve (monday - 1) (inputs_on replanned 1 (some 1) (monday - 1))
    ≡ worked_unless_holiday (monday - 1) [] Reason.shift office_hours
assign-resolve_example =
    assign-resolve planner rostered_company hr_3 two_rows (sunday_on ∷ tuesday_off ∷ []) replanned 1
      (some 1) (monday - 1) (record sunday_on { id = 0 }) assign_runs refl

abbrev night : Hours
night = record {
  name = b'n' ∷ [];
  start_time = b'2' ∷ b'2' ∷ b':' ∷ b'0' ∷ b'0' ∷ [];
  end_time = b'0' ∷ b'6' ∷ b':' ∷ b'0' ∷ b'0' ∷ [];
  grace_minutes = pos 10;
  break_minutes = pos 30;
  workdays = pos 7 ∷ pos 1 ∷ pos 7 ∷ [];
  observes_holidays = false;
}

abbrev night_row : WorkSchedule
night_row = record {
  id = 0;
  name = b'n' ∷ [];
  start_time = 1320;
  end_time = 360;
  grace_minutes = 10;
  break_minutes = 30;
  workdays = 1 ∷ 7 ∷ [];
  observes_holidays = false;
  deleted = false;
}

build_runs : build_schedule hr_3 night ≡ ok night_row
unfolding build_schedule check_name trim check_workdays parse_clock check_schedule
build_runs = refl

add_schedule_lem_example :
    ((name_taken planner company night_row ≡ true)
      × (add_schedule planner company hr_3 night ≡ err already_exists))
    ⊎ ((name_taken planner company night_row ≡ false)
        × (add_schedule planner company hr_3 night
            ≡ ok (stored company night_row, with_schedule company (stored company night_row))))
add_schedule_lem_example = add_schedule_lem planner company hr_3 night night_row build_runs

rostered_company-IsSound : IsSound (λ t. t) rostered_company
unfolding schedule_fits
rostered_company-IsSound = record {
  schedules = record {
    ids = record { keys = (tt, tt); below = (omega arith, tt) };
    names = (tt, tt);
    fit = (refl, tt);
  };
  holidays = record { ids = record { keys = tt; below = tt }; one_per_date = tt };
  locations = record { ids = record { keys = tt; below = tt }; names = tt; fit = tt };
  slots = record {
    ids = record { keys = (tt, tt); below = (omega arith, tt) };
    one_per_slot = (tt, tt);
  };
}

Reach-schedule_IsSound_example : IsSound (λ t. t) replanned
Reach-schedule_IsSound_example =
    Reach-schedule_IsSound (λ t. t) rostered_company replanned rostered_company-IsSound
      (Reach.next Reach.here
        (Step.assigned planner hr_3 two_rows (sunday_on ∷ tuesday_off ∷ []) assign_runs))
