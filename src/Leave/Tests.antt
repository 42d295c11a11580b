-- ===== src/Leave/Tests.antt =====
-- Runs of the leave module and the theorems at concrete inputs.
use attendance_system.Prelude.{◌≡◌, refl, none, some, [], ◌∷◌, arith, ok, pos, ◌+ℤ◌, ◌-ℤ◌}
use attendance_system.Text.{trim}
use attendance_system.Time.Calendar.{new_year, year_of}
use attendance_system.Schedule.Validation.{check_range}
use attendance_system.Schedule.Resolve.{resolve}
use attendance_system.Schedule.Roster.{plan_days}
use attendance_system.Leave.Rows.{Quota, Status, Leave, remaining_days}
use attendance_system.Leave.Validation.{check_filing, check_rules, check_note, check_quota}
use attendance_system.Leave.Store.{create, leave_by_id, settle}
use attendance_system.Leave.TypeStore.{set_quota}
use attendance_system.Leave.Requests.{
  new_leave, request, cancelled_by, may_cancel, cancel, Decision, decide,
}
use attendance_system.Samples.{
  annual, company, half_past_nine, leave_host, three_days, filed, with_request,
}
use attendance_system.Access.{Role, Claims}
use attendance_system.User.Hierarchy.{in_subtree, reach}
use attendance_system.Leave.Checks.{MeetsChecks}
use attendance_system.Leave.Steps.{Step, Reach}
use attendance_system.Leave.Sound.{IsSound, Reach-IsSound}
use attendance_system.Leave.Lifecycle.{Later, Step-Later, settled_forever, DecidedBy, decide_lem}
use attendance_system.Leave.Quotas.{left_for, TakenOnce, request_quota}
use attendance_system.Leave.Release.{cancel_quota}
use attendance_system.Db.{Db}
use attendance_system.Leave.Types.{assign_quota}
use attendance_system.Leave.Allowance.{replaced_entry, QuotaSet, assign_quota_lem}

request_runs : request leave_host company 1 three_days ≡ ok (filed, with_request)
unfolding request check_filing check_range trim plan_days resolve check_rules create new_leave
    year_of new_year remaining_days ◌+ℤ◌ ◌-ℤ◌
request_runs = refl

request_quota_example : TakenOnce company with_request filed annual
request_quota_example =
    request_quota leave_host company 1 three_days filed with_request annual (tt, tt) refl refl
      request_runs

-- Their manager approves it.
abbrev supervisor_2 : Claims
supervisor_2 = record { user_id = 2; role = Role.supervisor }

abbrev approved : Leave
approved = record filed {
  status = Status.approved;
  reviewed_by = some 2;
  reviewed_at = some half_past_nine;
}

abbrev with_approval : Db
with_approval = record with_request { leave_requests = approved ∷ [] }

decide_runs :
    decide leave_host with_request supervisor_2 1 Decision.approve [] ≡ ok (approved, with_approval)
unfolding decide check_note reach in_subtree settle
decide_runs = refl

filed-MeetsChecks : MeetsChecks filed
filed-MeetsChecks = record {
  dates = omega arith;
  some_days = omega arith;
  attachment_whole = refl;
  cancel_whole = refl;
  cancel_dated = refl;
}

with_request-IsSound : IsSound with_request
with_request-IsSound = record {
  no_overlap = (tt, tt);
  keyed = (tt, tt);
  issued = (omega arith, tt);
  checked = (filed-MeetsChecks, tt);
}

decide_lem_example :
    DecidedBy leave_host with_request supervisor_2 1 Decision.approve [] approved with_approval
decide_lem_example =
    decide_lem leave_host with_request supervisor_2 1 Decision.approve [] approved with_approval
      with_request-IsSound decide_runs

-- The employee withdraws it before it starts.
abbrev employee_1 : Claims
employee_1 = record { user_id = 1; role = Role.employee }

abbrev withdrawn : Leave
withdrawn = cancelled_by 1 half_past_nine approved

abbrev with_withdrawal : Db
with_withdrawal = record with_request { leave_requests = withdrawn ∷ [] }

cancel_runs : cancel leave_host with_approval employee_1 1 ≡ ok (withdrawn, with_withdrawal)
unfolding cancel may_cancel settle
cancel_runs = refl

cancel_quota_example :
    left_for with_withdrawal withdrawn annual ≡ left_for with_approval withdrawn annual +ℤ pos 3
cancel_quota_example =
    cancel_quota leave_host with_approval employee_1 1 withdrawn with_withdrawal annual (tt, tt)
      refl cancel_runs

whole_life : Reach with_request with_withdrawal
whole_life =
    Reach.next
      (Reach.next Reach.here
        (Step.decided leave_host supervisor_2 1 Decision.approve [] approved decide_runs))
      (Step.cancelled leave_host employee_1 1 withdrawn cancel_runs)

Reach-IsSound_example : IsSound with_withdrawal
Reach-IsSound_example = Reach-IsSound with_request with_withdrawal with_request-IsSound whole_life

Step-Later_example : (r : Leave) × (leave_by_id with_approval 1 ≡ ok r) × Later filed r
Step-Later_example =
    Step-Later with_request with_approval 1 filed
      (Step.decided leave_host supervisor_2 1 Decision.approve [] approved decide_runs) refl

-- After the withdrawal the same days are filed anew.
abbrev filed_again : Leave
filed_again = record filed { id = 2 }

abbrev with_second : Db
with_second = record with_withdrawal {
  leave_requests = withdrawn ∷ filed_again ∷ [];
  next_leave_id = 3;
}

request_runs_again : request leave_host with_withdrawal 1 three_days ≡ ok (filed_again, with_second)
unfolding request check_filing check_range trim plan_days resolve check_rules create new_leave
    year_of new_year remaining_days ◌+ℤ◌ ◌-ℤ◌
request_runs_again = refl

settled_forever_example : leave_by_id with_second 1 ≡ ok withdrawn
settled_forever_example =
    settled_forever with_withdrawal with_second 1 withdrawn
      (Reach.next Reach.here
        (Step.requested leave_host 1 three_days filed_again request_runs_again))
      refl refl

-- hr_admin gives the employee twenty days for 2026.
abbrev hr_3 : Claims
hr_3 = record { user_id = 3; role = Role.hr_admin }

abbrev twenty_days : Quota
twenty_days = record {
  user_id = 1;
  leave_type_id = 1;
  year = 2026;
  quota_days = pos 20;
  carried_over_days = pos 0;
}

abbrev with_quota : Db
with_quota = record company {
  leave_balances = twenty_days ∷ [];
  audit_logs = replaced_entry hr_3 none twenty_days ∷ [];
}

assign_quota_runs : assign_quota company hr_3 twenty_days none ≡ ok (twenty_days, with_quota)
unfolding assign_quota set_quota check_quota
assign_quota_runs = refl

assign_quota_lem_example : QuotaSet company hr_3 twenty_days none twenty_days with_quota
assign_quota_lem_example =
    assign_quota_lem company hr_3 twenty_days none twenty_days with_quota assign_quota_runs
