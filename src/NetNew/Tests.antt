-- ===== src/NetNew/Tests.antt =====
-- A concrete week, and the theorem of the component at it.
use ap_academy_landing.NetNew.Rounds.{kept, counted_events, opening_minutes, round}
use ap_academy_landing.NetNew.Balance.{
  imported, in_next_week, is_first_loss, is_gain, is_later_loss,
}
use ap_academy_landing.Ids.{same_id}
use ap_academy_landing.Prelude.{◌+◌, ◌≡◌, refl, false, none, some, [], ◌∷◌, sum_by}
use ap_academy_landing.Recurrence.{SeriesKind}
use ap_academy_landing.NetNew.Opening.{opening_minutes-in_next_week}
use ap_academy_landing.NetNew.Totals.{minutes_where, gross-net_new_hours}
use ap_academy_landing.NetNew.{SeriesFact, NetNewInput, ok, active, distinct_from}
use ap_academy_landing.NetNew.Result.{net_new_hours, figures_of}

-- A series of 60 minutes that starts on 2026-11-10, in the week of Monday 2026-11-09
abbrev new_series : SeriesFact
new_series = record {
  id = "s1";
  student_id = "p-1";
  staff_id = "t1";
  kind = SeriesKind.weekly;
  purpose = none;
  start_date = 740295;
  effective_until = none;
  duration_minutes = 60;
  created_at = some 2;
}

abbrev one_week : NetNewInput
one_week = record {
  week = record { from = 740294; to = 740300 };
  today = 740299;
  series = new_series ∷ [];
  adoptions = record { student_id = "P1"; adopted_at = some 1 } ∷ [];
  people = ok (record {
    stale = false;
    synced_at = none;
    students = record { id = "p1"; stage = active } ∷ [];
  });
  payments = ok (λ id. record { invoice_id = "i1"; paid_on = some 740290 } ∷ []);
}

gross-net_new_hours_example :
    let r = net_new_hours one_week in
    let f = figures_of r.counted (opening_minutes one_week) in
    (r.figures ≡ some f)
    × (r.gross_additions ≡ f.additions_verified + f.additions_unverified)
    × (r.gross_reductions ≡ f.reductions_verified + f.reductions_unverified)
gross-net_new_hours_example = gross-net_new_hours one_week refl

sixty_verified : (net_new_hours one_week).gross_additions ≡ 60
unfolding net_new_hours counted_events round distinct_from same_id
sixty_verified = refl

opening_minutes-in_next_week_example :
    let next = in_next_week one_week in
    opening_minutes next
      + minutes_where (is_later_loss 740294) (counted_events one_week)
      + minutes_where (is_first_loss next.week.from) (counted_events next)
    ≡ opening_minutes one_week
      + minutes_where is_gain (counted_events one_week)
      + sum_by (imported next) (kept one_week)
opening_minutes-in_next_week_example = opening_minutes-in_next_week one_week refl (tt, tt)
