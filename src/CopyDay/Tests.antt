-- ===== src/CopyDay/Tests.antt =====
-- A concrete copy, and the theorem of the component at it.
use ap_academy_landing.Prelude.{ℕ, ◌≡◌, true, not, ◌&&◌, none, [], ◌∷◌, map, ◌==◌, any}
use ap_academy_landing.CopyDay.{CopyWindow, plan_copy, has_span, times_of, on_day}
use ap_academy_landing.CopyDay.Plan.{has_window, kept, has_window-plan_copy}

-- Mondays 16:00 to 18:00, and the same hours on Tuesdays
abbrev hours_on : ℕ → CopyWindow
hours_on day = record {
  id = "w";
  window = record {
    weekday = day;
    start_time = 960;
    end_time = 1080;
    effective_from = 740000;
    effective_until = none;
  };
}

has_window-plan_copy_example :
    has_window 2
      (960, 1080)
      (plan_copy (hours_on 1 ∷ hours_on 2 ∷ []) 1 (2 ∷ 3 ∷ []) true 740294).creates
    ≡ ((any (λ x. x == 2) (2 ∷ 3 ∷ []) && not (2 == 1))
        && (has_span (map times_of (on_day 1 740294 (hours_on 1 ∷ hours_on 2 ∷ []))) (960, 1080)
            && not (has_span (kept (hours_on 1 ∷ hours_on 2 ∷ []) true 740294 2) (960, 1080))))
has_window-plan_copy_example =
    has_window-plan_copy (hours_on 1 ∷ hours_on 2 ∷ []) 1 (2 ∷ 3 ∷ []) true 740294 2 (960, 1080)
