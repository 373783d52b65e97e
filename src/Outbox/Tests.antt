-- ===== src/Outbox/Tests.antt =====
-- A row that Notion keeps refusing and whose first finishes are lost, and the theorems of the component at it.
use ap_academy_landing.Prelude.{ℕ, ◌+◌, ◌*◌, ◌≤◌, max, ◌≡◌, refl, none, some, some_or, leb}
use ap_academy_landing.Outbox.{
  FinishStatus, Moment, OutboxRow, SummaryAnswer, max_attempts, next_attempt_at, notion, summary,
}
use ap_academy_landing.Outbox.Bounds.{until_limited, next_attempt_at-bounds}
use ap_academy_landing.Outbox.Tries.{end_within}

abbrev owed_row : OutboxRow
owed_row = record { id = "x1"; kind = summary; target_id = "p1"; attempts = 0 }

abbrev refusing : ℕ → Moment
refusing i = record {
  clock = 1000;
  claim = some (some owed_row);
  now = 1000;
  summary_answer = some (SummaryAnswer.failed (notion (some 429) (some 7200)));
  daily_answer = none;
  stores = leb 3 i;
}

next_attempt_at-bounds_example :
    (1000 + 30000 ≤ next_attempt_at 3 1000 (some 7200))
    × (next_attempt_at 3 1000 (some 7200) ≤ 1000 + max 3600 (some_or (some 7200) 0) * 1000)
next_attempt_at-bounds_example = next_attempt_at-bounds 3 1000 (some 7200)

stops_at_once : until_limited 10 refusing ≡ 1
unfolding until_limited
stops_at_once = refl

-- It ends as failed at its eighth claim, though the first three finishes are lost.
ends_failed : end_within max_attempts refusing owed_row ≡ some FinishStatus.failed
unfolding end_within
ends_failed = refl
