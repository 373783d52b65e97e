-- ===== src/Outbox/Tries.antt =====
-- How often one row is tried, as in outbox.fake.ts: a claim counts an attempt, and a row that is
-- pending again, or a summary whose finish took no effect, is claimed again.
use ap_academy_landing.Prelude.{
  ℕ, zero, suc, ◌+◌, ◌<◌, ◌≡◌, Bool, true, false, Option, none, some, if◌then◌else◌, some_or,
}
use ap_academy_landing.Outbox.{
  DailyAnswer, FinishStatus, Moment, OutboxFinish, OutboxKind, OutboxRow, daily_task,
  deliver_safely, done, max_attempts, pending, summary,
}

abbrev pub is_pending : FinishStatus → Bool
is_pending pending = true
is_pending done = false
is_pending FinishStatus.failed = false
is_pending FinishStatus.uncertain = false

-- The row as `claim` returns it.
abbrev pub claimed_row : OutboxRow → OutboxRow
claimed_row row = record row { attempts = row.attempts + 1 }

-- The row after `finish`.
abbrev pub finished_row : OutboxRow → OutboxFinish → OutboxRow
finished_row row patch = record row { attempts = some_or patch.attempts row.attempts }

-- The row that the next claim finds, by whether the finish took effect.
abbrev pub kept_row : Bool → OutboxRow → OutboxFinish → OutboxRow
kept_row true row patch = finished_row row patch
kept_row false row patch = row

-- The status in which a row ends, where `later` is what the later claims make of it. A finish that
-- took no effect leaves the row running, and after its lease a summary is claimed again and a daily
-- task is uncertain.
abbrev pub ending : Bool → OutboxKind → FinishStatus → Option FinishStatus → Option FinishStatus
ending true kind status later = if is_pending status then later else some status
ending false summary status later = later
ending false daily_task status later = some FinishStatus.uncertain

-- The status in which the row ends within so many claims, if it does.
unfoldable pub end_within : ℕ → (ℕ → Moment) → OutboxRow → Option FinishStatus
unfolding deliver_safely
end_within zero moments row = none
end_within (suc n) moments row =
    let claimed = claimed_row row in
    let patch = (deliver_safely (moments 0) claimed).finish in
    let stores = (moments 0).stores in
    let later = end_within n (λ i. moments (suc i)) (kept_row stores claimed patch) in
    ending stores row.kind patch.status later

-- Another run holds today's task.
abbrev pub is_busy : Option DailyAnswer → Bool
is_busy none = false
is_busy (some DailyAnswer.busy) = true
is_busy (some DailyAnswer.created) = false
is_busy (some DailyAnswer.updated) = false
is_busy (some DailyAnswer.unchanged) = false
is_busy (some DailyAnswer.skipped) = false
is_busy (some (DailyAnswer.uncertain error)) = false
is_busy (some (DailyAnswer.failed error)) = false
is_busy (some (DailyAnswer.throws error)) = false

-- The row, if it is pending again, keeps its attempts, which are not yet `max_attempts`.
abbrev pub MayGoOn : OutboxRow → OutboxFinish → Type 0
MayGoOn row patch =
    is_pending patch.status ≡ true → (patch.attempts ≡ none) × (row.attempts < max_attempts)
