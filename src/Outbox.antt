-- ===== src/Outbox.antt =====
-- apps/tracker/lib/scheduler/outbox.ts and notion-errors.ts: delivering the exports to Notion that
-- class writes owe. The texts of errors are left out, and a delivery's calls to Notion are answered by
-- the moment of the round.
pub mod Bounds
pub mod Tries
mod Tests
use Prim.Native.Nat.{◌^◌}
use ap_academy_landing.Prelude.{
  ℕ, zero, suc, ◌+◌, ◌-◌, ◌*◌, min, max, String, Bool, true, false, not, ◌||◌, Option, none, some,
  List, [], ◌∷◌, leb, ◌==◌, if◌then◌else◌, some_or,
}
use ap_academy_landing.Wallclock.{Instant}

-- What a call can throw: an error of Notion, with its status and its Retry-After, a `RenderError`, or
-- another error.
pub data Failure : Type 0 where
  notion : Option ℕ → Option ℕ → Failure
  render other : Failure

abbrev pub is_retryable_status : Option ℕ → Bool
is_retryable_status none = true
is_retryable_status (some s) = s == 429 || leb 500 s

unfoldable pub is_retryable : Failure → Bool
is_retryable (notion status retry_after) = is_retryable_status status
is_retryable render = false
is_retryable other = true

abbrev pub is_limit : Option ℕ → Bool
is_limit none = false
is_limit (some s) = s == 429

abbrev pub is_rate_limited : Failure → Bool
is_rate_limited (notion status retry_after) = is_limit status
is_rate_limited render = false
is_rate_limited other = false

abbrev pub retry_after_of : Failure → Option ℕ
retry_after_of (notion status retry_after) = retry_after
retry_after_of render = none
retry_after_of other = none

pub data OutboxKind : Type 0 where
  summary daily_task : OutboxKind

pub record OutboxRow : Type 0 where
  pub id : String
  pub kind : OutboxKind
  pub target_id : String
  pub attempts : ℕ

pub data FinishStatus : Type 0 where
  done pending failed uncertain : FinishStatus

pub record OutboxFinish : Type 0 where
  pub status : FinishStatus
  pub attempts : Option ℕ
  pub next_attempt_at : Option Instant

-- `SyncResult`, `DailyTaskResult` and "not_configured"
pub data DeliveryResult : Type 0 where
  synced skipped failed created updated unchanged busy uncertain not_configured : DeliveryResult

-- What `syncStudentSummaryDetail` and `ensureDailyTaskDetail` answer; either can throw.
pub data SummaryAnswer : Type 0 where
  synced skipped : SummaryAnswer
  failed throws : Failure → SummaryAnswer

pub data DailyAnswer : Type 0 where
  created updated unchanged skipped busy : DailyAnswer
  uncertain failed throws : Failure → DailyAnswer

pub record Delivery : Type 0 where
  pub finish : OutboxFinish
  pub result : DeliveryResult
  pub error : Option Failure

abbrev pub max_attempts : ℕ
max_attempts = 8

abbrev pub base_delay_s : ℕ
base_delay_s = 30

abbrev pub max_delay_s : ℕ
max_delay_s = 3600

abbrev pub busy_delay_s : ℕ
busy_delay_s = 30

unfoldable pub next_attempt_at : ℕ → Instant → Option ℕ → Instant
next_attempt_at attempts now retry_after =
    let backoff = min (base_delay_s * 2 ^ (attempts - 1)) max_delay_s in
    now + max backoff (some_or retry_after 0) * 1000

abbrev pub ended : FinishStatus → OutboxFinish
ended status = record { status = status; attempts = none; next_attempt_at = none }

unfoldable pub after_failure : OutboxRow → Failure → Instant → OutboxFinish
unfolding is_retryable next_attempt_at
after_failure row error now =
    if not (is_retryable error) || leb max_attempts row.attempts
    then ended FinishStatus.failed
    else record {
      status = pending;
      attempts = none;
      next_attempt_at = some (next_attempt_at row.attempts now (retry_after_of error));
    }

abbrev pub completed : DeliveryResult → Delivery
completed result = record { finish = ended done; result = result; error = none }

abbrev pub failure_of : OutboxRow → Failure → Instant → Delivery
failure_of row error now = record {
  finish = after_failure row error now;
  result = DeliveryResult.failed;
  error = some error;
}

abbrev pub deliver_summary : OutboxRow → Instant → Option SummaryAnswer → Delivery
deliver_summary row now none = completed not_configured
deliver_summary row now (some SummaryAnswer.synced) = completed DeliveryResult.synced
deliver_summary row now (some SummaryAnswer.skipped) = completed DeliveryResult.skipped
deliver_summary row now (some (SummaryAnswer.failed error)) = failure_of row error now
deliver_summary row now (some (SummaryAnswer.throws error)) = failure_of row error now

-- Another run holds today's task: that is no attempt.
abbrev pub held_back : OutboxRow → Instant → Delivery
held_back row now = record {
  finish = record {
    status = pending;
    attempts = some (row.attempts - 1);
    next_attempt_at = some (now + busy_delay_s * 1000);
  };
  result = DeliveryResult.busy;
  error = none;
}

abbrev pub deliver_daily : OutboxRow → Instant → Option DailyAnswer → Delivery
deliver_daily row now none = completed not_configured
deliver_daily row now (some DailyAnswer.created) = completed DeliveryResult.created
deliver_daily row now (some DailyAnswer.updated) = completed DeliveryResult.updated
deliver_daily row now (some DailyAnswer.unchanged) = completed DeliveryResult.unchanged
deliver_daily row now (some DailyAnswer.skipped) = completed DeliveryResult.skipped
deliver_daily row now (some DailyAnswer.busy) = held_back row now
deliver_daily row now (some (DailyAnswer.uncertain error)) = record {
  finish = ended FinishStatus.uncertain;
  result = DeliveryResult.uncertain;
  error = some error;
}
deliver_daily row now (some (DailyAnswer.failed error)) = failure_of row error now
deliver_daily row now (some (DailyAnswer.throws error)) = failure_of row error now

-- One round of a drain: the clock when it begins, the row that is claimed (none where the claim throws,
-- `some none` where no row is due), the time of the delivery, and the answers of the two ports, which
-- are none where they are not wired in; and whether the finish of the row took effect, since a storage
-- error there is caught.
pub record Moment : Type 0 where
  pub clock : Instant
  pub claim : Option (Option OutboxRow)
  pub now : Instant
  pub summary_answer : Option SummaryAnswer
  pub daily_answer : Option DailyAnswer
  pub stores : Bool

abbrev pub deliver_kind : OutboxKind → Moment → OutboxRow → Delivery
deliver_kind summary m row = deliver_summary row m.now m.summary_answer
deliver_kind daily_task m row = deliver_daily row m.now m.daily_answer

-- `deliverSafely`
unfoldable pub deliver_safely : Moment → OutboxRow → Delivery
unfolding after_failure
deliver_safely m row = deliver_kind row.kind m row

pub record Delivered : Type 0 where
  pub id : String
  pub kind : OutboxKind
  pub target_id : String
  pub status : FinishStatus
  pub result : DeliveryResult

abbrev pub delivered_of : OutboxRow → Delivery → Delivered
delivered_of row d = record {
  id = row.id;
  kind = row.kind;
  target_id = row.target_id;
  status = d.finish.status;
  result = d.result;
}

abbrev pub stops_at : Option Failure → Bool
stops_at none = false
stops_at (some error) = is_rate_limited error

-- From the claim on, in one round; `rest` is what the later rounds deliver.
abbrev pub after_claim : Moment → Option (Option OutboxRow) → List Delivered → List Delivered
after_claim m none rest = []
after_claim m (some none) rest = []
after_claim m (some (some row)) rest =
    let d = deliver_safely m row in delivered_of row d ∷ (if stops_at d.error then [] else rest)

-- The loop, with the number of rounds that are left.
unfoldable pub drain_from : ℕ → ℕ → (ℕ → Moment) → Instant → List Delivered
unfolding deliver_safely
drain_from budget zero moments started = []
drain_from budget (suc left) moments started =
    let rest = drain_from budget left (λ i. moments (suc i)) started in
    if leb budget ((moments 0).clock - started)
    then []
    else after_claim (moments 0) (moments 0).claim rest

-- `drainOutbox`; `owes_nothing` is whether the caller gave an empty list of ids.
unfoldable pub drain_outbox : ℕ → ℕ → Bool → (ℕ → Moment) → Instant → List Delivered
unfolding drain_from
drain_outbox limit budget owes_nothing moments started =
    if owes_nothing then [] else drain_from budget limit moments started
