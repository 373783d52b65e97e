-- ===== src/Billing/Charge.antt =====
-- apps/tracker/lib/domain/billing/charge-state.ts: whether a class is chargeable.
use ap_academy_landing.Prelude.{
  Bool, true, false, Option, none, some, if◌then◌else◌, ◌≡◌, not, ◌&&◌, ◌||◌, arith,
}
use ap_academy_landing.Recurrence.{ClassPurpose, trial, extra, SeriesKind, Status, is_cancelled}

pub data ChargeStateName : Type 0 where
  chargeable credit_owed made_up forfeit_pending not_charged : ChargeStateName

pub data OutcomeName : Type 0 where
  delivered no_show not_recorded : OutcomeName

pub data MakeupState : Type 0 where
  unlinked linked made : MakeupState

pub record ChargeInput : Type 0 where
  pub status : Status
  pub kind : SeriesKind
  pub purpose : Option ClassPurpose
  pub past : Bool
  pub outcome : OutcomeName
  pub outcome_pending : Bool
  pub makeup : MakeupState

pub record ChargeResult : Type 0 where
  pub state : ChargeStateName
  pub unconfirmed : Bool

abbrev pub is_delivered : OutcomeName → Bool
is_delivered delivered = true
is_delivered no_show = false
is_delivered not_recorded = false

abbrev pub is_no_show : OutcomeName → Bool
is_no_show no_show = true
is_no_show delivered = false
is_no_show not_recorded = false

abbrev pub is_made : MakeupState → Bool
is_made made = true
is_made unlinked = false
is_made linked = false

abbrev pub is_makeup : Option ClassPurpose → Bool
is_makeup none = false
is_makeup (some ClassPurpose.makeup) = true
is_makeup (some trial) = false
is_makeup (some extra) = false

abbrev result : ChargeStateName → Bool → ChargeResult
result state unconfirmed = record { state = state; unconfirmed = unconfirmed }

-- `not_recorded`, `unlinked` and `made` are the source's `"none"`, `"none"` and `"delivered"`.
-- The rules in order; the first that matches decides.
unfoldable pub charge_state : ChargeInput → ChargeResult
charge_state i =
    if is_cancelled i.status
    then result (if is_made i.makeup then not_charged else credit_owed) false
    else if is_no_show i.outcome
    then result forfeit_pending false
    else if is_makeup i.purpose
    then (if is_delivered i.outcome
        then result made_up i.outcome_pending
        else result not_charged i.past)
    else if is_delivered i.outcome
    then result chargeable i.outcome_pending
    else if i.past
    then result chargeable true
    else result not_charged false

abbrev pub is_chargeable : ChargeStateName → Bool
is_chargeable chargeable = true
is_chargeable credit_owed = false
is_chargeable made_up = false
is_chargeable forfeit_pending = false
is_chargeable not_charged = false

abbrev pub is_credit_owed : ChargeStateName → Bool
is_credit_owed credit_owed = true
is_credit_owed chargeable = false
is_credit_owed made_up = false
is_credit_owed forfeit_pending = false
is_credit_owed not_charged = false

abbrev pub is_made_up : ChargeStateName → Bool
is_made_up made_up = true
is_made_up chargeable = false
is_made_up credit_owed = false
is_made_up forfeit_pending = false
is_made_up not_charged = false

abbrev pub is_forfeit : ChargeStateName → Bool
is_forfeit forfeit_pending = true
is_forfeit chargeable = false
is_forfeit credit_owed = false
is_forfeit made_up = false
is_forfeit not_charged = false

-- The class was held, or may have been: not cancelled, and no no-show is recorded.
abbrev pub took_place : ChargeInput → Bool
took_place i = not (is_cancelled i.status) && not (is_no_show i.outcome)

-- When each charge arises. A class that took place is charged once delivered or past, unless it is a
-- makeup, which is made up once delivered; a cancelled class is owed a credit until its makeup is
-- delivered; a no-show is forfeited; and a result is unconfirmed while a delivered lesson is pending
-- or a past class has no outcome.
pub charge_state-table :
    (i : ChargeInput)
    → (is_chargeable (charge_state i).state
        ≡ (took_place i && (not (is_makeup i.purpose) && (is_delivered i.outcome || i.past))))
      × (is_made_up (charge_state i).state
          ≡ (took_place i && (is_makeup i.purpose && is_delivered i.outcome)))
      × (is_credit_owed (charge_state i).state ≡ (is_cancelled i.status && not (is_made i.makeup)))
      × (is_forfeit (charge_state i).state ≡ (not (is_cancelled i.status) && is_no_show i.outcome))
      × ((charge_state i).unconfirmed
          ≡ (took_place i && (if is_delivered i.outcome then i.outcome_pending else i.past)))
unfolding charge_state
charge_state-table i = (ground arith, ground arith, ground arith, ground arith, ground arith)
