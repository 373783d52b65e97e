-- ===== src/Sends/Rows.antt =====
-- The operations of the store on the send of a draft, as store.fake.ts has them.
use ap_academy_landing.Prelude.{
  ℕ, ◌+◌, String, Bool, true, false, not, ◌&&◌, ◌||◌, Option, none, some, ltb, leb, ◌==◌,
  if◌then◌else◌, str_eq, is_some,
}
use ap_academy_landing.Wallclock.{Instant}
use ap_academy_landing.Sends.{
  SendState, DraftState, MessageState, SendMode, SendError, SendRow, TypeSwitch, World, sending,
  manual, auto, did_not_finish, max_attempts, lease_ms,
}

pub data ClaimResult : Type 0 where
  claimed busy done exhausted paused withdrawn not_found : ClaimResult

pub data FailResult : Type 0 where
  retrying failed done not_found : FailResult

abbrev pub is_sending : SendState → Bool
is_sending sending = true
is_sending SendState.sent = false
is_sending SendState.failed = false

abbrev pub is_sent : SendState → Bool
is_sent SendState.sent = true
is_sent sending = false
is_sent SendState.failed = false

abbrev pub is_auto : SendMode → Bool
is_auto auto = true
is_auto manual = false

-- `sends.get(id)`
abbrev pub row_from : Option SendRow → String → Option SendRow
row_from none id = none
row_from (some x) id = if str_eq x.id id then some x else none

abbrev pub row_of : World → String → Option SendRow
row_of w id = row_from w.send id

abbrev pub with_state : World → DraftState → MessageState → World
with_state w d m = record w { draft = record w.draft { state = d }; message = m }

abbrev pub switched_off : Option TypeSwitch → Option TypeSwitch
switched_off none = none
switched_off (some t) = some (record t { auto_send_enabled = false })

abbrev pub failed_row : SendRow → SendError → SendRow
failed_row x error = record x {
  state = SendState.failed;
  lease_until = none;
  last_error = some error;
}

abbrev pub waiting_row : SendRow → SendError → SendRow
waiting_row x error = record x { lease_until = none; last_error = some error }

-- `failSend`
abbrev pub fail_row : World → SendRow → SendError → World
fail_row w x error = record (with_state w DraftState.failed MessageState.failed) {
  send = some (failed_row x error);
  type_switch = if is_auto x.mode then switched_off w.type_switch else w.type_switch;
}

abbrev pub is_enabled : Option TypeSwitch → Bool
is_enabled none = false
is_enabled (some t) = t.auto_send_enabled

-- A lease that has not passed.
abbrev pub is_leased : Option Instant → Instant → Bool
is_leased none now = false
is_leased (some until) now = ltb now until

abbrev pub or_unfinished : Option SendError → SendError
or_unfinished none = did_not_finish
or_unfinished (some e) = e

abbrev pub withdraw : World → World
withdraw w = record (with_state w DraftState.proposed MessageState.drafted) { send = none }

abbrev pub claim_row : World → SendRow → ClaimResult × World
claim_row w x =
    if not (is_sending x.state)
    then (ClaimResult.done, w)
    else if w.paused
    then (ClaimResult.paused, w)
    else if (is_auto x.mode && x.attempts == 0)
        && (not w.sending_enabled || not (is_enabled w.type_switch))
    then (withdrawn, withdraw w)
    else if is_leased x.lease_until w.now
    then (busy, w)
    else if leb max_attempts x.attempts
    then (exhausted, fail_row w x (or_unfinished x.last_error))
    else (
      claimed,
      record w {
        send = some (record x { attempts = x.attempts + 1; lease_until = some (w.now + lease_ms) });
      },
    )

abbrev pub claim_from : World → Option SendRow → ClaimResult × World
claim_from w none = (ClaimResult.not_found, w)
claim_from w (some x) = claim_row w x

unfoldable pub claim_send : World → String → ClaimResult × World
claim_send w id = claim_from w (row_of w id)

abbrev pub finish_row : World → SendRow → String → World
finish_row w x gmail_id =
    if is_sent x.state then w else record (with_state w DraftState.sent MessageState.sent) {
      send = some (record x {
        state = SendState.sent;
        gmail_message_id = some gmail_id;
        lease_until = none;
        last_error = none;
      });
    }

-- Without a row the source throws; the caller has read the row before.
abbrev pub finish_from : World → Option SendRow → String → World
finish_from w none gmail_id = w
finish_from w (some x) gmail_id = finish_row w x gmail_id

unfoldable pub finish_send : World → String → String → World
finish_send w id gmail_id = finish_from w (row_of w id) gmail_id

abbrev pub fail_attempt_row : World → SendRow → SendError → FailResult × World
fail_attempt_row w x error =
    if not (is_sending x.state)
    then (FailResult.done, w)
    else if leb max_attempts x.attempts
    then (FailResult.failed, fail_row w x error)
    else (retrying, record w { send = some (waiting_row x error) })

abbrev pub fail_attempt_from : World → Option SendRow → SendError → FailResult × World
fail_attempt_from w none error = (FailResult.not_found, w)
fail_attempt_from w (some x) error = fail_attempt_row w x error

unfoldable pub fail_send_attempt : World → String → SendError → FailResult × World
fail_send_attempt w id error = fail_attempt_from w (row_of w id) error

-- Why a draft is not approved automatically, in the order of the tests.
pub data SkipReason : Type 0 where
  conflict paused sending_disabled never_auto_send type_disabled edited policy_version : SkipReason
  needs_charlie : SkipReason

abbrev pub is_proposed : DraftState → Bool
is_proposed DraftState.proposed = true
is_proposed DraftState.approved = false
is_proposed DraftState.sent = false
is_proposed DraftState.failed = false

abbrev pub is_drafted : MessageState → Bool
is_drafted MessageState.drafted = true
is_drafted MessageState.escalated = false
is_drafted MessageState.approved = false
is_drafted MessageState.sent = false
is_drafted MessageState.failed = false

abbrev pub has_version : Option ℕ → ℕ → Bool
has_version none version = false
has_version (some v) version = version == v

abbrev pub has_streak_version : Option TypeSwitch → ℕ → Bool
has_streak_version none version = false
has_streak_version (some t) version = has_version t.streak_policy_version version

abbrev pub skip_reason : World → Option SkipReason
skip_reason w =
    if is_some w.send || not (is_proposed w.draft.state)
    then some conflict
    else if w.paused
    then some SkipReason.paused
    else if not w.sending_enabled
    then some sending_disabled
    else if w.draft.never_auto
    then some never_auto_send
    else if not (is_enabled w.type_switch)
    then some type_disabled
    else if not (w.draft.version == 1) || (not w.draft.created_by_iris || w.draft.edited)
    then some SkipReason.edited
    else if not (has_streak_version w.type_switch w.draft.policy_version)
    then some SkipReason.policy_version
    else if not (is_drafted w.message)
    then some needs_charlie
    else none

abbrev pub new_row : String → SendMode → ℕ → Option Instant → SendRow
new_row id mode attempts lease = record {
  id = id;
  state = sending;
  mode = mode;
  attempts = attempts;
  lease_until = lease;
  gmail_message_id = none;
  last_error = none;
}

abbrev pub approve_unless :
    Option SkipReason → World → String → Option Instant → Option SkipReason × World
approve_unless (some reason) w id send_after = (some reason, w)
approve_unless none w id send_after = (
  none,
  record (with_state w DraftState.approved MessageState.approved) {
    send = some (new_row id auto 0 send_after);
  },
)

-- The id of the new send is chosen by the caller of the model: the source draws it at random.
unfoldable pub auto_approve : World → String → Option Instant → Option SkipReason × World
auto_approve w id send_after = approve_unless (skip_reason w) w id send_after
