-- ===== src/Sends/Attempt.antt =====
-- `attemptSend` of send.ts, in two parts: up to the search in Gmail, and from `buildReply` on. What Gmail and the database answer during one attempt is chosen by the
-- environment; whether `buildReply` can make the message is one of these answers.
use ap_academy_landing.Sends.{
  not_recorded_yet, send_not_found, unauthorised, unchecked_gmail, unread_send, unusable_address,
  SendState, SendError, SendRow, World, sending, gmail_failed,
}
use ap_academy_landing.Prelude.{String, Bool, not, Option, none, some, List, ◌∷◌, if◌then◌else◌}
use ap_academy_landing.Sends.Rows.{FailResult, row_of, is_sending, finish_send, fail_send_attempt}

-- What a write to the database did: it took effect and answered, it did not and threw, or it took
-- effect and threw.
pub data Write : Type 0 where
  answered dropped unanswered : Write

-- What a send to Gmail did: it was accepted and answered with the id, it was refused, or it was
-- accepted and the answer was lost.
pub data Delivery : Type 0 where
  accepted : String → Delivery
  refused lost : Delivery

pub record Answers : Type 0 where
  pub reads : Bool
  pub searches : Bool
  pub builds : Bool
  pub authorises : Bool
  pub delivery : Delivery
  pub finishing : Write
  pub failing : Write

pub record AttemptResult : Type 0 where
  pub state : SendState
  pub error : Option SendError

abbrev pub result : SendState → Option SendError → World → AttemptResult × World
result state error w = (record { state = state; error = error }, w)

-- The state that is answered after `failSendAttempt`.
abbrev pub state_after : FailResult → SendState
state_after FailResult.failed = SendState.failed
state_after FailResult.retrying = sending
state_after FailResult.done = sending
state_after FailResult.not_found = sending

abbrev pub failed_write : Write → FailResult × World → World → SendError → AttemptResult × World
failed_write answered r w error = result (state_after r.0) (some error) r.1
failed_write dropped r w error = result sending (some error) w
failed_write unanswered r w error = result sending (some error) r.1

-- `fail(error)`
abbrev pub fail_with : Answers → World → String → SendError → AttemptResult × World
fail_with g w id error = failed_write g.failing (fail_send_attempt w id error) w error

abbrev pub finished_write : Write → World → World → AttemptResult × World
finished_write answered saved w = result SendState.sent none saved
finished_write dropped saved w = result sending (some not_recorded_yet) w
finished_write unanswered saved w = result sending (some not_recorded_yet) saved

-- `finish(gmailMessageId)`
abbrev pub finish_with : Answers → World → String → String → AttemptResult × World
finish_with g w id gmail_id = finished_write g.finishing (finish_send w id gmail_id) w

-- Gmail has the message once more.
abbrev pub accept : World → String → World
accept w id = record w { box = id ∷ w.box }

abbrev pub deliver : Answers → World → String → Delivery → AttemptResult × World
deliver g w id (accepted gmail_id) = finish_with g (accept w id) id gmail_id
deliver g w id refused = fail_with g w id gmail_failed
deliver g w id lost = fail_with g (accept w id) id gmail_failed

-- From `buildReply` on.
abbrev pub send_now : Answers → World → String → AttemptResult × World
send_now g w id =
    if not g.builds
    then fail_with g w id unusable_address
    else if not g.authorises
    then fail_with g w id unauthorised
    else deliver g w id g.delivery

-- What an attempt comes to before `buildReply`: it ends, or it goes on.
pub data Look : Type 0 where
  ended : AttemptResult → World → Look
  goes_on : Look

abbrev pub look_ended : AttemptResult × World → Look
look_ended r = ended r.0 r.1

abbrev pub unless_found : Answers → World → String → Option String → Look
unless_found g w id (some gmail_id) = look_ended (finish_with g w id gmail_id)
unless_found g w id none = goes_on

-- `search box id` is what Gmail finds for the Message-ID of the send `id`.
module _ (search : List String → String → Option String) where
  abbrev pub verified : Answers → World → String → Look
  verified g w id =
      if not g.searches
      then look_ended (fail_with g w id unchecked_gmail)
      else unless_found g w id (search w.box id)

  abbrev pub look_row : Answers → Bool → World → String → SendRow → Look
  look_row g verify_first w id x =
      if not (is_sending x.state)
      then ended (record { state = x.state; error = none }) w
      else if verify_first
      then verified g w id
      else goes_on

  abbrev pub look_from : Answers → Bool → World → String → Option SendRow → Look
  look_from g verify_first w id none =
      ended (record { state = sending; error = some send_not_found }) w
  look_from g verify_first w id (some x) = look_row g verify_first w id x

  -- `attemptSend` up to `buildReply`.
  unfoldable pub look : Answers → Bool → World → String → Look
  unfolding finish_send fail_send_attempt
  look g verify_first w id =
      if not g.reads
      then ended (record { state = sending; error = some unread_send }) w
      else look_from g verify_first w id (row_of w id)
