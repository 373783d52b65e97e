-- ===== src/Sends.antt =====
-- apps/tracker/lib/iris/send.ts and auto-send.ts with the send rows of store.fake.ts: sending the
-- reply to one message. The state is what the store keeps of one draft, and the mailbox of Gmail.
-- Error texts are the constructors of `SendError`, and the log of events is left out.
pub mod Rows
pub mod Attempt
pub mod Lifecycle
pub mod Counting
pub mod Attempts
pub mod Claims
pub mod Starts
pub mod Once
pub mod Settles
pub mod Settled
mod Tests
use ap_academy_landing.Prelude.{ℕ, String, Bool, Option, List}
use ap_academy_landing.Wallclock.{Instant}

pub data SendState : Type 0 where
  sending sent failed : SendState

pub data DraftState : Type 0 where
  proposed approved sent failed : DraftState

pub data MessageState : Type 0 where
  drafted escalated approved sent failed : MessageState

pub data SendMode : Type 0 where
  manual auto : SendMode

pub data SendError : Type 0 where
  unread_send send_not_found not_recorded_yet unchecked_gmail unusable_address unauthorised :
      SendError
  gmail_failed did_not_finish : SendError

pub record SendRow : Type 0 where
  pub id : String
  pub state : SendState
  pub mode : SendMode
  pub attempts : ℕ
  pub lease_until : Option Instant
  pub gmail_message_id : Option String
  pub last_error : Option SendError

pub record TypeSwitch : Type 0 where
  pub auto_send_enabled : Bool
  pub streak_policy_version : Option ℕ

-- `created_by_iris` is `createdBy === "iris"`, `never_auto` whether NEVER_AUTO_SEND has the type.
pub record Draft : Type 0 where
  pub state : DraftState
  pub version : ℕ
  pub created_by_iris : Bool
  pub edited : Bool
  pub policy_version : ℕ
  pub never_auto : Bool

-- `box` lists the ids of the sends whose message Gmail accepted, once for each time.
pub record World : Type 0 where
  pub draft : Draft
  pub message : MessageState
  pub type_switch : Option TypeSwitch
  pub paused : Bool
  pub sending_enabled : Bool
  pub now : Instant
  pub send : Option SendRow
  pub box : List String

abbrev pub max_attempts : ℕ
max_attempts = 3

abbrev pub lease_ms : ℕ
lease_ms = 60000
