-- ===== src/Sends/Lifecycle.antt =====
-- What can happen to a draft: the steps of a run (`runSends`, and `runAutoSend` for a draft that
-- passed the gate), the owner's Approve and Retry (`handleApproveDraft` and `handleRetrySend` of
-- iris/handlers.ts over the functions of supabase/migrations/0028_iris_sends.sql), and what changes
-- beside them. An attempt begins with the step that claims its send, and its search and its delivery
-- are steps of their own, so that attempts of several processes can overlap. The delivery and the
-- write that follows it are one step: a process that dies between them is a write that is dropped. The
-- approval and the claim of `runAutoSend` are one step too, since its run holds the poll's lease.
use ap_academy_landing.Prelude.{
  ℕ, ◌+◌, String, Bool, true, false, not, ◌&&◌, Option, none, some, List, ◌==◌, if◌then◌else◌,
  is_some, ◌≡◌, ◌∷◌, ◌++◌, leb, any,
}
use ap_academy_landing.Wallclock.{Instant}
use ap_academy_landing.Sends.{
  Draft, SendState, DraftState, MessageState, SendRow, World, TypeSwitch, sending, manual, lease_ms,
}
use ap_academy_landing.Sends.Rows.{
  ClaimResult, claimed, busy, exhausted, withdrawn, claim_send, auto_approve, SkipReason, row_of,
  is_proposed, new_row, with_state,
}
use ap_academy_landing.Sends.Attempt.{goes_on, send_now, ended, look, Look, Answers}

abbrev pub is_claimed : ClaimResult → Bool
is_claimed claimed = true
is_claimed busy = false
is_claimed ClaimResult.done = false
is_claimed exhausted = false
is_claimed ClaimResult.paused = false
is_claimed withdrawn = false
is_claimed ClaimResult.not_found = false

-- The owner may approve a message that waits for them.
abbrev pub is_open_message : MessageState → Bool
is_open_message MessageState.drafted = true
is_open_message MessageState.escalated = true
is_open_message MessageState.approved = false
is_open_message MessageState.sent = false
is_open_message MessageState.failed = false

-- `approve_draft_for_send`, and whether it answered "ok"
abbrev pub may_approve : World → ℕ → Bool
may_approve w version =
    not (is_some w.send)
    && (not w.paused
        && (is_proposed w.draft.state && (w.draft.version == version && is_open_message w.message)))

abbrev pub approved_by_owner : World → String → World
approved_by_owner w id = record (with_state w DraftState.approved MessageState.approved) {
  send = some (new_row id manual 1 (some (w.now + lease_ms)));
}

abbrev pub is_failed : SendState → Bool
is_failed SendState.failed = true
is_failed SendState.sent = false
is_failed sending = false

abbrev pub restarted : World → SendRow → World
restarted w x = record (with_state w DraftState.approved MessageState.approved) {
  send = some (record x {
    state = sending;
    attempts = 1;
    last_error = none;
    lease_until = some (w.now + lease_ms);
  });
}

-- An attempt that is under way, for the send `id`: whether it searches first, whether its search is
-- over, and when the lease passes that it was given.
pub record Flight : Type 0 where
  pub id : String
  pub verify_first : Bool
  pub looked : Bool
  pub until : Instant

-- The store and the mailbox, with the attempts that are under way in any process.
pub record State : Type 0 where
  pub world : World
  pub flights : List Flight

abbrev pub started : World → String → Bool → List Flight → State
started w id verify_first flights = record {
  world = w;
  flights =
      record { id = id; verify_first = verify_first; looked = false; until = w.now + lease_ms }
      ∷ flights;
}

abbrev pub stands : World → List Flight → State
stands w flights = record { world = w; flights = flights }

-- An attempt follows a claim that answers "claimed".
abbrev pub attempt_if_claimed : String → Bool → List Flight → ClaimResult × World → State
attempt_if_claimed id verify_first flights c =
    if is_claimed c.0 then started c.1 id verify_first flights else stands c.1 flights

-- One round of the loop of `runSends`, up to its attempt.
unfoldable pub run_send : State → String → State
unfolding claim_send
run_send s id = attempt_if_claimed id true s.flights (claim_send s.world id)

-- From `autoApprove` on, up to the attempt: a draft that is held is not sent in this run, and neither
-- is one that the run has no time left for.
abbrev pub after_approval : List Flight → String → Bool → Option SkipReason × World → State
after_approval flights id at_once (some reason, w) = stands w flights
after_approval flights id true (none, w) = attempt_if_claimed id false flights (claim_send w id)
after_approval flights id false (none, w) = stands w flights

unfoldable pub auto_send : State → String → Option Instant → Bool → State
unfolding claim_send auto_approve
auto_send s id send_after in_time =
    after_approval s.flights id (not (is_some send_after) && in_time)
      (auto_approve s.world id send_after)

unfoldable pub approve : State → String → ℕ → State
approve s id version =
    if may_approve s.world version
    then started (approved_by_owner s.world id) id false s.flights
    else s

abbrev pub retry_from : State → String → Option SendRow → State
retry_from s id none = s
retry_from s id (some x) =
    if is_failed x.state && not s.world.paused
    then started (restarted s.world x) id true s.flights
    else s

unfoldable pub retry : State → String → State
retry s id = retry_from s id (row_of s.world id)

-- The attempt `f`, which stands between the others, has looked.
abbrev pub after_look : World → List Flight → Flight → List Flight → Look → State
after_look w before f after (ended r v) = stands v (before ++ after)
after_look w before f after goes_on = stands w (before ++ (record f { looked = true } ∷ after))

-- Some attempt would still be under way when its lease has passed.
abbrev pub overruns : List Flight → Instant → Bool
overruns flights now = any (λ f. leb f.until now) flights

abbrev pub changed :
    World → Draft → MessageState → Option TypeSwitch → Bool → Bool → Instant → World
changed w draft message type_switch paused sending_enabled now = record w {
  draft = draft;
  message = message;
  type_switch = type_switch;
  paused = paused;
  sending_enabled = sending_enabled;
  now = now;
}

module _ (search : List String → String → Option String) where
  -- The steps. An attempt that is under way looks, delivers or dies at any time, in any order with the
  -- others. The settings, the draft and the clock change freely, but an attempt is over before its
  -- lease passes: Gmail's calls have a timeout of 10 seconds each, and the lease is 60 seconds.
  pub data Step : State → State → Type 0 where
    runs : (s : State) (id : String) → Step s (run_send s id)
    sends_itself :
        (s : State) (id : String) (after : Option Instant) (in_time : Bool)
        → Step s (auto_send s id after in_time)
    is_approved : (s : State) (id : String) (version : ℕ) → Step s (approve s id version)
    is_retried : (s : State) (id : String) → Step s (retry s id)
    looks :
        (s : State) (before : List Flight) (f : Flight) (after : List Flight) (g : Answers)
        → s.flights ≡ before ++ (f ∷ after)
        → f.looked ≡ false
        → Step s (after_look s.world before f after (look search g f.verify_first s.world f.id))
    delivers :
        (s : State) (before : List Flight) (f : Flight) (after : List Flight) (g : Answers)
        → s.flights ≡ before ++ (f ∷ after)
        → f.looked ≡ true
        → Step s (stands (send_now g s.world f.id).1 (before ++ after))
    dies :
        (s : State) (before : List Flight) (f : Flight) (after : List Flight)
        → s.flights ≡ before ++ (f ∷ after)
        → Step s (stands s.world (before ++ after))
    changes :
        (s : State) (draft : Draft) (message : MessageState) (type_switch : Option TypeSwitch)
        (paused sending_enabled : Bool) (now : Instant)
        → overruns s.flights now ≡ false
        → Step s (
            stands (changed s.world draft message type_switch paused sending_enabled now) s.flights)

  pub data Reach (start : State) : State → Type 0 where
    here : Reach start start
    next : {s t : State} → Reach start s → Step s t → Reach start t
