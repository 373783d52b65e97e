-- ===== src/Sends/Tests.antt =====
-- A draft whose first answer from Gmail is lost, and the theorems of the component at it.
use ap_academy_landing.Prelude.{
  ◌≤◌, String, ◌≡◌, refl, inl, inr, true, false, ◌&&◌, Option, none, some, List, [], any,
  if◌then◌else◌, Bool-cases, length, str_eq, ◌+◌, ◌*◌, arith,
}
use ap_academy_landing.Sends.{manual, SendState, SendRow, Draft, DraftState, MessageState, World}
use ap_academy_landing.Sends.Attempt.{dropped, Answers, lost, answered, accepted, look, send_now}
use ap_academy_landing.Sends.Attempts.{Finds, is_empty}
use ap_academy_landing.Sends.Lifecycle.{
  Reach, here, next, changes, is_approved, runs, approve, run_send, State, Flight, stands,
  after_look, changed, looks, delivers,
}
use ap_academy_landing.Sends.Settles.{is_settled, runs_in}
use ap_academy_landing.Sends.Settled.{is_settled-runs_in}
use ap_academy_landing.Sends.Once.{is_marked, at_most_once}

abbrev search_box : List String → String → Option String
search_box box id = if any (λ x. str_eq x id) box then some "found" else none

search_box-Finds : Finds search_box
search_box-Finds box id = elim (Bool-cases (any (λ x. str_eq x id) box)) [
  | inl e ↦ rw e refl
  | inr e ↦ rw e refl
]

abbrev proposal : Draft
proposal = record {
  state = DraftState.proposed;
  version = 1;
  created_by_iris = true;
  edited = false;
  policy_version = 1;
  never_auto = false;
}

abbrev fresh : World
fresh = record {
  draft = proposal;
  message = MessageState.drafted;
  type_switch = none;
  paused = false;
  sending_enabled = true;
  now = 1000;
  send = none;
  box = [];
}

-- Everything is answered, with the id of the accepted message.
abbrev answers_all : Answers
answers_all = record {
  reads = true;
  searches = true;
  builds = true;
  authorises = true;
  delivery = accepted "g1";
  finishing = answered;
  failing = answered;
}

-- Gmail accepts the reply, but its answer does not arrive.
abbrev lost_answers : Answers
lost_answers = record answers_all { delivery = lost }

abbrev start : State
start = stands fresh []

abbrev first_flight : Flight
first_flight = record { id = "s1"; verify_first = false; looked = false; until = 61000 }

abbrev approved_now : State
approved_now = approve start "s1" 1

-- A run that finds the send while it is attempted.
abbrev run_meanwhile : State
run_meanwhile = run_send approved_now "s1"

abbrev looked_now : State
looked_now =
    after_look run_meanwhile.world [] first_flight []
      (look search_box lost_answers false run_meanwhile.world "s1")

abbrev tried : State
tried = stands (send_now lost_answers looked_now.world "s1").1 []

-- The next run.
abbrev later : State
later = stands (changed tried.world tried.world.draft tried.world.message none false true 400000) []

abbrev second_flight : Flight
second_flight = record { id = "s1"; verify_first = true; looked = false; until = 460000 }

abbrev claimed_now : State
claimed_now = run_send later "s1"

abbrev finished : State
finished =
    after_look claimed_now.world [] second_flight []
      (look search_box answers_all true claimed_now.world "s1")

history : Reach search_box start finished
unfolding approve run_send look
history =
    next
      (next
        (next
          (next
            (next (next (next here (is_approved start "s1" 1)) (runs approved_now "s1"))
              (looks run_meanwhile [] first_flight [] lost_answers refl refl))
            (delivers looked_now [] (record first_flight { looked = true }) [] lost_answers refl
              refl))
          (changes tried tried.world.draft tried.world.message none false true 400000 refl))
        (runs later "s1"))
      (looks claimed_now [] second_flight [] answers_all refl refl)

at_most_once_example :
    (length finished.world.box ≤ 1)
    × ((is_marked finished.world && is_empty finished.world.box) ≡ false)
at_most_once_example = at_most_once search_box search_box-Finds history refl refl refl

finished_once : (length finished.world.box ≡ 1) × (is_marked finished.world ≡ true)
unfolding approve run_send look
finished_once = (refl, refl)

-- An attempt whose calls all fail, and whose failure is not stored.
abbrev dead_answers : Answers
dead_answers = record answers_all { searches = false; failing = dropped }

abbrev waiting : SendRow
waiting = record {
  id = "s1";
  state = SendState.sending;
  mode = manual;
  attempts = 1;
  lease_until = some 5;
  gmail_message_id = none;
  last_error = none;
}

abbrev crashed : World
crashed = record fresh { send = some waiting }

is_settled-runs_in_example :
    is_settled (runs_in search_box 4 (λ i. dead_answers) (λ i. 1000 + i * 70000) crashed "s1").send
    ≡ true
is_settled-runs_in_example =
    is_settled-runs_in search_box (λ i. dead_answers) (λ i. 1000 + i * 70000) crashed waiting refl
      refl (λ i. omega arith)

-- It is still being sent after two runs.
unsettled_before :
    is_settled (runs_in search_box 2 (λ i. dead_answers) (λ i. 1000 + i * 70000) crashed "s1").send
    ≡ false
unfolding runs_in
unsettled_before = refl
