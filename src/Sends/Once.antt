-- ===== src/Sends/Once.antt =====
-- All the steps of Lifecycle over the attempts under way, and how often Gmail accepts a reply.
use ap_academy_landing.Prelude.{
  ◌≤◌, String, ◌≡◌, refl, Bool, true, false, ◌&&◌, Option, none, some, List, [], ◌∷◌, ◌++◌, arith,
  length,
}
use ap_academy_landing.Sends.{SendRow, World}
use ap_academy_landing.Sends.Rows.{is_sent}
use ap_academy_landing.Sends.Attempt.{Answers, Look, ended, goes_on, look, send_now}
use ap_academy_landing.Sends.Lifecycle.{
  State, Flight, Step, Reach, here, next, runs, sends_itself, is_approved, is_retried, looks,
  delivers, dies, changes, after_look, overruns, changed,
}
use ap_academy_landing.Sends.Counting.{Counted, IsCounted}
use ap_academy_landing.Sends.Attempts.{
  Finds, LookCounted, accept-IsCounted, is_empty, is_empty-eq, look-Counted, send_now-IsCounted,
}
use ap_academy_landing.Sends.Claims.{Attempted, Holds, Alone, IsSafe}
use ap_academy_landing.Sends.Starts.{
  run_send-IsSafe, auto_send-IsSafe, approve-IsSafe, retry-IsSafe,
}

abbrev pub is_marked_row : Option SendRow → Bool
is_marked_row none = false
is_marked_row (some x) = is_sent x.state

-- The send of the draft is marked sent.
abbrev pub is_marked : World → Bool
is_marked w = is_marked_row w.send

-- An attempt that is under way is the only one.
only_one :
    (w : World) (before : List Flight) (f : Flight) (after : List Flight)
    → Alone w (before ++ (f ∷ after))
    → (before ≡ []) × (after ≡ []) × Holds w f
only_one w [] f [] h = (refl, refl, h)
only_one w [] f (g ∷ after) h = absurd h
only_one w (e ∷ []) f after h = absurd h
only_one w (e ∷ g ∷ before) f after h = absurd h

only :
    (w : World) (fs before : List Flight) (f : Flight) (after : List Flight)
    → fs ≡ before ++ (f ∷ after)
    → Alone w fs
    → (before ≡ []) × (after ≡ []) × Holds w f
only w fs before f after e h = only_one w before f after (rw (← e) h)

-- The others, of which there is none.
nobody_left :
    (w : World) (before after : List Flight) → before ≡ [] → after ≡ [] → Alone w (before ++ after)
nobody_left w before after b a = rw (b, a) tt

after_look-IsSafe :
    (w : World) (before : List Flight) (f : Flight) (after : List Flight) (l : Look)
    → before ≡ []
    → after ≡ []
    → IsCounted w
    → Holds w f
    → LookCounted w l
    → IsSafe (after_look w before f after l)
after_look-IsSafe w before f after (ended r v) b a h k c = (c, nobody_left v before after b a)
after_look-IsSafe w before f after goes_on b a h k c =
    rw (b, a) (h, (k.0, k.1, rw c (ground arith)))

delivered-IsCounted :
    (g : Answers) (w : World) (f : Flight)
    → IsCounted w
    → Holds w f
    → f.looked ≡ true
    → IsCounted (send_now g w f.id).1
delivered-IsCounted g w f h k l = send_now-IsCounted g w f.id h (by_send w.send refl k.0)
  where
    empty : w.box ≡ []
    empty = is_empty-eq w.box (ground (arith, k.2, l))

    by_send :
        (s : Option SendRow) → w.send ≡ s → Attempted f.id f.until s → Counted w.send (f.id ∷ w.box)
    by_send none q t = absurd t
    by_send (some x) q t = accept-IsCounted w f.id x q empty t.0 (t.2)

changed-Alone :
    (w v : World) (fs : List Flight)
    → v.send ≡ w.send
    → v.box ≡ w.box
    → overruns fs v.now ≡ false
    → Alone w fs
    → Alone v fs
changed-Alone w v [] s b o h = tt
changed-Alone w v (f ∷ []) s b o h = (rw s h.0, ground (arith, o), rw b h.2)
changed-Alone w v (f ∷ g ∷ fs) s b o h = absurd h

module _ (search : List String → String → Option String) (finds : Finds search) where
  Step-IsSafe : {s t : State} → Step search s t → IsSafe s → IsSafe t
  Step-IsSafe (runs s id) h = run_send-IsSafe s.world s.flights id h
  Step-IsSafe (sends_itself s id after in_time) h =
      auto_send-IsSafe s.world s.flights id after in_time h
  Step-IsSafe (is_approved s id version) h = approve-IsSafe s.world s.flights id version h
  Step-IsSafe (is_retried s id) h = retry-IsSafe s.world s.flights id h
  Step-IsSafe (looks s before f after g e l) h =
      let q = only s.world s.flights before f after e h.1 in
      after_look-IsSafe s.world before f after (look search g f.verify_first s.world f.id) q.0 q.1
        h.0 q.2
        (look-Counted search finds g f.verify_first s.world f.id (ground (arith, q.2.2, l)) h.0)
  Step-IsSafe (delivers s before f after g e l) h =
      let q = only s.world s.flights before f after e h.1 in
      (
        delivered-IsCounted g s.world f h.0 q.2 l,
        nobody_left (send_now g s.world f.id).1 before after q.0 q.1,
      )
  Step-IsSafe (dies s before f after e) h =
      let q = only s.world s.flights before f after e h.1 in
      (h.0, nobody_left s.world before after q.0 q.1)
  Step-IsSafe (changes s draft message type_switch paused sending_enabled now o) h = (
    h.0,
    changed-Alone s.world (changed s.world draft message type_switch paused sending_enabled now)
        s.flights refl refl o h.1,
  )

  Reach-IsSafe : {s t : State} → Reach search s t → IsSafe s → IsSafe t
  Reach-IsSafe here h = h
  Reach-IsSafe (next r st) h = Step-IsSafe st (Reach-IsSafe r h)

  -- From a draft with no send and no attempt under way, whatever runs, approvals, retries and changes
  -- of the settings follow, in whatever order the attempts of several processes begin, look, deliver
  -- or die, and whatever Gmail and the database answer, also where an answer is lost: Gmail accepts
  -- the reply at most once, and it has accepted it if the send is marked sent. Two things are assumed:
  -- an attempt is over before the lease passes that it was given, and Gmail's search finds what Gmail
  -- accepted, and nothing else.
  pub at_most_once :
      {s t : State}
      → Reach search s t
      → s.world.send ≡ none
      → s.world.box ≡ []
      → s.flights ≡ []
      → (length t.world.box ≤ 1) × ((is_marked t.world && is_empty t.world.box) ≡ false)
  at_most_once {s} {t} r e b n =
      by_count t.world.send t.world.box (Reach-IsSafe r (rw (e, b) refl, rw n tt)).0
    where
      by_count :
          (s : Option SendRow) (box : List String)
          → Counted s box
          → (length box ≤ 1) × ((is_marked_row s && is_empty box) ≡ false)
      by_count none box k = ground arith
      by_count (some x) [] k = ground arith
      by_count (some x) (b ∷ box) k = ground arith
