-- ===== src/ClassWrites/Atomic.antt =====
-- The three handlers of class writes, as the routes classes/route.ts and
-- classes/[seriesId]/occurrences/[date]/route.ts under apps/tracker/app/api/scheduler call them.
use ap_academy_landing.ClassWrites.Attempts.{
  create_attempt-AttemptSame, cancel_attempt-AttemptSame, edit_attempt-AttemptSame,
  attempt_split-AttemptSame,
}
use ap_academy_landing.ClassWrites.Store.{series_by_id, person_of, keys_of}
use ap_academy_landing.ClassWrites.Args.{is_weekly_kind}
use ap_academy_landing.Access.{allowed, denied, require_scheduler, Guarded}
use ap_academy_landing.Prelude.{
  ℕ, String, ◌≡◌, Bool, true, false, Option, none, some, if◌then◌else◌, not, ◌&&◌, [], ◌∷◌,
}
use ap_academy_landing.Wallclock.{Date, Instant}
use ap_academy_landing.Recurrence.{Key}
use ap_academy_landing.ClassWrites.{WriteOp, SeriesRecord, World}
use ap_academy_landing.ClassWrites.Rounds.{
  unavailable, one_off_only, bad, Failure, failed, Booked, Response, Surroundings, answered, booked,
}
use ap_academy_landing.ClassWrites.Steps.{denial, reply, Reply, ScheduleDeps}
use ap_academy_landing.ClassWrites.Create.{
  create_guarded, admin_only, ClassBody, create_attempt, created_reply, handle_create_class,
  reply_or,
}
use ap_academy_landing.ClassWrites.Cancel.{
  cancel_op, is_future, cancel_guarded, cancel_found, cancel_attempt, CancelBody, cancelled_reply,
  handle_cancel_occurrence,
}
use ap_academy_landing.ClassWrites.Edit.{EditBody}
use ap_academy_landing.ClassWrites.Patch.{
  purpose_refused, edit_guarded, edit_series, edit_found, edit_attempt, attempt_split, edited_reply,
  handle_edit_occurrence, split_reply,
}
use ap_academy_landing.ClassWrites.Refused.{SameClasses, SameClasses-refl}
use ap_academy_landing.ClassWrites.Alone.{
  book_under_stamps-BookedSame, is_saved, BookedSame, ReplySame,
}

pub data Request : Type 0 where
  create : Option ClassBody → Request
  edit : Option EditBody → String → Date → Request
  cancel : Option CancelBody → String → Date → Request

reply_or-ReplySame :
    (x : Option Response) (w : World) (next : Reply × World)
    → ReplySame w next
    → ReplySame w (reply_or x w next)
unfolding reply_or
reply_or-ReplySame none w next h = h
reply_or-ReplySame (some r) w next h = λ e. SameClasses-refl w

created_reply-ReplySame :
    (w : World) (b : Booked × World) → BookedSame w b → ReplySame w (created_reply b)
created_reply-ReplySame w (answered r, v) h = λ e. h
created_reply-ReplySame w (booked s replayed, v) h = λ e. absurd (cc)

cancelled_reply-ReplySame :
    (w : World) (ends : Bool) (s : SeriesRecord) (b : Booked × World)
    → BookedSame w b
    → ReplySame w (cancelled_reply ends s b)
cancelled_reply-ReplySame w ends s (answered r, v) h = λ e. h
cancelled_reply-ReplySame w false s (booked t replayed, v) h = λ e. absurd (cc)
cancelled_reply-ReplySame w true s (booked t true, v) h = λ e. absurd (cc)
cancelled_reply-ReplySame w true s (booked t false, v) h = λ e. absurd (cc)

edited_reply-ReplySame :
    (w : World) (b : Booked × World) → BookedSame w b → ReplySame w (edited_reply b)
edited_reply-ReplySame w (answered r, v) h = λ e. h
edited_reply-ReplySame w (booked s replayed, v) h = λ e. absurd (cc)

split_reply-ReplySame :
    (w : World) (s : SeriesRecord) (b : Booked × World)
    → BookedSame w b
    → ReplySame w (split_reply s b)
split_reply-ReplySame w s (answered r, v) h = λ e. h
split_reply-ReplySame w s (booked t true, v) h = λ e. absurd (cc)
split_reply-ReplySame w s (booked t false, v) h = λ e. absurd (cc)

ReplySame-if :
    (w : World) (b : Bool) (x y : Reply × World)
    → ReplySame w x
    → ReplySame w y
    → ReplySame w (if b then x else y)
ReplySame-if w true x y h k = h
ReplySame-if w false x y h k = k

here : (w : World) (r : Reply) → ReplySame w (r, w)
here w r = λ e. SameClasses-refl w

module _ (behind : Instant → ℕ) (key_le : Key → Key → Bool) where
  module _ (new_id version_of : ℕ → String) (created_at : String) where
    module _ (deps : ScheduleDeps) (env : Surroundings) where
      abbrev pub handle : Request → World → Reply × World
      handle (create body) w =
          handle_create_class behind key_le new_id version_of created_at deps env body w
      handle (edit body series_id date) w =
          handle_edit_occurrence behind key_le new_id version_of created_at deps env body series_id
            date w
      handle (cancel body series_id date) w =
          handle_cancel_occurrence new_id version_of created_at deps env body series_id date w

      module _ (alone : (n : ℕ) (w : World) → env.others n w ≡ w)
          (keeps : (n : ℕ) → env.loses n ≡ false) where
        create-ReplySame :
            (body : Option ClassBody) (w : World) (g : Guarded)
            → ReplySame w
                (create_guarded behind key_le new_id version_of created_at deps env g body w)
        create-ReplySame body w (denied status error) = here w (denial status error)
        create-ReplySame none w (allowed who) = here w (reply bad)
        create-ReplySame (some body) w (allowed who) = reply_or-ReplySame _ w _ (
            reply_or-ReplySame _ w _ (
              reply_or-ReplySame _ w _ (
                created_reply-ReplySame w _ (
                  book_under_stamps-BookedSame env alone
                    (create_attempt behind key_le new_id version_of created_at deps env body)
                    (create_attempt-AttemptSame behind key_le new_id version_of created_at deps env
                      alone keeps body)
                    body.request_id (keys_of (person_of body.fields ∷ [])) (WriteOp.create ∷ [])
                    none w))))

        cancel_found-ReplySame :
            (body : CancelBody) (date : Date) (w : World) (s : Option SeriesRecord)
            → ReplySame w (cancel_found new_id version_of created_at deps env body date w s)
        cancel_found-ReplySame body date w none = here w (reply (failed 404 Failure.not_found))
        cancel_found-ReplySame body date w (some s) =
            let ends = is_future body.scope && is_weekly_kind s.class.kind in
            cancelled_reply-ReplySame w ends s _ (
              book_under_stamps-BookedSame env alone
                (cancel_attempt new_id version_of created_at deps env body s date ends)
                (cancel_attempt-AttemptSame behind key_le new_id version_of created_at deps env
                  alone keeps body s date ends)
                body.request_id (keys_of (person_of s.class ∷ [])) (cancel_op ends ∷ [])
                (some s.class.id) w)

        cancel-ReplySame :
            (body : Option CancelBody) (id : String) (date : Date) (w : World) (g : Guarded)
            → ReplySame w (cancel_guarded new_id version_of created_at deps env g body id date w)
        cancel-ReplySame body id date w (denied status error) = here w (denial status error)
        cancel-ReplySame none id date w (allowed who) = here w (reply bad)
        cancel-ReplySame (some body) id date w (allowed who) =
            ReplySame-if w (not deps.reads_series) _ _ (here w (reply unavailable))
              (cancel_found-ReplySame body date w (series_by_id w id))

        edit_series-ReplySame :
            (body : EditBody) (date : Date) (w : World) (s : SeriesRecord)
            → ReplySame w
                (edit_series behind key_le new_id version_of created_at deps env body date w s)
        edit_series-ReplySame body date w s =
            ReplySame-if w (is_future body.scope) _ _
              (split_reply-ReplySame w s _ (
                book_under_stamps-BookedSame env alone
                  (attempt_split behind key_le new_id version_of created_at deps env body s date)
                  (attempt_split-AttemptSame behind key_le new_id version_of created_at deps env
                    alone keeps body s date)
                  body.request_id _ (WriteOp.split ∷ []) (some s.class.id) w))
              (edited_reply-ReplySame w _ (
                book_under_stamps-BookedSame env alone
                  (edit_attempt behind key_le new_id version_of created_at deps env body s date)
                  (edit_attempt-AttemptSame behind key_le new_id version_of created_at deps env
                    alone keeps body s date)
                  body.request_id _ (WriteOp.move ∷ WriteOp.edit_one_off ∷ []) (some s.class.id) w))

        edit_found-ReplySame :
            (body : EditBody) (date : Date) (w : World) (s : Option SeriesRecord)
            → ReplySame w
                (edit_found behind key_le new_id version_of created_at deps env body date w s)
        edit_found-ReplySame body date w none = here w (reply (failed 404 Failure.not_found))
        edit_found-ReplySame body date w (some s) =
            ReplySame-if w (purpose_refused body s) _ _ (here w (reply (failed 400 one_off_only)))
              (edit_series-ReplySame body date w s)

        edit-ReplySame :
            (body : Option EditBody) (id : String) (date : Date) (w : World) (g : Guarded)
            → ReplySame w
                (edit_guarded behind key_le new_id version_of created_at deps env g body id date w)
        edit-ReplySame body id date w (denied status error) = here w (denial status error)
        edit-ReplySame none id date w (allowed who) = here w (reply bad)
        edit-ReplySame (some body) id date w (allowed who) =
            ReplySame-if w (not deps.reads_series) _ _ (here w (reply unavailable))
              (edit_found-ReplySame body date w (series_by_id w id))

        handle-ReplySame : (request : Request) (w : World) → ReplySame w (handle request w)
        unfolding handle_create_class handle_edit_occurrence handle_cancel_occurrence
        handle-ReplySame (create body) w =
            create-ReplySame body w (require_scheduler deps.identity admin_only)
        handle-ReplySame (edit body id date) w =
            edit-ReplySame body id date w (require_scheduler deps.identity admin_only)
        handle-ReplySame (cancel body id date) w =
            cancel-ReplySame body id date w (require_scheduler deps.identity admin_only)

        -- Where no other client writes during a request to create, edit or cancel a class, no answer of
        -- a write that the storage carried out is lost, and the reply reports no saved series (it is a
        -- denial, an error, or the series as it stands, for an edit that changes nothing): the series,
        -- the exceptions, the booking stamps and the log of requests are what they were.
        pub handle-SameClasses :
            (request : Request) (w : World)
            → is_saved (handle request w).0 ≡ false
            → SameClasses w (handle request w).1
        handle-SameClasses request w e = handle-ReplySame request w e
