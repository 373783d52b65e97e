-- ===== src/ClassWrites/Attempts.antt =====
-- An attempt that writes no class changes none, where no other client writes meanwhile.
use ap_academy_landing.Prelude.{
  ℕ, ◌+◌, String, ◌≡◌, Bool, Option, none, some, List, inl, inr, Bool-cases, str_eq, false,
}
use ap_academy_landing.Wallclock.{Date, Instant}
use ap_academy_landing.Recurrence.{Key}
use ap_academy_landing.ClassWrites.{BookingStamp, SeriesRecord, World, LockedWriteArgs}
use ap_academy_landing.ClassWrites.Rounds.{Surroundings}
use ap_academy_landing.ClassWrites.Steps.{ScheduleDeps}
use ap_academy_landing.ClassWrites.Create.{ClassBody, create_attempt}
use ap_academy_landing.ClassWrites.Cancel.{seen_series, cancel_attempt, CancelBody}
use ap_academy_landing.ClassWrites.Edit.{split_changes, prepare_new, EditBody}
use ap_academy_landing.ClassWrites.Patch.{edit_attempt, attempt_split}
use ap_academy_landing.ClassWrites.Refused.{SameClasses, SameClasses-refl}
use ap_academy_landing.ClassWrites.Alone.{
  AttemptSame, and_then-AttemptSame, prepare_with-SameClasses, unless-AttemptSame,
  write_at-AttemptSame,
}

module _ (behind : Instant → ℕ) (key_le : Key → Key → Bool) where
  module _ (new_id version_of : ℕ → String) (created_at : String) where
    module _ (deps : ScheduleDeps) (env : Surroundings)
        (alone : (n : ℕ) (w : World) → env.others n w ≡ w)
        (keeps : (n : ℕ) → env.loses n ≡ false) where
      pub create_attempt-AttemptSame :
          (body : ClassBody) (n : ℕ) (stamps : List BookingStamp) (w : World)
          → AttemptSame w
              (create_attempt behind key_le new_id version_of created_at deps env body n stamps w)
      unfolding create_attempt
      create_attempt-AttemptSame body n stamps w = unless-AttemptSame _ w _ (
          unless-AttemptSame _ w _ (
            and_then-AttemptSame w _ _
              (prepare_with-SameClasses (env.is_up n) deps.adopts w body.fields.student_id
                deps.students)
              (λ v.
                write_at-AttemptSame env alone keeps new_id version_of created_at (n + 1) v
                  body.request_id stamps (LockedWriteArgs.create body.fields))))

      pub cancel_attempt-AttemptSame :
          (body : CancelBody) (s : SeriesRecord) (date : Date) (ends : Bool) (n : ℕ)
          (stamps : List BookingStamp) (w : World)
          → AttemptSame w
              (cancel_attempt new_id version_of created_at deps env body s date ends n stamps w)
      unfolding cancel_attempt
      cancel_attempt-AttemptSame body s date ends n stamps w = unless-AttemptSame _ w _ (
          unless-AttemptSame _ w _ (
            unless-AttemptSame _ w _ (
              unless-AttemptSame _ w _ (
                write_at-AttemptSame env alone keeps new_id version_of created_at (n + 1) w
                  body.request_id stamps _))))

      pub edit_attempt-AttemptSame :
          (body : EditBody) (s : SeriesRecord) (date : Date) (n : ℕ) (stamps : List BookingStamp)
          (w : World)
          → AttemptSame w (
              edit_attempt behind key_le new_id version_of created_at deps env body s date n stamps
                w)
      unfolding edit_attempt
      edit_attempt-AttemptSame body s date n stamps w = unless-AttemptSame _ w _ (
          unless-AttemptSame _ w _ (
            unless-AttemptSame _ w _ (
              unless-AttemptSame _ w _ (
                unless-AttemptSame _ w _ (
                  unless-AttemptSame _ w _ (
                    unless-AttemptSame _ w _ (
                      unless-AttemptSame _ w _ (
                        unless-AttemptSame _ w _ (
                          unless-AttemptSame _ w _ (
                            unless-AttemptSame _ w _ (
                              write_at-AttemptSame env alone keeps new_id version_of created_at
                                (n + 1) w body.request_id stamps _)))))))))))

      prepare_new-SameClasses :
          (up : Bool) (w : World) (student : Option String) (old : String)
          → SameClasses w (prepare_new deps up w student old).1
      prepare_new-SameClasses up w none old = SameClasses-refl w
      prepare_new-SameClasses up w (some id) old = elim (Bool-cases (str_eq id old)) [
        | inl e ↦ rw e (SameClasses-refl w)
        | inr e ↦ rw e (prepare_with-SameClasses up deps.adopts w id deps.students)
      ]

      pub attempt_split-AttemptSame :
          (body : EditBody) (s : SeriesRecord) (date : Date) (n : ℕ) (stamps : List BookingStamp)
          (w : World)
          → AttemptSame w (
              attempt_split behind key_le new_id version_of created_at deps env body s date n stamps
                w)
      unfolding attempt_split
      attempt_split-AttemptSame body s date n stamps w = unless-AttemptSame _ w _ (
          unless-AttemptSame _ w _ (
            unless-AttemptSame _ w _ (
              unless-AttemptSame _ w _ (
                unless-AttemptSame _ w _ (
                  unless-AttemptSame _ w _ (
                    unless-AttemptSame _ w _ (
                      and_then-AttemptSame w _ _
                        (prepare_new-SameClasses (env.is_up n) w body.changes.student_id
                          s.class.student_id)
                        (λ v.
                          write_at-AttemptSame env alone keeps new_id version_of created_at (n + 1)
                            v body.request_id stamps
                            (LockedWriteArgs.split (seen_series s body.expected_updated_at) date
                              (split_changes body.changes))))))))))
