-- ===== src/Billing/Entries.antt =====
-- Which classes `buildBillingInput` gives for a student, and what each entry says.
use ap_academy_landing.Prelude.{
  All-sort_by, ℕ, String, ◌≡◌, refl, sym, ap, ap₂, ◌∙◌, inl, inr, Bool, true, false, not, ◌&&◌,
  ◌||◌, List, [], ◌∷◌, map, any, All, str_eq, Option, none, some, arith, find, any-sort_by, is_some,
}
use ap_academy_landing.Wallclock.{Date, Instant}
use ap_academy_landing.Calendar.{month_range}
use ap_academy_landing.Recurrence.{
  is_cancelled, SeriesKind, Status, ClassSeries, ClassException, Occurrence, Key, key_of, key_eq,
}
use ap_academy_landing.Recurrence.Shown.{shown}
use ap_academy_landing.Recurrence.Listed.{
  ListedBy, expand_occurrences-ListedBy, any-expand_occurrences,
}
use ap_academy_landing.Billing.Charge.{
  charge_state-table, charge_state, ChargeInput, is_chargeable, is_made_up, is_makeup,
}
use ap_academy_landing.Billing.Month.{
  charge_input, scheduler_state, original_of, link_of, OutcomeInput, BillingOccurrence,
  SchedulerState, to_entry, series_of, exceptions_of, student_entries, entry_le,
}

abbrev own_key : Occurrence → Key
own_key o = key_of o.series_id o.original_date

key-ListedBy :
    (series : List ClassSeries) (from to : Date) (o : Occurrence)
    → ListedBy series from to o
    → o.occurrence_key ≡ own_key o
key-ListedBy [] from to o h = absurd h
key-ListedBy (s ∷ series) from to o (inl h) = h.3 ∙ ap (λ id. key_of id o.original_date) (sym h.2)
key-ListedBy (s ∷ series) from to o (inr h) = key-ListedBy series from to o h

any-own_key :
    (series : List ClassSeries) (from to : Date) (k : Key) (os : List Occurrence)
    → All (ListedBy series from to) os
    → any (λ o. key_eq (own_key o) k) os ≡ any (λ o. key_eq o.occurrence_key k) os
any-own_key series from to k [] a = refl
any-own_key series from to k (o ∷ os) a =
    ap₂ (λ x b. key_eq x k || b) (sym (key-ListedBy series from to o a.0))
      (any-own_key series from to k os a.1)

ref-to_entry :
    (series : List ClassSeries) (exceptions : List ClassException) (outcomes : List OutcomeInput)
    (now : Instant) (o : Occurrence)
    → (to_entry series exceptions outcomes now o).occurrence_ref ≡ own_key o
unfolding to_entry
ref-to_entry series exceptions outcomes now o = refl

any-ref :
    (series : List ClassSeries) (exceptions : List ClassException) (outcomes : List OutcomeInput)
    (now : Instant) (k : Key) (os : List Occurrence)
    → any (λ e. key_eq e.occurrence_ref k) (map (to_entry series exceptions outcomes now) os)
      ≡ any (λ o. key_eq (own_key o) k) os
any-ref series exceptions outcomes now k [] = refl
any-ref series exceptions outcomes now k (o ∷ os) =
    ap₂ (λ x b. key_eq x k || b) (ref-to_entry series exceptions outcomes now o)
      (any-ref series exceptions outcomes now k os)

abbrev pub is_cancelled_entry : SchedulerState → Bool
is_cancelled_entry SchedulerState.cancelled = true
is_cancelled_entry SchedulerState.scheduled = false
is_cancelled_entry SchedulerState.moved = false
is_cancelled_entry SchedulerState.one_off = false

-- What holds of an entry alone: its charge against its state and its purpose.
abbrev pub Consistent : BillingOccurrence → Type 0
Consistent e =
    ((is_cancelled_entry e.scheduler_state && (is_chargeable e.charge || is_made_up e.charge))
      ≡ false)
    × ((is_chargeable e.charge && is_makeup e.purpose) ≡ false)
    × (e.unlinked_makeup ≡ (is_makeup e.purpose && not (is_some e.makeup_for)))

scheduler_state_cancelled :
    (st : Status) (k : SeriesKind) → is_cancelled_entry (scheduler_state st k) ≡ is_cancelled st
scheduler_state_cancelled Status.cancelled k = refl
scheduler_state_cancelled Status.moved k = refl
scheduler_state_cancelled Status.scheduled SeriesKind.one_off = refl
scheduler_state_cancelled Status.scheduled SeriesKind.weekly = refl

is_some-original_of : (e : Option ClassException) → is_some (original_of e) ≡ is_some e
is_some-original_of none = refl
is_some-original_of (some e) = refl

charge_apart :
    (i : ChargeInput)
    → ((is_cancelled i.status
          && (is_chargeable (charge_state i).state || is_made_up (charge_state i).state))
        ≡ false)
      × ((is_chargeable (charge_state i).state && is_makeup i.purpose) ≡ false)
charge_apart i = let t = charge_state-table i in (ground (arith, t.0, t.1), ground (arith, t.0))

to_entry-Consistent :
    (series : List ClassSeries) (exceptions : List ClassException) (outcomes : List OutcomeInput)
    (now : Instant) (o : Occurrence)
    → Consistent (to_entry series exceptions outcomes now o)
unfolding to_entry
to_entry-Consistent series exceptions outcomes now o = (
  ap
        (λ b.
          b
          && (let c = charge_state (charge_input series exceptions outcomes now o) in
              is_chargeable c.state || is_made_up c.state))
        (scheduler_state_cancelled o.status o.kind)
      ∙ (charge_apart (charge_input series exceptions outcomes now o)).0,
  (charge_apart (charge_input series exceptions outcomes now o)).1,
  ap (λ b. is_makeup o.purpose && not b)
      (sym (
        is_some-original_of
          (link_of exceptions (is_makeup o.purpose) (find (λ s. str_eq s.id o.series_id) series)))),
)

All-to_entry :
    (series : List ClassSeries) (exceptions : List ClassException) (outcomes : List OutcomeInput)
    (now : Instant) (os : List Occurrence)
    → All Consistent (map (to_entry series exceptions outcomes now) os)
All-to_entry series exceptions outcomes now [] = tt
All-to_entry series exceptions outcomes now (o ∷ os) = (
  to_entry-Consistent series exceptions outcomes now o,
  All-to_entry series exceptions outcomes now os,
)

module _ (behind : Instant → ℕ) (key_le : Key → Key → Bool) where
  -- A student has an entry for a class exactly if one of their series of that id shows that original
  -- date in the range of the month.
  pub any-student_entries :
      (str_le : String → String → Bool) (series : List ClassSeries)
      (exceptions : List ClassException) (outcomes : List OutcomeInput) (now : Instant) (month : ℕ)
      (student_id : String) (id : String) (d : Date)
      → any
          (λ e. key_eq e.occurrence_ref (id, d))
          (student_entries behind key_le str_le series exceptions outcomes now month student_id)
        ≡ any
            (λ s.
              str_eq s.id id
              && is_some (
                  shown behind s
                    (exceptions_of (series_of series student_id) exceptions)
                    (month_range month).0
                    (month_range month).1
                    d))
            (series_of series student_id)
  unfolding student_entries
  any-student_entries str_le series exceptions outcomes now month student_id id d =
      let own = series_of series student_id in
      let es = exceptions_of own exceptions in
      let from = (month_range month).0 in
      let to = (month_range month).1 in
      any-sort_by (entry_le behind key_le str_le) (λ e. key_eq e.occurrence_ref (id, d)) _
      ∙ any-ref series exceptions outcomes now (id, d) _
      ∙ any-own_key own from to (id, d) _ (expand_occurrences-ListedBy behind key_le own es from to)
      ∙ any-expand_occurrences behind key_le id d own es from to

  -- No entry of a student is charged or made up where the class is cancelled, none charges a makeup,
  -- and an entry is marked as an unlinked makeup exactly if it is a makeup without the date of the
  -- class that it makes up.
  pub student_entries-Consistent :
      (str_le : String → String → Bool) (series : List ClassSeries)
      (exceptions : List ClassException) (outcomes : List OutcomeInput) (now : Instant) (month : ℕ)
      (student_id : String)
      → All Consistent
          (student_entries behind key_le str_le series exceptions outcomes now month student_id)
  unfolding student_entries
  student_entries-Consistent str_le series exceptions outcomes now month student_id =
      All-sort_by (entry_le behind key_le str_le) Consistent _
        (All-to_entry series exceptions outcomes now _)
