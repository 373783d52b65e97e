-- ===== src/NetNew/Result.antt =====
-- The students who are not in the scheduler, the sums, and the result of `netNewHours`.
use ap_academy_landing.Ids.{same_id}
use ap_academy_landing.Wallclock.{Instant}
use ap_academy_landing.Prelude.{
  is_some, ℕ, String, Bool, true, false, not, ◌&&◌, Option, none, some, List, [], ◌∷◌, ◌++◌, leb,
  if◌then◌else◌, sum_by, ◌-◌, any, filter, flat_map,
}
use ap_academy_landing.NetNew.{
  failed, ok, is_verifying, People, Student, Read, unclassified, unverified, reduction,
  is_classified, verified, distinct_from, adoption_of, addition, WeekRange, NetNewInput, Adoption,
  CountedEvent, ExcludedSeries, EventName, EventClass,
}
use ap_academy_landing.NetNew.Rounds.{round, kept, counted_events, excluded_series, opening_minutes}

-- `Map.set(normalId(id), id)`: the spelling is replaced where the id is there already.
abbrev pub set_id : List String → String → List String
set_id [] id = id ∷ []
set_id (x ∷ ids) id = if same_id x id then id ∷ ids else x ∷ set_id ids id

unfoldable pub set_ids : List String → List String → List String
set_ids ids [] = ids
set_ids ids (id ∷ more) = set_ids (set_id ids id) more

abbrev pub has_same_id : List String → String → Bool
has_same_id ids id = any (λ x. same_id x id) ids

-- The loop over the students.
unfoldable pub add_students : List Adoption → List Student → List String → List String
add_students adoptions [] ids = ids
add_students adoptions (p ∷ students) ids = add_students adoptions students (
    if is_verifying p.stage
      && (not (is_some (adoption_of adoptions p.id)) && not (has_same_id ids p.id))
    then ids ++ p.id ∷ []
    else ids)

abbrev pub with_students : List Adoption → Read People → List String → List String
with_students adoptions (failed reason) ids = ids
with_students adoptions (ok people) ids = add_students adoptions people.students ids

unfoldable pub missing_students : NetNewInput → List String
unfolding round distinct_from set_ids add_students
missing_students input =
    with_students input.adoptions input.people
      (set_ids [] (flat_map (λ s. (round input s).missing) (kept input)))

abbrev pub is_addition : EventName → Bool
is_addition addition = true
is_addition reduction = false

abbrev pub class_eq : EventClass → EventClass → Bool
class_eq verified verified = true
class_eq verified unverified = false
class_eq verified unclassified = false
class_eq unverified verified = false
class_eq unverified unverified = true
class_eq unverified unclassified = false
class_eq unclassified verified = false
class_eq unclassified unverified = false
class_eq unclassified unclassified = true

abbrev pub event_eq : EventName → EventName → Bool
event_eq a b = if is_addition a then is_addition b else not (is_addition b)

abbrev pub class_is : Option EventClass → EventClass → Bool
class_is none c = true
class_is (some wanted) c = class_eq c wanted

-- `sum(cls, event)`
abbrev pub sum_events : List CountedEvent → Option EventClass → EventName → ℕ
sum_events counted wanted event =
    sum_by (λ c. c.minutes)
      (filter (λ c. class_is wanted c.event_class && event_eq c.event event) counted)

pub data ℤ : Type 0 where
  pos negsuc : ℕ → ℤ

-- `a - b`
abbrev pub difference : ℕ → ℕ → ℤ
difference a b = if leb b a then pos (a - b) else negsuc (b - a - 1)

pub data ResultStatus : Type 0 where
  settled incomplete unverifiable : ResultStatus

pub record Figures : Type 0 where
  pub opening_verified : ℕ
  pub additions_verified : ℕ
  pub reductions_verified : ℕ
  pub net_new_verified : ℤ
  pub additions_unverified : ℕ
  pub reductions_unverified : ℕ
  pub net_new_unverified : ℤ

-- The seven figures are all null or all given. `settled` is the status `"verified"`.
pub record NetNewResult : Type 0 where
  pub week : WeekRange
  pub status : ResultStatus
  pub reasons : List String
  pub figures : Option Figures
  pub gross_additions : ℕ
  pub gross_reductions : ℕ
  pub counted : List CountedEvent
  pub excluded : List ExcludedSeries
  pub missing : List String
  pub synced_at : Option Instant

abbrev pub figures_of : List CountedEvent → ℕ → Figures
figures_of counted opening =
    let va = sum_events counted (some verified) addition in
    let vr = sum_events counted (some verified) reduction in
    let ua = sum_events counted (some unverified) addition in
    let ur = sum_events counted (some unverified) reduction in
    record {
      opening_verified = opening;
      additions_verified = va;
      reductions_verified = vr;
      net_new_verified = difference va vr;
      additions_unverified = ua;
      reductions_unverified = ur;
      net_new_unverified = difference ua ur;
    }

abbrev pub reason_list {ℓ} : {A : Type ℓ} → Read A → List String
reason_list (ok a) = []
reason_list (failed reason) = reason ∷ []

abbrev pub synced_of : Read People → Option Instant
synced_of (ok people) = people.synced_at
synced_of (failed reason) = none

abbrev pub is_stale : Read People → Bool
is_stale (ok people) = people.stale
is_stale (failed reason) = false

unfoldable pub net_new_hours : NetNewInput → NetNewResult
unfolding counted_events excluded_series opening_minutes missing_students
net_new_hours input =
    let counted = counted_events input in
    let known = is_classified input in
    record {
      week = input.week;
      status =
          if known then (if is_stale input.people then incomplete else settled) else unverifiable;
      reasons = if known then [] else reason_list input.payments ++ reason_list input.people;
      figures = if known then some (figures_of counted (opening_minutes input)) else none;
      gross_additions = sum_events counted none addition;
      gross_reductions = sum_events counted none reduction;
      counted = counted;
      excluded = excluded_series input;
      missing = missing_students input;
      synced_at = synced_of input.people;
    }
