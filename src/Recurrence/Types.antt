-- ===== src/Recurrence/Types.antt =====
-- The types of recurrence.ts, and what one series says of one date.
use ap_academy_landing.Prelude.{
  ℕ, ◌%◌, String, Bool, true, false, ◌&&◌, Option, none, some, ltb, leb, ◌==◌, if◌then◌else◌,
  str_eq,
}
use ap_academy_landing.Wallclock.{Date, Time, Instant, days_between}

pub data ClassPurpose : Type 0 where
  makeup trial extra : ClassPurpose

pub data SeriesKind : Type 0 where
  one_off weekly : SeriesKind

pub data ChangeKind : Type 0 where
  cancelled moved : ChangeKind

pub data Status : Type 0 where
  scheduled cancelled moved : Status

pub record ClassSeries : Type 0 where
  pub id : String
  pub staff_id : String
  pub student_id : String
  pub subject : String
  pub kind : SeriesKind
  pub start_date : Date
  pub start_time : Time
  pub duration_minutes : ℕ
  pub effective_until : Option Date
  pub purpose : Option ClassPurpose
  pub makeup_for : Option String

pub record ClassException : Type 0 where
  pub id : Option String
  pub series_id : String
  pub original_date : Date
  pub kind : ChangeKind
  pub new_date : Option Date
  pub new_start_time : Option Time

abbrev pub Key : Type 0
Key = String × Date

pub record Occurrence : Type 0 where
  pub occurrence_key : Key
  pub series_id : String
  pub original_date : Date
  pub date : Date
  pub start_time : Time
  pub end_time : Time
  pub duration_minutes : ℕ
  pub starts_at : Instant
  pub ends_at : Instant
  pub staff_id : String
  pub student_id : String
  pub subject : String
  pub status : Status
  pub kind : SeriesKind
  pub purpose : Option ClassPurpose

abbrev pub key_of : String → Date → Key
key_of series_id original_date = (series_id, original_date)

abbrev pub key_eq : Key → Key → Bool
key_eq a b = str_eq a.0 b.0 && a.1 == b.1

abbrev pub is_cancelled : Status → Bool
is_cancelled cancelled = true
is_cancelled scheduled = false
is_cancelled moved = false

abbrev pub in_range : Date → Date → Date → Bool
in_range from to date = leb from date && leb date to

-- `until && date > until`
abbrev pub is_past_end : Option Date → Date → Bool
is_past_end none date = false
is_past_end (some until) date = ltb until date

abbrev pub pattern_on : SeriesKind → Option Date → Date → Date → Bool
pattern_on one_off until start date = date == start
pattern_on weekly until start date =
    if is_past_end until date then false else days_between start date % 7 == 0

unfoldable pub is_pattern_date : ClassSeries → Date → Bool
is_pattern_date s date =
    if ltb date s.start_date then false else pattern_on s.kind s.effective_until s.start_date date
