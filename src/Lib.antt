-- ===== src/Lib.antt =====
-- The scheduling, billing and sending logic of AP Academy's tracker, verified.
--
-- The tracker keeps weekly and one-off class rules, the changes made to single classes, and the open
-- hours of its staff. Everything a page shows is computed from these rows by pure functions: the
-- dated classes, the open minutes of a day, the conflicts of the two, the problems of a booking, the
-- totals of a week, the month of a child, and the billing input of a month. These functions are what
-- the modules below translate, each from the file named with it:
--
--   Wallclock     apps/tracker/lib/domain/schedule/wallclock.ts (dates, times, `localToUtc`)
--   Availability  apps/tracker/lib/domain/schedule/availability.ts (`computeAvailability`)
--   Recurrence    apps/tracker/lib/domain/schedule/recurrence.ts (`expandOccurrences`, `planSplit`)
--   Conflicts     apps/tracker/lib/domain/schedule/conflicts.ts (`findConflicts`)
--   Booking       apps/tracker/lib/domain/schedule/booking.ts (`bookingWindow`, `checkBooking`)
--   Week          apps/tracker/lib/domain/schedule/week.ts (`weekOf`, `weekTotals`)
--   Edits         apps/tracker/lib/domain/schedule/edits.ts (the checks of an edit)
--   CopyDay       apps/tracker/lib/domain/schedule/copy-day.ts (`planCopy`)
--   Calendar      apps/tracker/lib/domain/schedule/month.ts (`monthRange`, `sundayWeekOf`)
--   MonthView     apps/tracker/lib/domain/schedule/month.ts (`classState`, `buildMonth`)
--   Lessons       apps/tracker/lib/domain/schedule/lesson-link.ts (`planLog`, `reconcile`)
--   NetNew        apps/tracker/lib/domain/schedule/net-new.ts (`netNewHours`)
--   Work          apps/tracker/lib/domain/assessment-state.ts, assessment-date.ts and priorities.ts
--   ClassWrites   apps/tracker/lib/scheduler/schedule-handlers.ts (the class writes and their checks),
--                 over the store of app/api/scheduler/series-writes.fake.ts
--   Access        apps/tracker/lib/scheduler/identity.ts and guard.ts, apps/tracker/lib/domain/staff.ts
--   Outbox        apps/tracker/lib/scheduler/outbox.ts and notion-errors.ts (`drainOutbox`)
--   Sends         apps/tracker/lib/iris/send.ts, with the send rows of iris/store.fake.ts
--   Billing       apps/tracker/lib/domain/billing/charge-state.ts and month-input.ts
--   Ids           apps/tracker/lib/domain/billing.ts (`normalId`)
--   Prelude       names and lemmas that the others share
--
-- Availability, Recurrence and Calendar stand on Wallclock. Conflicts reads the days of Availability
-- and the classes of Recurrence, Booking reads Conflicts, and Week both; MonthView and Billing expand
-- the series of a month; Lessons and NetNew compare Notion ids by Ids. ClassWrites asks Access who is
-- calling, checks a class by Booking, and writes it under booking stamps.
--
-- A function keeps its name, in snake case; a loop is a recursion over what it runs through, and one
-- round of it is a definition of its own. A `Map` built from a list is the list, read from the end as
-- later entries replace earlier ones, or a function of the key where it is an argument. A record that
-- the source updates in part is copied with the fields that change. Fields that the modelled code
-- never reads are left out.
--
-- Dates `YYYY-MM-DD` are day numbers from 0000-01-01 and months `YYYY-MM` month numbers, so that the
-- order of the texts is the order of the numbers; they start at year 100, and subtraction of days
-- stays above 0. Times `HH:MM` are minutes below 100:00, which holds for every class that starts
-- before 24:00 and takes at most 480 minutes; Wallclock.Text has the texts themselves. An instant is
-- a number of milliseconds. Wallclock.Zone takes the offset that `Intl.DateTimeFormat` gives as
-- a function, `behind`; Recurrence takes as `key_le` the collation of keys of `localeCompare`.
--
-- Two loops run on fuel: `dates_until` of Recurrence.Pattern on one more than the last date, which is
-- above the number of its rounds as each adds seven days to a date; and the loops over the days of
-- a range on the number of these days.
--
-- A handler runs over an explicit store. What other clients write between its calls, whether
-- a storage call answers, and what Gmail answers are functions or records that the definitions take.
-- `bookUnderStamps` makes at most two rounds, which are written out, and `drainOutbox` as many as its
-- limit, on which its loop recurs. The reads of one check of a class are made at one moment, where the
-- source awaits them one by one; the stamps are read before them and compared by the write after them.
-- A locked write can take effect and lose its answer, and so can the calls of a send. The attempts of
-- sends are a list of those under way, in any process: each looks, delivers or dies in a step of its
-- own, and is taken to be over when the lease passes that its claim gave it. The
-- limit and the time budget of a run are left out, since a run may come for any send at any time.
--
-- Not modelled: the other handlers, and the delivery of what a write owes; the
-- adapters to Notion, Gmail and Supabase; the texts that are written to Notion or read from it; the
-- grades; the reading and drafting of mail; the founder console; pages and components; the landing site.
pub mod Prelude
pub mod Wallclock
pub mod Availability
pub mod Recurrence
pub mod Week
pub mod Conflicts
pub mod Booking
pub mod Edits
pub mod CopyDay
pub mod Ids
pub mod Calendar
pub mod Billing
pub mod NetNew
pub mod Lessons
pub mod MonthView
pub mod Work
pub mod Sends
pub mod Access
pub mod ClassWrites
pub mod Outbox
