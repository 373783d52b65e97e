-- ===== src/Recurrence.antt =====
-- apps/tracker/lib/domain/schedule/recurrence.ts: weekly and one-off class rules, their dated
-- occurrences, and the split "this class and future".
-- The occurrence key `seriesId:originalDate` is the pair of its parts. `behind` is the zone's clock
-- (Wallclock.Zone), and `key_le` the collation by which `localeCompare` orders two keys.
pub mod Types
pub mod Pattern
pub mod Expand
pub mod Shown
pub mod Listed
pub mod Distinct
pub mod Split
mod Tests
pub use Types.*
