-- ===== src/Access.antt =====
-- Who is calling the scheduler: apps/tracker/lib/domain/staff.ts, and identity.ts and guard.ts of
-- apps/tracker/lib/scheduler. A call that can throw answers `none` in place of a value.
pub mod Scope
mod Tests
use ap_academy_landing.Prelude.{
  ℕ, String, Bool, true, false, not, ◌&&◌, Option, none, some, List, [], ◌∷◌, any, if◌then◌else◌,
  str_eq, is_some,
}

pub record StaffRecord : Type 0 where
  pub id : String
  pub name : String
  pub email : Option String
  pub functions : List String
  pub status : Option String
  pub subjects : List String

-- `includes`
abbrev pub includes : List String → String → Bool
includes xs x = any (λ y. str_eq y x) xs

abbrev pub active_statuses : List String
active_statuses = "Active" ∷ "Onboarding" ∷ []

abbrev pub teaching_functions : List String
teaching_functions = "Teacher" ∷ "Trial Teacher" ∷ []

abbrev pub is_active_status : Option String → Bool
is_active_status none = false
is_active_status (some status) = includes active_statuses status

unfoldable pub is_active_teaching_staff : StaffRecord → Bool
is_active_teaching_staff s =
    is_active_status s.status && any (includes teaching_functions) s.functions

pub data SchedulerIdentity : Type 0 where
  admin : String → Option StaffRecord → SchedulerIdentity
  teacher : String → StaffRecord → SchedulerIdentity
  nobody signed_out unconfigured unavailable : SchedulerIdentity

pub record Link : Type 0 where
  pub org_id : String
  pub notion_staff_id : String

-- `IdentityDeps`; whether the claim of a link throws makes no difference.
pub record IdentityDeps : Type 0 where
  pub configured : Bool
  pub user : Option String
  pub owned_org : Option String
  pub link : Option Link
  pub get_staff : String → String → Option (Option StaffRecord)
  pub synced_at : String → Option (Option String)

-- `staff` after a read that may throw
abbrev pub found_staff : Option (Option StaffRecord) → Option StaffRecord
found_staff none = none
found_staff (some s) = s

abbrev pub linked_staff : IdentityDeps → Option Link → Option StaffRecord
linked_staff deps none = none
linked_staff deps (some l) = found_staff (deps.get_staff l.org_id l.notion_staff_id)

abbrev pub teacher_if : String → Option StaffRecord → SchedulerIdentity
teacher_if org_id none = nobody
teacher_if org_id (some s) = if is_active_teaching_staff s then teacher org_id s else nobody

abbrev pub teacher_from : String → Option (Option StaffRecord) → SchedulerIdentity
teacher_from org_id none = unavailable
teacher_from org_id (some s) = teacher_if org_id s

abbrev pub synced : Option (Option String) → Bool
synced none = false
synced (some none) = false
synced (some (some at)) = true

abbrev pub through_link : IdentityDeps → Option Link → SchedulerIdentity
through_link deps none = nobody
through_link deps (some l) =
    if not (synced (deps.synced_at l.org_id))
    then unavailable
    else teacher_from l.org_id (deps.get_staff l.org_id l.notion_staff_id)

abbrev pub owner_or : IdentityDeps → Option String → SchedulerIdentity
owner_or deps (some org_id) = admin org_id (linked_staff deps deps.link)
owner_or deps none = through_link deps deps.link

unfoldable pub resolve_scheduler_identity : IdentityDeps → SchedulerIdentity
unfolding is_active_teaching_staff
resolve_scheduler_identity deps =
    if not deps.configured
    then unconfigured
    else if not (is_some deps.user)
    then signed_out
    else owner_or deps deps.owned_org

pub data DenialError : Type 0 where
  unauthenticated forbidden scheduler_not_configured scheduler_unavailable : DenialError

-- `Allowed["identity"]`
pub data AllowedIdentity : Type 0 where
  admin : String → Option StaffRecord → AllowedIdentity
  teacher : String → StaffRecord → AllowedIdentity

-- Which of the scopes "admin" and "teacher" an endpoint takes.
pub record Scopes : Type 0 where
  pub takes_admin : Bool
  pub takes_teacher : Bool

pub data Guarded : Type 0 where
  allowed : AllowedIdentity → Guarded
  denied : ℕ → DenialError → Guarded

unfoldable pub require_scheduler : SchedulerIdentity → Scopes → Guarded
require_scheduler (admin org staff) scopes =
    if scopes.takes_admin then allowed (AllowedIdentity.admin org staff) else denied 403 forbidden
require_scheduler (teacher org staff) scopes =
    if scopes.takes_teacher
    then allowed (AllowedIdentity.teacher org staff)
    else denied 403 forbidden
require_scheduler nobody scopes = denied 403 forbidden
require_scheduler signed_out scopes = denied 401 unauthenticated
require_scheduler unconfigured scopes = denied 503 scheduler_not_configured
require_scheduler unavailable scopes = denied 503 scheduler_unavailable

-- `assertStaffAccess(identity, staffId).ok`
unfoldable pub has_staff_access : AllowedIdentity → String → Bool
has_staff_access (AllowedIdentity.admin org staff) staff_id = true
has_staff_access (AllowedIdentity.teacher org staff) staff_id = str_eq staff.id staff_id
