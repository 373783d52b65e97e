-- ===== src/Access/Tests.antt =====
-- A teacher's login, and the theorem of the component at it.
use ap_academy_landing.Prelude.{refl, true, none, some, [], ◌∷◌}
use ap_academy_landing.Access.{
  AllowedIdentity, IdentityDeps, Scopes, StaffRecord, has_staff_access, require_scheduler,
  resolve_scheduler_identity,
}
use ap_academy_landing.Access.Scope.{MayTouch, has_staff_access-resolve}

abbrev ryan : StaffRecord
ryan = record {
  id = "t1";
  name = "Ryan";
  email = none;
  functions = "Teacher" ∷ [];
  status = some "Active";
  subjects = [];
}

abbrev login : IdentityDeps
login = record {
  configured = true;
  user = some "u1";
  owned_org = none;
  link = some (record { org_id = "o1"; notion_staff_id = "t1" });
  get_staff = λ org id. some (some ryan);
  synced_at = λ org. some (some "2026-10-19");
}

abbrev everyone : Scopes
everyone = record { takes_admin = true; takes_teacher = true }

has_staff_access-resolve_example : MayTouch login "t1"
unfolding resolve_scheduler_identity require_scheduler has_staff_access
has_staff_access-resolve_example =
    has_staff_access-resolve login everyone (AllowedIdentity.teacher "o1" ryan) "t1" refl refl
