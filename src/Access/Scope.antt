-- ===== src/Access/Scope.antt =====
-- Whose rows a caller may touch.
use mathlib.Core.Bool.{not, not, not, not, not, not, not, not, not, not, not, not, not, not}
use ap_academy_landing.Prelude.{
  not-eq-false, String, ◌≡◌, refl, ap, ◌∙◌, ◌⊎◌, inl, inr, Bool, true, false, not, Option, none,
  some, if◌then◌else◌, Bool-cases, eq_iff, is_some,
}
use ap_academy_landing.Access.{
  AllowedIdentity, Guarded, IdentityDeps, Link, SchedulerIdentity, Scopes, StaffRecord, admin,
  allowed, denied, has_staff_access, is_active_teaching_staff, nobody, owner_or, require_scheduler,
  resolve_scheduler_identity, signed_out, synced, teacher, teacher_from, through_link, unavailable,
  unconfigured,
}

-- The login is linked to this active teacher, in an organisation whose staff has been synced.
abbrev pub IsLinkedTo : IdentityDeps → StaffRecord → Type 0
IsLinkedTo deps s =
    (l : Link) × (deps.link ≡ some l)
    × (deps.get_staff l.org_id l.notion_staff_id ≡ some (some s))
    × (synced (deps.synced_at l.org_id) ≡ true)
    × (is_active_teaching_staff s ≡ true)

-- What an identity stands for.
abbrev pub Stands : IdentityDeps → SchedulerIdentity → Type 0
Stands deps (admin org s) = deps.owned_org ≡ some org
Stands deps (teacher org s) = IsLinkedTo deps s
Stands deps nobody = Unit
Stands deps signed_out = Unit
Stands deps unconfigured = Unit
Stands deps unavailable = Unit

Stands-if :
    (deps : IdentityDeps) (b : Bool) (x y : SchedulerIdentity)
    → (b ≡ true → Stands deps x)
    → (b ≡ false → Stands deps y)
    → Stands deps (if b then x else y)
Stands-if deps true x y h k = h refl
Stands-if deps false x y h k = k refl

teacher_from-Stands :
    (deps : IdentityDeps) (l : Link)
    → deps.link ≡ some l
    → synced (deps.synced_at l.org_id) ≡ true
    → (s : Option (Option StaffRecord)) → deps.get_staff l.org_id l.notion_staff_id ≡ s
    → Stands deps (teacher_from l.org_id s)
teacher_from-Stands deps l q fresh none e = tt
teacher_from-Stands deps l q fresh (some none) e = tt
teacher_from-Stands deps l q fresh (some (some s)) e =
    Stands-if deps (is_active_teaching_staff s) _ _ (λ a. (l, q, e, fresh, a)) (λ a. tt)

through_link-Stands :
    (deps : IdentityDeps) (l : Option Link) → deps.link ≡ l → Stands deps (through_link deps l)
through_link-Stands deps none q = tt
through_link-Stands deps (some l) q =
    Stands-if deps (not (synced (deps.synced_at l.org_id))) _ _ (λ e. tt)
      (λ e.
        teacher_from-Stands deps l q (not-eq-false (synced (deps.synced_at l.org_id)) e)
          (deps.get_staff l.org_id l.notion_staff_id) refl)

owner_or-Stands :
    (deps : IdentityDeps) (org : Option String)
    → deps.owned_org ≡ org
    → Stands deps (owner_or deps org)
owner_or-Stands deps (some org) q = q
owner_or-Stands deps none q = through_link-Stands deps deps.link refl

resolve-Stands : (deps : IdentityDeps) → Stands deps (resolve_scheduler_identity deps)
unfolding resolve_scheduler_identity
resolve-Stands deps =
    Stands-if deps (not deps.configured) _ _ (λ e. tt)
      (λ e.
        Stands-if deps (not (is_some deps.user)) _ _ (λ f. tt)
          (λ f. owner_or-Stands deps deps.owned_org refl))

-- A caller that an endpoint lets in, and that has access to the rows of a staff id, owns an
-- organisation, or is linked to the active teacher of that id.
abbrev pub MayTouch : IdentityDeps → String → Type 0
MayTouch deps staff_id =
    (is_some deps.owned_org ≡ true) ⊎ ((s : StaffRecord) × IsLinkedTo deps s × (s.id ≡ staff_id))

-- The id of the teacher that is let in.
abbrev id_in : String → Guarded → String
id_in other (allowed (AllowedIdentity.teacher org s)) = s.id
id_in other (allowed (AllowedIdentity.admin org s)) = other
id_in other (denied status error) = other

by_identity :
    (deps : IdentityDeps) (scopes : Scopes) (id : SchedulerIdentity) (who : AllowedIdentity)
    (staff_id : String)
    → Stands deps id
    → require_scheduler id scopes ≡ allowed who
    → has_staff_access who staff_id ≡ true
    → MayTouch deps staff_id
unfolding require_scheduler has_staff_access
by_identity deps scopes (admin org s) who staff_id h e k = inl (rw h refl)
by_identity deps scopes (teacher org s) who staff_id h e k =
    elim (Bool-cases scopes.takes_teacher) [
      | inr b ↦ absurd (cc (rw b at e))
      | inl b ↦ inr (s, h, same who (rw b at e) k)
    ]
  where
    same :
        (x : AllowedIdentity)
        → allowed (AllowedIdentity.teacher org s) ≡ allowed x
        → has_staff_access x staff_id ≡ true
        → s.id ≡ staff_id
    same (AllowedIdentity.admin o t) q a = absurd (cc)
    same (AllowedIdentity.teacher o t) q a = ap (id_in s.id) q ∙ (eq_iff t.id staff_id).0 a
by_identity deps scopes nobody who staff_id h e k = absurd (cc)
by_identity deps scopes signed_out who staff_id h e k = absurd (cc)
by_identity deps scopes unconfigured who staff_id h e k = absurd (cc)
by_identity deps scopes unavailable who staff_id h e k = absurd (cc)

-- A caller whose identity an endpoint allows, and who has access to the rows of a staff id, owns an
-- organisation, or has a login linked to the active teaching staff member of that id in an
-- organisation whose people have been synced.
pub has_staff_access-resolve :
    (deps : IdentityDeps) (scopes : Scopes) (who : AllowedIdentity) (staff_id : String)
    → require_scheduler (resolve_scheduler_identity deps) scopes ≡ allowed who
    → has_staff_access who staff_id ≡ true
    → MayTouch deps staff_id
has_staff_access-resolve deps scopes who staff_id e k =
    by_identity deps scopes (resolve_scheduler_identity deps) who staff_id (resolve-Stands deps) e k
