-- ===== src/Access/Policy.antt =====
-- `jobAccessPolicy` (backend/utils/jobAccessPolicy.js): the decision on one job.
use stenograma.Prelude.{
  ◌≡◌, refl, sym, ◌∙◌, ◌⊎◌, inl, inr, Bool, true, false, ◌&&◌, Option, none, some,
}
use stenograma.Result.{Result, ok, err, ok-injective, type_error}
use stenograma.Value.{Value, is_word, truthy, user, unowned}

-- What the store answered; `unknown_input` is any other value.
pub data Input : Type 0 where
  owned forbidden missing unknown_input : Input

pub data Operation : Type 0 where
  read export delete unknown_operation : Operation

pub data Decision : Type 0 where
  owner_access admin_delete_override admin_orphan_cleanup desktop_orphan_cleanup : Decision
  denied not_found : Decision

pub record Actor : Type 0 where
  pub actor_kind : Value
  pub actor_id : Value
  pub is_administrator : Bool  -- `actor.role === "administrator"`

-- `reikiaRezultato(operation)`.
unfoldable pub reikia_rezultato : Operation → Result Bool
reikia_rezultato read = ok true
reikia_rezultato export = ok true
reikia_rezultato delete = ok false
reikia_rezultato unknown_operation = err type_error

unfoldable pub is_session_admin : Option Actor → Bool
is_session_admin none = false
is_session_admin (some a) = is_word user a.actor_kind && truthy a.actor_id && a.is_administrator

-- `actor && actor.ownerKind === UNOWNED`.
unfoldable pub is_unowned : Option Actor → Bool
is_unowned none = false
is_unowned (some a) = is_word unowned a.actor_kind

abbrev on_delete : Operation → Decision → Decision → Decision
on_delete delete d e = d
on_delete _ d e = e

abbrev decide_forbidden : Bool → Operation → Decision
decide_forbidden false op = not_found
decide_forbidden true op = on_delete op admin_delete_override denied

abbrev decide_missing : Bool → Bool → Operation → Decision
decide_missing true admin op = on_delete op desktop_orphan_cleanup not_found
decide_missing false false op = not_found
decide_missing false true op = on_delete op admin_orphan_cleanup denied

abbrev decide_known : Input → Option Actor → Operation → Result Decision
decide_known owned a op = ok owner_access
decide_known forbidden a op = ok (decide_forbidden (is_session_admin a) op)
decide_known missing a op = ok (decide_missing (is_unowned a) (is_session_admin a) op)
decide_known unknown_input a op = err type_error

unfoldable pub decide_job_access : Input → Option Actor → Operation → Result Decision
decide_job_access input a unknown_operation = err type_error
decide_job_access input a op = decide_known input a op

-- Who is neither a session administrator nor the desktop mode cannot tell a job of somebody else
-- from one that does not exist: the two inputs have the same decision for every operation.
pub decide_hides_existence :
    (a : Option Actor) (op : Operation)
    → is_session_admin a ≡ false
    → is_unowned a ≡ false
    → decide_job_access forbidden a op ≡ decide_job_access missing a op
unfolding decide_job_access
decide_hides_existence a read h u = rw (h, u)
decide_hides_existence a export h u = rw (h, u)
decide_hides_existence a delete h u = rw (h, u)
decide_hides_existence a unknown_operation h u = refl

-- The decisions that let the caller go on.
abbrev pub is_granted : Decision → Bool
is_granted denied = false
is_granted not_found = false
is_granted _ = true

-- A user of a session, with an id and the role of an administrator.
abbrev pub IsSessionAdmin : Option Actor → Type 0
IsSessionAdmin none = ⊥
IsSessionAdmin (some a) =
    (is_word user a.actor_kind ≡ true) × (truthy a.actor_id ≡ true) × (a.is_administrator ≡ true)

-- The desktop mode, where nothing has an owner.
abbrev pub IsDesktop : Option Actor → Type 0
IsDesktop none = ⊥
IsDesktop (some a) = is_word unowned a.actor_kind ≡ true

is_session_admin-IsSessionAdmin : (a : Option Actor) → is_session_admin a ≡ true → IsSessionAdmin a
unfolding is_session_admin
is_session_admin-IsSessionAdmin none h = cc
is_session_admin-IsSessionAdmin (some a) h =
    all_three (is_word user a.actor_kind) (truthy a.actor_id) a.is_administrator h
  where
    all_three : (x y z : Bool) → (x && y && z) ≡ true → (x ≡ true) × (y ≡ true) × (z ≡ true)
    all_three true true true h = (refl, refl, refl)
    all_three true true false h = cc
    all_three true false z h = cc
    all_three false y z h = cc

is_unowned-IsDesktop : (a : Option Actor) → is_unowned a ≡ true → IsDesktop a
unfolding is_unowned
is_unowned-IsDesktop none h = cc
is_unowned-IsDesktop (some a) h = h

granted_forbidden :
    (admin : Bool) (op : Operation)
    → is_granted (decide_forbidden admin op) ≡ true
    → (op ≡ delete) × (decide_forbidden admin op ≡ admin_delete_override) × (admin ≡ true)
granted_forbidden false op g = cc
granted_forbidden true read g = cc
granted_forbidden true export g = cc
granted_forbidden true delete g = (refl, refl, refl)
granted_forbidden true unknown_operation g = cc

granted_missing :
    (desktop admin : Bool) (op : Operation)
    → is_granted (decide_missing desktop admin op) ≡ true
    → (op ≡ delete)
      × (((decide_missing desktop admin op ≡ desktop_orphan_cleanup) × (desktop ≡ true))
          ⊎ ((decide_missing desktop admin op ≡ admin_orphan_cleanup) × (admin ≡ true)))
granted_missing true admin read g = cc
granted_missing true admin export g = cc
granted_missing true admin delete g = (refl, inl (refl, refl))
granted_missing true admin unknown_operation g = cc
granted_missing false false op g = cc
granted_missing false true read g = cc
granted_missing false true export g = cc
granted_missing false true delete g = (refl, inr (refl, refl))
granted_missing false true unknown_operation g = cc

decided_known :
    (input : Input) (a : Option Actor) (op : Operation) (d : Decision)
    → decide_job_access input a op ≡ ok d
    → decide_known input a op ≡ ok d
unfolding decide_job_access
decided_known input a read d h = h
decided_known input a export d h = h
decided_known input a delete d h = h
decided_known input a unknown_operation d h = cc

-- Every decision that lets a caller go on: either the caller owns the job, and the decision is that of
-- the owner; or the operation is a deletion, and then a job of somebody else is deleted by a session
-- administrator only, and one that is missing in the desktop mode or by a session administrator.
pub decide_granted :
    (input : Input) (a : Option Actor) (op : Operation) (d : Decision)
    → decide_job_access input a op ≡ ok d
    → is_granted d ≡ true
    → ((input ≡ owned) × (d ≡ owner_access))
      ⊎ ((op ≡ delete)
          × (((input ≡ forbidden) × (d ≡ admin_delete_override) × IsSessionAdmin a)
              ⊎ (((input ≡ missing) × (d ≡ desktop_orphan_cleanup) × IsDesktop a)
                  ⊎ ((input ≡ missing) × (d ≡ admin_orphan_cleanup) × IsSessionAdmin a))))
decide_granted owned a op d h g = inl (refl, sym (ok-injective _ _ (decided_known owned a op d h)))
decide_granted unknown_input a op d h g = absurd (thrown d (decided_known unknown_input a op d h))
  where
    thrown : (d : Decision) → err type_error ≡ ok d → ⊥
    thrown d p = cc
decide_granted forbidden a op d h g =
    let is = ok-injective _ _ (decided_known forbidden a op d h) in
    let (is_delete, override, admin) = granted_forbidden (is_session_admin a) op (rw is g) in
    inr (is_delete, inl (refl, sym is ∙ override, is_session_admin-IsSessionAdmin a admin))
decide_granted missing a op d h g =
    let is = ok-injective _ _ (decided_known missing a op d h) in
    let (is_delete, cleanup) = granted_missing (is_unowned a) (is_session_admin a) op (rw is g) in
    inr (
      is_delete,
      inr (elim cleanup [
        | inl (desktop, no_owner) ↦ inl (refl, sym is ∙ desktop, is_unowned-IsDesktop a no_owner)
        | inr (orphan, admin) ↦ inr (refl, sym is ∙ orphan, is_session_admin-IsSessionAdmin a admin)
      ]),
    )
