-- ===== src/Sessions/Revocation.antt =====
-- Revocation of login sessions (backend/utils/sessionStore/memoryStore.js): it is final, it reaches every
-- session of a user, and a sweep keeps its trace.
use stenograma.Prelude.{
  ℕ, ◌+◌, ◌≡◌, refl, ◌∙◌, ap, Bool, true, false, ◌&&◌, not, Option, none, some, [], ◌∷◌, Text,
  text_eq, codes, Bool-cases, Option-cases, inl, inr, if◌then◌else◌, leb,
}
use mathlib.Core.Option.{some-injective}
use stenograma.Prelude.Map.{Map, get, set, get-set_self}
use stenograma.Sessions.{
  Session, Sessions, AuthUser, Windows, touch, touch_user, destroy, destroy_found, destroy_all,
  destroy_all_for_user_id, belongs_to, sweep_expired, is_over, is_live, is_revoked, revoked, seen,
  checked_user, patikrinti_tapatybe, palaikoma_schema_versija,
}

revoked_not_live : (now : ℕ) (s : Session) → is_revoked s ≡ true → is_live now s ≡ false
unfolding is_live
revoked_not_live now s h = elim (Bool-cases (palaikoma_schema_versija s.schema_version)) [
  | inl known ↦ rw known (rw h)
  | inr unknown ↦ rw unknown
]

module _ (hash : Text → Text) where
  -- A revoked session authenticates nobody, at any time and whoever the live users are, and the attempt
  -- changes nothing.
  pub touch-is_revoked :
      (token : Text) (now : ℕ) (w : Windows) (users : Map AuthUser) (sessions : Sessions)
      {s : Session}
      → get (hash token) sessions ≡ some s
      → is_revoked s ≡ true
      → touch hash token now w users sessions ≡ (sessions, none)
  unfolding touch
  touch-is_revoked token now w users sessions {s} there h =
      elim (Bool-cases (text_eq token (codes ""))) [
        | inl blank ↦ rw blank
        | inr given ↦ rw given (rw there (rw (revoked_not_live now s h)))
      ]

  destroy_found_revokes :
      (token : Text) (now : ℕ) (sessions : Sessions) (s : Session) {sessions' : Sessions}
      → destroy_found hash token now sessions (some s) ≡ (sessions', true)
      → get (hash token) sessions' ≡ some (revoked s now)
  destroy_found_revokes token now sessions s {sessions'} h = elim (Bool-cases (is_revoked s)) [
    | inl before ↦ absurd (refused (ap (λ p. p.1) (rw before at h)))
    | inr fresh ↦
        rw (← ap (λ p. p.0) (rw fresh at h)) (get-set_self (hash token) (revoked s now) sessions)
  ]
    where
      refused : false ≡ true → ⊥
      refused e = cc

  -- Once a session has been destroyed, its token authenticates nobody at any later call, and destroying
  -- it again answers false; neither changes anything.
  pub destroy_final :
      (token : Text) (now now' : ℕ) (w : Windows) (users : Map AuthUser) (sessions : Sessions)
      {sessions' : Sessions}
      → destroy hash token now sessions ≡ (sessions', true)
      → (touch hash token now' w users sessions' ≡ (sessions', none))
        × (destroy hash token now' sessions' ≡ (sessions', false))
  unfolding destroy
  destroy_final token now now' w users sessions {sessions'} h =
      elim (Bool-cases (text_eq token (codes ""))) [
        | inl blank ↦ absurd (refused (ap (λ p. p.1) (rw blank at h)))
        | inr given ↦ elim (Option-cases (get (hash token) sessions)) [
          | inl gone ↦ absurd (refused (ap (λ p. p.1) (rw gone at (rw given at h))))
          | inr (s, there) ↦
              let stored =
                destroy_found_revokes token now sessions s (rw there at (rw given at h)) in
              (touch-is_revoked token now' w users sessions' stored refl, rw given (rw stored))
        ]
      ]
    where
      refused : false ≡ true → ⊥
      refused e = cc

-- What a successful authentication has found and left.
pub record IsTouched (hash : Text → Text) (token : Text) (now : ℕ) (w : Windows)
    (sessions sessions' : Sessions) (r : Session) : Type 0 where
  pub old : Session
  pub was_there : get (hash token) sessions ≡ some old
  pub was_live : is_live now old ≡ true
  pub same_end : r.expires_at ≡ old.expires_at
  pub same_user : r.user_id ≡ old.user_id
  pub same_role : r.role ≡ old.role
  pub idle_extended : r.idle_expires_at ≡ now + w.idle
  pub stored : get (hash token) sessions' ≡ some r

module _ (hash : Text → Text) (token : Text) (now : ℕ) (w : Windows) (users : Map AuthUser)
    (sessions : Sessions) where
  seen-IsTouched :
      (s : Session) (name : Text) {sessions' : Sessions} {r : Session}
      → get (hash token) sessions ≡ some s
      → is_live now s ≡ true
      → ◌≡◌ {A = Sessions × Option Session}
          (set (hash token) (seen s name now w) sessions, some (seen s name now w))
          (sessions', some r)
      → IsTouched hash token now w sessions sessions' r
  seen-IsTouched s name {sessions'} {r} there live h =
      let e = some-injective (seen s name now w) r (ap (λ p. p.1) h) in
      record {
        old = s;
        was_there = there;
        was_live = live;
        same_end = rw (← e) refl;
        same_user = rw (← e) refl;
        same_role = rw (← e) refl;
        idle_extended = rw (← e) refl;
        stored =
            rw (← ap (λ p. p.0) h)
              (get-set_self (hash token) (seen s name now w) sessions ∙ ap some e);
      }

  touch_user-IsTouched :
      (s : Session) (u : Option Text) {sessions' : Sessions} {r : Session}
      → get (hash token) sessions ≡ some s
      → is_live now s ≡ true
      → touch_user hash token s now w users sessions u ≡ (sessions', some r)
      → IsTouched hash token now w sessions sessions' r
  touch_user-IsTouched s none there live h = seen-IsTouched s s.username there live h
  touch_user-IsTouched s (some u) {sessions'} {r} there live h =
      elim (Option-cases (patikrinti_tapatybe u s.role users)) [
        | inl gone ↦ absurd (nobody r (ap (λ p. p.1) (rw gone at h)))
        | inr (user, ok) ↦ seen-IsTouched s user.name there live (rw ok at h)
      ]
    where
      nobody : (r : Session) → none ≡ some r → ⊥
      nobody r e = cc

  -- A token is accepted only for a stored session that is of a known format, not revoked and within both
  -- of its windows; the session keeps its user, its role and its absolute end, its idle window starts
  -- anew, and what is answered is what is stored.
  pub touch-IsTouched :
      {sessions' : Sessions} {r : Session}
      → touch hash token now w users sessions ≡ (sessions', some r)
      → IsTouched hash token now w sessions sessions' r
  unfolding touch
  touch-IsTouched {sessions'} {r} h = elim (Bool-cases (text_eq token (codes ""))) [
    | inl blank ↦ absurd (nobody r (ap (λ p. p.1) (rw blank at h)))
    | inr given ↦ elim (Option-cases (get (hash token) sessions)) [
      | inl gone ↦ absurd (nobody r (ap (λ p. p.1) (rw gone at (rw given at h))))
      | inr (s, there) ↦ elim (Bool-cases (is_live now s)) [
        | inl live ↦
            touch_user-IsTouched s (checked_user s) there live
              (rw live at (rw there at (rw given at h)))
        | inr over ↦ absurd (nobody r (ap (λ p. p.1) (rw over at (rw there at (rw given at h)))))
      ]
    ]
  ]
    where
      nobody : (r : Session) → none ≡ some r → ⊥
      nobody r e = cc

destroy_all_revokes :
    (p : Session → Bool) (now : ℕ) (h : Text) (sessions : Sessions) {s : Session}
    → get h sessions ≡ some s
    → get h (destroy_all p now sessions).0
      ≡ some (if p s && not (is_revoked s) then revoked s now else s)
unfolding destroy_all get
destroy_all_revokes p now h [] e = cc
destroy_all_revokes p now h ((j, t) ∷ sessions) {s} e = elim (Bool-cases (text_eq j h)) [
  | inl at ↦
      let same = some-injective t s (rw at at e) in
      rw (← same) (elim (Bool-cases (p t && not (is_revoked t))) [
        | inl taken ↦ rw taken (rw at)
        | inr spared ↦ rw spared (rw at)
      ])
  | inr past ↦ elim (Bool-cases (p t && not (is_revoked t))) [
    | inl taken ↦ rw taken (rw past (destroy_all_revokes p now h sessions (rw past at e)))
    | inr spared ↦ rw spared (rw past (destroy_all_revokes p now h sessions (rw past at e)))
  ]
]

-- Destroying all sessions of a user revokes exactly the sessions with that identifier that were not
-- revoked yet; every other session stays as it is.
pub destroy_all_for_user_id_lem :
    (u h : Text) (now : ℕ) (sessions : Sessions) {s : Session}
    → text_eq u (codes "") ≡ false
    → get h sessions ≡ some s
    → get h (destroy_all_for_user_id u now sessions).0
      ≡ some (if belongs_to u s && not (is_revoked s) then revoked s now else s)
unfolding destroy_all_for_user_id
destroy_all_for_user_id_lem u h now sessions named there =
    rw named (destroy_all_revokes (belongs_to u) now h sessions there)

kept-sweep_expired :
    (now : ℕ) (h : Text) (sessions : Sessions) {s : Session}
    → is_over now s ≡ false
    → get h sessions ≡ some s
    → get h (sweep_expired now sessions).0 ≡ some s
unfolding sweep_expired get
kept-sweep_expired now h [] k e = cc
kept-sweep_expired now h ((j, t) ∷ sessions) {s} k e = elim (Bool-cases (text_eq j h)) [
  | inl at ↦ let same = some-injective t s (rw at at e) in rw same (rw k (rw at))
  | inr past ↦ elim (Bool-cases (is_over now t)) [
    | inl over ↦ rw over (kept-sweep_expired now h sessions k (rw past at e))
    | inr kept ↦ rw kept (rw past (kept-sweep_expired now h sessions k (rw past at e)))
  ]
]

-- A revoked session stays in the store until its absolute end, even if its idle window has run out.
pub sweep_expired-is_revoked :
    (now : ℕ) (h : Text) (sessions : Sessions) {s : Session}
    → get h sessions ≡ some s
    → is_revoked s ≡ true
    → leb s.expires_at now ≡ false
    → get h (sweep_expired now sessions).0 ≡ some s
unfolding is_over
sweep_expired-is_revoked now h sessions there r k =
    kept-sweep_expired now h sessions (rw k (rw r)) there
