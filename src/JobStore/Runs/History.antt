-- ===== src/JobStore/Runs/History.antt =====
-- The history of one record over a sequence of operations on the in-memory job store
-- (backend/utils/jobStore/memoryStore.js): its owner stays, its version never goes back.
use stenograma.Prelude.{
  ℕ, ◌+◌, ◌≤◌, ◌<◌, ◌≡◌, refl, sym, ◌∙◌, true, false, Option, none, some, List, [], ◌∷◌, Text,
  text_eq, eq_of_text_eq, arith, Bool-cases, Option-cases, inl, inr, ◌⊎◌, if◌then◌else◌,
}
use mathlib.Core.Path.{subst}
use mathlib.Core.Option.{some-injective}
use stenograma.Prelude.Map.{get, get-set_self, get-set_ne, get-delete_ne}
use stenograma.Result.{Result, ok, err, ok-injective, invalid_version}
use stenograma.Value.{Value, text}
use stenograma.Job.{Obj, owner_id, owner_kind, set_field, id}
use stenograma.Job.Normalize.{versijos_lubos, normalize_job}
use stenograma.Job.Normalize.Facts.{IsVersion}
use stenograma.Job.Owner.{Scope, matches_owner}
use stenograma.Job.Create.{new_job}
use stenograma.Job.Patch.{apply_patch}
use stenograma.Job.Patch.Protected.{apply_patch_next, apply_patch_full, apply_patch-Protected}
use stenograma.Job.Idempotency.{Answer, proceed, idempotentiskas_atsakymas}
use stenograma.JobPhase.Events.{report_progress, finish}
use stenograma.JobStore.{
  Store, Reply, missing, forbidden, create, update, update_found, update_owned,
  report_progress_atomic, report_found, finish_atomic, finish_found, finish_patch, restore_record,
  remove, remove_owned, commit, when_found, version_conflict,
}
use stenograma.JobStore.Runs.{
  Operation, creating, updating, updating_owned, reporting, finishing, restoring, removing,
  removing_owned, sweeping, closing, perform, run, replaces, any_replaces,
}

-- A record that patches made of another one.
data Descends (job : Obj) : Obj → Type 0 where
  same : Descends job job
  patched :
      {r q : Obj} (patch : Obj) (now : ℕ)
      → Descends job r
      → apply_patch r patch now ≡ ok q
      → Descends job q

-- The identifier holds a record that descends from `job`.
abbrev Survives : Text → Obj → Store → Type 0
Survives k job jobs = (r : Obj) × (get k jobs ≡ some r) × Descends job r

commit_other :
    (j k : Text) (job : Obj) (jobs : Store) (m : Result Obj)
    → text_eq j k ≡ false
    → Survives k job jobs
    → Survives k job (commit j jobs m).0
commit_other j k job jobs (ok q) e (r, there, d) = (r, get-set_ne j k q jobs e ∙ there, d)
commit_other j k job jobs (err c) e h = h

commit_at :
    (k : Text) (job r patch : Obj) (now : ℕ) (jobs : Store) (m : Result Obj)
    → apply_patch r patch now ≡ m
    → get k jobs ≡ some r
    → Descends job r
    → Survives k job (commit k jobs m).0
commit_at k job r patch now jobs (ok q) e there d =
    (q, get-set_self k q jobs, patched patch now d e)
commit_at k job r patch now jobs (err c) e there d = (r, there, d)

-- A patch of the record that stands under `j`.
commit_patch :
    (j k : Text) (job w patch : Obj) (now : ℕ) (jobs : Store)
    → get j jobs ≡ some w
    → Survives k job jobs
    → Survives k job (commit j jobs (apply_patch w patch now)).0
commit_patch j k job w patch now jobs at (r, there, d) = elim (Bool-cases (text_eq j k)) [
  | inl here ↦
      let e = eq_of_text_eq j k here in
      let found : get k jobs ≡ some w = subst (λ x. get x jobs ≡ some w) e at in
      let is_r = some-injective r w (sym there ∙ found) in
      subst (λ x. Survives k job (commit x jobs (apply_patch w patch now)).0) (sym e)
        (commit_at k job w patch now jobs (apply_patch w patch now) refl found
          (subst (λ x. Descends job x) is_r d))
  | inr elsewhere ↦ commit_other j k job jobs (apply_patch w patch now) elsewhere (r, there, d)
]

found_Survives :
    (j k : Text) (job : Obj) (jobs : Store) (act : Obj → Store × Result Reply)
    (other : Result Reply)
    → Survives k job jobs
    → ((w : Obj) → get j jobs ≡ some w → Survives k job (act w).0)
    → Survives k job (when_found (get j jobs) (jobs, other) act).0
found_Survives j k job jobs act other s h = elim (Option-cases (get j jobs)) [
  | inl none_there ↦ rw none_there s
  | inr (w, there) ↦ rw there (h w there)
]

module _ (k : Text) (job : Obj) (jobs : Store) (s : Survives k job jobs) (j : Text) (now : ℕ) where
  update_found-Survives :
      (patch : Obj) (expected : Value) (w : Obj)
      → get j jobs ≡ some w
      → Survives k job (update_found j patch expected now jobs w).0
  unfolding update_found
  update_found-Survives patch expected w there = elim (Bool-cases (version_conflict expected w)) [
    | inl stale ↦ rw stale s
    | inr current ↦ rw current (commit_patch j k job w patch now jobs there s)
  ]

  update-Survives :
      (patch : Obj) (expected : Value) → Survives k job (update j patch expected now jobs).0
  unfolding update
  update-Survives patch expected =
      found_Survives j k job jobs (λ w. update_found j patch expected now jobs w) (ok missing) s
        (update_found-Survives patch expected)

  update_owned-Survives :
      (patch : Obj) (scope : Scope) (expected : Value)
      → Survives k job (update_owned j patch scope expected now jobs).0
  unfolding update_owned
  update_owned-Survives patch scope expected =
      found_Survives j k job jobs
        (λ w.
          if matches_owner w scope
          then update_found j patch expected now jobs w
          else (jobs, ok forbidden))
        (ok missing) s
        (λ w there. elim (Bool-cases (matches_owner w scope)) [
          | inl own ↦ rw own (update_found-Survives patch expected w there)
          | inr foreign ↦ rw foreign s
        ])

  report_found-Survives :
      (w : Obj) (m : Result (Option Obj))
      → get j jobs ≡ some w
      → Survives k job (report_found j now jobs w m).0
  report_found-Survives w (ok (some patch)) there = commit_patch j k job w patch now jobs there s
  report_found-Survives w (ok none) there = s
  report_found-Survives w (err e) there = s

  finish_patch-Survives :
      (w : Obj) (m : Result Obj)
      → get j jobs ≡ some w
      → Survives k job (finish_patch j now jobs w m).0
  finish_patch-Survives w (ok patch) there = commit_patch j k job w patch now jobs there s
  finish_patch-Survives w (err e) there = s

  finish_found-Survives :
      (t : Value) (extra w : Obj) (a : Answer)
      → get j jobs ≡ some w
      → Survives k job (finish_found j t extra now jobs w a).0
  finish_found-Survives t extra w proceed there = finish_patch-Survives w (finish w t extra) there
  finish_found-Survives t extra w _ there = s

remove_owned-Survives :
    (k : Text) (job : Obj) (jobs : Store) (j : Text) (scope : Scope)
    → text_eq j k ≡ false
    → Survives k job jobs
    → Survives k job (remove_owned j scope jobs).0
unfolding remove_owned
remove_owned-Survives k job jobs j scope e (r, there, d) = elim (Option-cases (get j jobs)) [
  | inl none_there ↦ rw none_there (r, there, d)
  | inr (w, at) ↦ rw at (elim (Bool-cases (matches_owner w scope)) [
    | inl own ↦ rw own (r, get-delete_ne j k jobs e ∙ there, d)
    | inr foreign ↦ rw foreign (r, there, d)
  ])
]

perform-Survives :
    (k : Text) (job : Obj) (o : Operation) (jobs : Store)
    → replaces k o ≡ false
    → Survives k job jobs
    → Survives k job (perform o jobs)
unfolding perform replaces create report_progress_atomic finish_atomic restore_record remove
perform-Survives k job (creating j now fields) jobs e s =
    commit_other j k job jobs (new_job j now fields) e s
perform-Survives k job (updating j patch expected now) jobs e s =
    update-Survives k job jobs s j now patch expected
perform-Survives k job (updating_owned j patch scope expected now) jobs e s =
    update_owned-Survives k job jobs s j now patch scope expected
perform-Survives k job (reporting j v now) jobs e s =
    found_Survives j k job jobs (λ w. report_found j now jobs w (report_progress w v)) (ok missing)
      s (λ w there. report_found-Survives k job jobs s j now w (report_progress w v) there)
perform-Survives k job (finishing j t extra now) jobs e s =
    found_Survives j k job jobs
      (λ w. finish_found j t extra now jobs w (idempotentiskas_atsakymas w t extra)) (ok missing) s
      (λ w there.
        finish_found-Survives k job jobs s j now t extra w (idempotentiskas_atsakymas w t extra)
          there)
perform-Survives k job (restoring j other) jobs e s =
    commit_other j k job jobs (normalize_job (set_field id (text j) other)) e s
perform-Survives k job (removing j) jobs e (r, there, d) = (r, get-delete_ne j k jobs e ∙ there, d)
perform-Survives k job (removing_owned j scope) jobs e s =
    remove_owned-Survives k job jobs j scope e s
perform-Survives k job (sweeping now ttl) jobs e s = cc
perform-Survives k job closing jobs e s = cc

run-Survives :
    (k : Text) (job : Obj) (os : List Operation) (jobs : Store)
    → any_replaces k os ≡ false
    → Survives k job jobs
    → Survives k job (run os jobs)
unfolding run any_replaces
run-Survives k job [] jobs e s = s
run-Survives k job (o ∷ os) jobs e s = elim (Bool-cases (replaces k o)) [
  | inl taken ↦ absurd (contrary (rw taken at e))
  | inr spared ↦
      run-Survives k job os (perform o jobs) (rw spared at e)
        (perform-Survives k job o jobs spared s)
]
  where
    contrary : true ≡ false → ⊥
    contrary h = cc

Descends_owner :
    {job r : Obj} (v w : Value)
    → job owner_id ≡ some v
    → job owner_kind ≡ some w
    → Descends job r
    → (r owner_id ≡ some v) × (r owner_kind ≡ some w)
Descends_owner v w h g same = (h, g)
Descends_owner v w h g (patched {r = r} patch now d e) =
    let (a, b) = Descends_owner v w h g d in
    let p = apply_patch-Protected r patch now e in
    (p.same_owner_id ∙ rw a, p.same_owner_kind ∙ rw b)

Descends-IsVersion :
    {job r : Obj} (n : ℕ) → IsVersion job n → Descends job r → (m : ℕ) × IsVersion r m × (n ≤ m)
Descends-IsVersion n h same = (n, h, omega arith)
Descends-IsVersion n h (patched {r = r} {q = q} patch now d e) =
    let (m, (v, a, b), l) = Descends-IsVersion n h d in
    elim (compare_ceiling m b) [
      | inl below ↦
          let (p, done, next) = apply_patch_next r patch now m v below in
          (
            m + 1,
            (rw (ok-injective q p (sym e ∙ done)) next, omega arith, omega arith),
            omega arith,
          )
      | inr full ↦ absurd (refused q (sym e ∙ apply_patch_full r patch now m v full))
    ]
  where
    compare_ceiling : (m : ℕ) → m ≤ versijos_lubos → (m < versijos_lubos) ⊎ (versijos_lubos ≤ m)
    compare_ceiling m h = grind arith

    refused : (q : Obj) → ok q ≡ err invalid_version → ⊥
    refused q p = cc

-- For a stored record with a valid version and an owner: while no operation creates, restores or
-- removes under its identifier, sweeps or closes the store, whatever else is done to the store and to
-- that record, the record stays there with the owner it had, and its version is valid and never goes
-- back.
pub run_keeps_owner :
    (k : Text) (os : List Operation) (jobs : Store) (n : ℕ) (v w : Value) {job : Obj}
    → any_replaces k os ≡ false
    → get k jobs ≡ some job
    → IsVersion job n
    → job owner_id ≡ some v
    → job owner_kind ≡ some w
    → (r : Obj) × (m : ℕ) × (get k (run os jobs) ≡ some r)
      × IsVersion r m
      × (n ≤ m)
      × (r owner_id ≡ some v)
      × (r owner_kind ≡ some w)
run_keeps_owner k os jobs n v w {job} e there h a b =
    let (r, found, d) = run-Survives k job os jobs e (job, there, same) in
    let (m, is_m, l) = Descends-IsVersion n h d in
    let (x, y) = Descends_owner v w a b d in (r, m, found, is_m, l, x, y)
