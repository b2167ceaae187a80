-- ===== src/Job/Idempotency.antt =====
-- The one rule of idempotence for all back ends: `idempotentiskasAtsakymas` and its counterpart over
-- the metadata of an external result (backend/utils/jobStore/common.js).
use stenograma.Prelude.{Bool, true, false, ◌&&◌, ◌||◌, not, Option, none, some, if◌then◌else◌}
use stenograma.Value.{Value, rezultatas_external, is_nullish, is_word, completed, strict_eq}
use stenograma.Value.Coerce.{to_number}
use stenograma.Value.{strict_eq_number}
use stenograma.Job.{Obj, field, remove_field, status, result}
use stenograma.Job.Kanonas.{same_result}

-- The answers: go on with the transition; it is done already; and the three verdicts.
pub data Answer : Type 0 where
  proceed same_job result_conflict completed_without_result nepalyginama : Answer

-- `rezultatoNera(reiksme)`.
abbrev pub rezultato_nera : Value → Bool
rezultato_nera v = is_nullish v

abbrev pub is_external : Value → Bool
is_external rezultatas_external = true
is_external _ = false

-- The comparison for a result that is there.
unfoldable pub compare_results : Value → Value → Answer
compare_results old new =
    if is_external old
    then (if rezultato_nera new then result_conflict else nepalyginama)
    else (if same_result new old then same_job else result_conflict)

unfoldable pub idempotentiskas_atsakymas : Obj → Value → Obj → Answer
unfolding compare_results
idempotentiskas_atsakymas job s extra =
    if not (is_word completed (field status job))
    then proceed
    else (if not (is_word completed s)
        then proceed
        else (if rezultato_nera (field result job)
            then completed_without_result
            else compare_results (field result job) (field result extra)))

-- The metadata of a result that lies outside the row.
pub record Metadata : Type 0 where
  pub checksum : Value
  pub bytes : Value

unfoldable pub compare_metadata : Metadata → Metadata → Answer
compare_metadata new old =
    if is_nullish old.checksum || is_nullish old.bytes
    then completed_without_result
    else (if strict_eq old.checksum new.checksum
          && strict_eq_number (to_number old.bytes) (to_number new.bytes)
        then same_job
        else result_conflict)

-- `idempotentiskasAtsakymasIsMetaduomenu(job, status, ateinantis, persistintas)`.
unfoldable pub idempotentiskas_atsakymas_is_metaduomenu :
    Obj → Value → Metadata → Option Metadata → Answer
unfolding compare_metadata
idempotentiskas_atsakymas_is_metaduomenu job s new old =
    if not (is_word completed (field status job))
    then proceed
    else (if not (is_word completed s)
        then proceed
        else (elim old [ none ↦ completed_without_result | some m ↦ compare_metadata new m ]))

-- `metaduomenuProjekcija(job)`: the record with no result.
abbrev pub metaduomenu_projekcija : Obj → Obj
metaduomenu_projekcija job = remove_field result job
