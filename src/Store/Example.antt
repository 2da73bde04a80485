-- ===== src/Store/Example.antt =====
-- internal/state/job_store.go: a store with one job, for the tests.
use cue.Base.{◌≢◌, refl, false, [], ◌∷◌, arith}
use cue.Base.Int.{pos}
use cue.Base.Key.{string_key}
use cue.Base.Dict.{lookup}
use cue.Model.{Job}
use cue.Store.{JobStore, new_job_store, append_slot}
use cue.Store.Invariant.{IsValid, new_job_store-IsValid, append_slot-IsValid}

abbrev pub mail : Job
mail = record { id = "mail"; topic = "t"; bytes = 1 ∷ []; is_done = false; created_at = pos 3 }

abbrev pub no_mail : JobStore
no_mail = new_job_store 4

abbrev pub one_mail : JobStore
one_mail = append_slot no_mail mail 0

pub named : mail.id ≢ ""
named h = ground (arith, (string_key.beq_iff "mail" "").1 h)

pub one_mail-IsValid : IsValid one_mail
unfolding new_job_store lookup
one_mail-IsValid =
    append_slot-IsValid no_mail mail (new_job_store-IsValid 4) named refl (omega arith)
