-- ===== src/Store/Tests.antt =====
-- internal/state/job_store.go: the theorems, applied to a small store.
use cue.Base.{
  true, false, ◌≡◌, ◌⊎◌, ℕ, String, none, some, map_option, is_some, arith, ok, err, done,
  if◌then◌else◌,
}
use cue.Base.Key.{string_key, ◌=?◌}
use cue.Model.{Job}
use cue.Store.{
  release_if_done, JobStore, new_job_store, create, get_by_id, mark_done, duplicate_job_id,
}
use cue.Store.Invariant.{IsValid, new_job_store-IsValid}
use cue.Store.Refinement.{create-refines}
use cue.Store.Release.{is_done_job, release_if_done-refines, Changes, finished, mark_done-refines}
use cue.Store.Example.{mail, no_mail, one_mail, one_mail-IsValid, named}

create-refines_example :
    ((old : Job) × (get_by_id no_mail mail.id ≡ some old)
      × (create no_mail mail ≡ done (no_mail, err duplicate_job_id)))
    ⊎ ((idx : ℕ) × (js' : JobStore) × (get_by_id no_mail mail.id ≡ none)
        × (create no_mail mail ≡ done (js', ok idx))
        × IsValid js'
        × ((k : String)
            → get_by_id js' k ≡ (if mail.id =? k then some mail else get_by_id no_mail k)))
unfolding new_job_store
create-refines_example = create-refines no_mail mail (new_job_store-IsValid 4) named (omega arith)

mark_done-refines_example :
    (js' : JobStore) × (mark_done one_mail "mail" ≡ done (js', is_some (get_by_id one_mail "mail")))
    × Changes one_mail "mail" (map_option finished (get_by_id one_mail "mail")) js'
mark_done-refines_example = mark_done-refines one_mail "mail" one_mail-IsValid

release_if_done-refines_example :
    ((is_done_job (get_by_id one_mail "mail") ≡ true)
      × (js' : JobStore) × (release_if_done one_mail "mail" ≡ done (js', true))
      × Changes one_mail "mail" none js')
    ⊎ ((is_done_job (get_by_id one_mail "mail") ≡ false)
        × (release_if_done one_mail "mail" ≡ done (one_mail, false)))
release_if_done-refines_example = release_if_done-refines one_mail "mail" one_mail-IsValid
