-- ===== src/Dlq/Tests.antt =====
-- internal/state/dlq.go: the theorems, applied to a buffer with one letter.
use cue.Base.{◌≡◌, refl, [], ◌∷◌, done}
use cue.Base.Int.{pos}
use cue.Store.{JobStore, new_job_store, append_slot, get}
use cue.Store.Example.{mail, one_mail, one_mail-IsValid}
use cue.Dlq.{DeadLetter, DlqBuffer, flush, emptied}
use cue.Dlq.Flush.{flush-proposals, Flushed, proposals}

abbrev letter : DeadLetter
letter = record {
  ref = record { index = pos 0; retry_count = pos 3; cell = pos 0; due_time_sec = pos 9 };
  size = pos 1;
}

abbrev one_letter : DlqBuffer
one_letter = record {
  jobs = letter ∷ [];
  bytes = pos 1;
  last_flush = pos 0;
  max_bytes = pos 8;
  max_age_ms = pos 8;
}

flush-proposals_example :
    (store' : JobStore) × (flush one_letter one_mail (pos 5)
      ≡ done (emptied one_letter (pos 5), store', proposals one_mail (pos 5) one_letter.jobs))
    × Flushed one_mail one_letter.jobs store'
unfolding append_slot new_job_store get
flush-proposals_example =
    flush-proposals one_letter one_mail (pos 5) letter [] one_mail-IsValid refl
      ((mail, refl), refl, tt)
