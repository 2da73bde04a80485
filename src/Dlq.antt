-- ===== src/Dlq.antt =====
-- internal/state/dlq.go: the buffer of dead letters of a partition.
-- The job store, which the Go structure points to, is an argument and a result; the time too is an
-- argument. A nil job whose field is read is `panics`. The metrics and the logger are left out.
pub mod Flush
mod Tests
use cue.Base.{
  ℕ, ◌-◌, ◌%◌, Bool, true, false, ◌||◌, List, [], ◌∷◌, ◌++◌, Option, none, some, String,
  if◌then◌else◌, length, Run, done, panics, ◌>>=◌,
}
use cue.Base.Int.{ℤ, pos, negsuc, ◌+ℤ◌, ◌-ℤ◌, leb_ℤ}
use cue.Model.{Job}
use cue.Queue.{JobRef}
use cue.Store.{JobStore, u32_mod, get, release}

-- `uint32(i)`
abbrev pub to_uint32 : ℤ → ℕ
to_uint32 (pos n) = n % u32_mod
to_uint32 (negsuc n) = u32_mod - 1 - n % u32_mod

pub record DeadLetter : Type 0 where
  pub ref : JobRef
  pub size : ℤ

pub record DlqBuffer : Type 0 where
  pub jobs : List DeadLetter
  pub bytes : ℤ
  pub last_flush : ℤ
  pub max_bytes : ℤ
  pub max_age_ms : ℤ

pub record DropProposal : Type 0 where
  pub job_id : String
  pub topic : String
  pub timestamp : ℤ

abbrev pub new_dlq_buffer : ℤ → ℤ → (now : ℤ) → DlqBuffer
new_dlq_buffer max_bytes max_age_ms now = record {
  jobs = [];
  bytes = pos 0;
  last_flush = now;
  max_bytes = max_bytes;
  max_age_ms = max_age_ms;
}

-- `Size`
unfoldable pub size : DlqBuffer → ℕ
size dlq = length dlq.jobs

-- `ShouldFlush`
unfoldable pub should_flush : DlqBuffer → (now : ℤ) → Bool
should_flush dlq now = leb_ℤ dlq.max_bytes dlq.bytes || leb_ℤ dlq.max_age_ms (now -ℤ dlq.last_flush)

-- The buffer with one more dead letter.
abbrev pub buffered : DlqBuffer → JobRef → ℤ → DlqBuffer
buffered dlq ref job_size = record dlq {
  jobs = dlq.jobs ++ record { ref = ref; size = job_size } ∷ [];
  bytes = dlq.bytes +ℤ job_size;
}

-- `Add`
unfoldable pub add :
    DlqBuffer → JobStore → JobRef → ℤ → Bool → (now : ℤ) → Run (DlqBuffer × JobStore × Bool)
unfolding should_flush
add dlq store ref job_size true now =
    release store (to_uint32 ref.index) >>= λ store'. done (dlq, store', false)
add dlq store ref job_size false now =
    let dlq' = buffered dlq ref job_size in done (dlq', store, should_flush dlq' now)

-- The loop of `Flush`.
unfoldable pub collect_drops :
    List DeadLetter → JobStore → (now : ℤ) → List DropProposal → Run (JobStore × List DropProposal)
collect_drops [] store now drops = done (store, drops)
collect_drops (item ∷ items) store now drops = elim (get store (to_uint32 item.ref.index)) [
  | none ↦ panics
  | some job ↦ elim job.is_done [
    | true ↦
        release store (to_uint32 item.ref.index) >>= λ store'. collect_drops items store' now drops
    | false ↦
        collect_drops items store now
          (drops ++ record { job_id = job.id; topic = job.topic; timestamp = now } ∷ [])
  ]
]

abbrev pub emptied : DlqBuffer → ℤ → DlqBuffer
emptied dlq now = record dlq { jobs = []; bytes = pos 0; last_flush = now }

-- `Flush`
unfoldable pub flush :
    DlqBuffer → JobStore → (now : ℤ) → Run (DlqBuffer × JobStore × List DropProposal)
unfolding collect_drops
flush dlq store now = elim dlq.jobs [
  | [] ↦ done (dlq, store, [])
  | item ∷ items ↦ collect_drops dlq.jobs store now [] >>= λ (store', drops).
      done (emptied dlq now, store', drops)
]
