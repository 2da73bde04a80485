-- ===== src/Partition/Classification.antt =====
-- internal/state/partition.go: how `dispatch` sorts the batch that it read.
use mathlib.Core.List.{append_assoc, append-nil, map-append}
use cue.Base.{
  ◌≡◌, refl, sym, ap, ◌∙◌, inl, inr, Bool, false, not, ◌&&◌, List, [], ◌∷◌, ◌++◌, map, select,
  length, Option, none, some, if◌then◌else◌, done, Bool-cases,
}
use cue.Base.Int.{pos, leb_ℤ}
use cue.Model.{Job}
use cue.Queue.{JobRef}
use cue.Store.{JobStore, get}
use cue.Dlq
use cue.Dlq.{DeadLetter, buffered, to_uint32}
use cue.Partition.State.{PartitionConfig, Env}
use cue.Partition.Dispatch.{Classified, send_to_dlq, removing, sending, classify_one, classify}

-- The job is there, is not done, and has retries left.
abbrev pub sendable : PartitionConfig → JobRef → Option Job → Bool
sendable config ref none = false
sendable config ref (some job) = not job.is_done && not (leb_ℤ config.max_retries ref.retry_count)

-- The job is there, is not done, and has no retries left.
abbrev pub expired : PartitionConfig → JobRef → Option Job → Bool
expired config ref none = false
expired config ref (some job) = not job.is_done && leb_ℤ config.max_retries ref.retry_count

-- The job that a reference stands for.
abbrev pub job_of : JobStore → JobRef → Option Job
job_of js ref = get js (to_uint32 ref.index)

-- The jobs of the references that can be sent.
abbrev pub sent_job : PartitionConfig → JobRef → Option Job → List Job
sent_job config ref none = []
sent_job config ref (some job) = if sendable config ref (some job) then job ∷ [] else []

abbrev pub jobs_to_send : PartitionConfig → JobStore → List JobRef → List Job
jobs_to_send config js [] = []
jobs_to_send config js (ref ∷ refs) =
    sent_job config ref (job_of js ref) ++ jobs_to_send config js refs

-- What the loop makes of a batch.
pub record Sorted (config : PartitionConfig) (refs : List JobRef) (c c' : Classified) : Type 0 where
  pub store_same : c'.job_store ≡ c.job_store
  pub to_send :
      c'.valid_refs ≡ c.valid_refs ++ select (λ r. sendable config r (job_of c.job_store r)) refs
  pub jobs : c'.job_slice ≡ c.job_slice ++ jobs_to_send config c.job_store refs
  pub to_remove :
      c'.remove_refs
      ≡ c.remove_refs ++ select (λ r. not (sendable config r (job_of c.job_store r))) refs
  pub letters :
      map (λ d. d.ref) c'.dlq_buffer.jobs
      ≡ map (λ d. d.ref) c.dlq_buffer.jobs
        ++ select (λ r. expired config r (job_of c.job_store r)) refs

select_cons :
    (p : JobRef → Bool) (ref : JobRef) (refs : List JobRef)
    → select p (ref ∷ []) ++ select p refs ≡ select p (ref ∷ refs)
select_cons p ref refs = elim (Bool-cases (p ref)) [ inl e ↦ simp e refl | inr e ↦ simp e refl ]

jobs_to_send_cons :
    (config : PartitionConfig) (js : JobStore) (ref : JobRef) (refs : List JobRef)
    → jobs_to_send config js (ref ∷ []) ++ jobs_to_send config js refs
      ≡ jobs_to_send config js (ref ∷ refs)
jobs_to_send_cons config js ref refs =
    ap (λ l. l ++ jobs_to_send config js refs) (append-nil (sent_job config ref (job_of js ref)))

chain : {A : Type 0} (a b c x y z : List A) → b ≡ a ++ x → c ≡ b ++ y → x ++ y ≡ z → c ≡ a ++ z
chain a b c x y z e f g = f ∙ ap (λ l. l ++ y) e ∙ append_assoc a x y ∙ ap (λ l. a ++ l) g

Sorted-then :
    (config : PartitionConfig) (ref : JobRef) (refs : List JobRef) (c c1 c2 : Classified)
    → Sorted config (ref ∷ []) c c1
    → Sorted config refs c1 c2
    → Sorted config (ref ∷ refs) c c2
Sorted-then config ref refs c c1 c2 one rest = record {
  store_same = rest.store_same ∙ one.store_same;
  to_send =
      chain c.valid_refs c1.valid_refs c2.valid_refs _ _ _ one.to_send
        (rest.to_send
          ∙ ap (λ js. c1.valid_refs ++ select (λ r. sendable config r (job_of js r)) refs)
              one.store_same)
        (select_cons (λ r. sendable config r (job_of c.job_store r)) ref refs);
  jobs =
      chain c.job_slice c1.job_slice c2.job_slice _ _ _ one.jobs
        (rest.jobs ∙ ap (λ js. c1.job_slice ++ jobs_to_send config js refs) one.store_same)
        (jobs_to_send_cons config c.job_store ref refs);
  to_remove =
      chain c.remove_refs c1.remove_refs c2.remove_refs _ _ _ one.to_remove
        (rest.to_remove
          ∙ ap (λ js. c1.remove_refs ++ select (λ r. not (sendable config r (job_of js r))) refs)
              one.store_same)
        (select_cons (λ r. not (sendable config r (job_of c.job_store r))) ref refs);
  letters =
      chain (map (λ d. d.ref) c.dlq_buffer.jobs) (map (λ d. d.ref) c1.dlq_buffer.jobs)
        (map (λ d. d.ref) c2.dlq_buffer.jobs) _ _ _ one.letters
        (rest.letters
          ∙ ap
              (λ js.
                map (λ d. d.ref) c1.dlq_buffer.jobs
                ++ select (λ r. expired config r (job_of js r)) refs)
              one.store_same)
        (select_cons (λ r. expired config r (job_of c.job_store r)) ref refs);
}

classify_one-Sorted :
    (env : Env) (config : PartitionConfig) (ref : JobRef) (c : Classified) (o : Option Job)
    → job_of c.job_store ref ≡ o
    → (c1 : Classified) × (classify_one env config ref o c ≡ done c1)
      × Sorted config (ref ∷ []) c c1
unfolding classify_one send_to_dlq Dlq.add
classify_one-Sorted env config ref c none e = (
  removing c ref,
  refl,
  record {
    store_same = refl;
    to_send = rw e (sym (append-nil _));
    jobs = sym (ap (λ o. c.job_slice ++ (sent_job config ref o ++ [])) e ∙ append-nil c.job_slice);
    to_remove = rw e refl;
    letters = rw e (sym (append-nil _));
  },
)
classify_one-Sorted env config ref c (some job) e = elim (Bool-cases job.is_done) [
  | inl d ↦ (
    removing c ref,
    simp d refl,
    record {
      store_same = refl;
      to_send = rw e (simp d (sym (append-nil _)));
      jobs = sym (ap (λ o. c.job_slice ++ (sent_job config ref o ++ [])) e ∙ simp d (append-nil _));
      to_remove = rw e (simp d refl);
      letters = rw e (simp d (sym (append-nil _)));
    },
  )
  | inr d ↦ elim (Bool-cases (leb_ℤ config.max_retries ref.retry_count)) [
    | inl r ↦ (
      removing (record c { dlq_buffer = buffered c.dlq_buffer ref (pos (length job.bytes)) }) ref,
      simp (d, r) refl,
      record {
        store_same = refl;
        to_send = rw e (simp (d, r) (sym (append-nil _)));
        jobs =
            sym (
              ap (λ o. c.job_slice ++ (sent_job config ref o ++ [])) e
              ∙ simp (d, r) (append-nil _));
        to_remove = rw e (simp (d, r) refl);
        letters = rw e (
            simp (d, r)
              (map-append (λ (x : DeadLetter). x.ref) c.dlq_buffer.jobs
                (record { ref = ref; size = pos (length job.bytes) } ∷ [])));
      },
    )
    | inr r ↦ (
      sending c ref job,
      simp (d, r) refl,
      record {
        store_same = refl;
        to_send = rw e (simp (d, r) refl);
        jobs = sym (ap (λ o. c.job_slice ++ (sent_job config ref o ++ [])) e ∙ simp (d, r) refl);
        to_remove = rw e (simp (d, r) (sym (append-nil _)));
        letters = rw e (simp (d, r) (sym (append-nil _)));
      },
    )
  ]
]

-- The loop of `dispatch` over a batch puts each reference into exactly one of its two lists, in order:
-- into `validRefs`, with its job in the list to send, if the job is in the store, is not done, and has
-- retries left, and into `removeRefs` otherwise. Of the latter, those whose job is in the store and not
-- done, with its retries used up, are added to the buffer of dead letters, in order. The store does not
-- change, and nothing panics.
pub classify-Sorted :
    (env : Env) (config : PartitionConfig) (refs : List JobRef) (c : Classified)
    → (c' : Classified) × (classify env config refs c ≡ done c') × Sorted config refs c c'
unfolding classify
classify-Sorted env config [] c = (
  c,
  refl,
  record {
    store_same = refl;
    to_send = sym (append-nil _);
    jobs = sym (append-nil _);
    to_remove = sym (append-nil _);
    letters = sym (append-nil _);
  },
)
classify-Sorted env config (ref ∷ refs) c =
    let (c1, e, one) = classify_one-Sorted env config ref c (job_of c.job_store ref) refl in
    let (c2, f, rest) = classify-Sorted env config refs c1 in
    (c2, rw e f, Sorted-then config ref refs c c1 c2 one rest)
