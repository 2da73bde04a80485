-- ===== src/Topics/Stopping.antt =====
-- internal/state/topic_manager.go: how `Run` ends.
use cue.Base.{
  suc, ◌≡◌, refl, ap, ◌∙◌, true, false, List, [], ◌∷◌, length, some, String, ==_iff, done, panics,
  ◌>>=◌, arith,
}
use cue.Base.Key.{string_key, =?_refl}
use cue.Base.Dict.{Dict, lookup, Keyed, lookup_cons, lookup-nil}
use cue.Model.{Channel}
use cue.Partition.State.{Env}
use cue.Topics.{
  TopicManager, TopicCommand, Effect, is_closed, close, close_all, stop, stopped_with, cancelled,
  channel_closed, run,
}
use cue.Topics.Registry.{IsValid}
use cue.Topics.Running.{handle-Survives, requests}

-- The channels of a table are open and differ.
record Closable (m : Dict String Channel) (closed : List Channel) : Type 0 where
  keyed : Keyed m
  opened : (t : String) (ch : Channel) → lookup t m ≡ some ch → is_closed ch closed ≡ false
  distinct : (t u : String) (ch : Channel) → lookup t m ≡ some ch → lookup u m ≡ some ch → t ≡ u

Closable-tail :
    (topic : String) (ch : Channel) (m : Dict String Channel) (closed : List Channel)
    → Closable ((topic, ch) ∷ m) closed
    → (is_closed ch closed ≡ false) × Closable m (ch ∷ closed)
Closable-tail topic ch m closed c =
    let first : lookup topic ((topic, ch) ∷ m) ≡ some ch =
      lookup_cons topic topic ch m ∙ simp (=?_refl topic) refl in
    (
      c.opened topic ch first,
      record {
        keyed = c.keyed.1;
        opened = λ t d e. ground (
          arith,
          e,
          first,
          c.keyed.0,
          lookup_cons t topic ch m,
          string_key.beq_iff topic t,
          c.opened t d,
          c.distinct t topic ch,
          ==_iff d ch,
        );
        distinct = λ t u d e f. ground (
          arith,
          e,
          f,
          c.keyed.0,
          lookup_cons t topic ch m,
          lookup_cons u topic ch m,
          string_key.beq_iff topic t,
          string_key.beq_iff topic u,
          c.distinct t u d,
        );
      },
    )

-- Every channel of the table gets closed, and none is closed twice.
close_all-done :
    (m : Dict String Channel) (closed : List Channel)
    → Closable m closed
    → (closed' : List Channel) × (close_all m closed ≡ done closed')
      × ((ch : Channel) → is_closed ch closed ≡ true → is_closed ch closed' ≡ true)
      × ((t : String) (ch : Channel) → lookup t m ≡ some ch → is_closed ch closed' ≡ true)
unfolding close_all close
close_all-done [] closed c =
    (closed, refl, λ ch e. e, λ t ch e. absurd (ground (arith, e, lookup-nil {V = Channel} t)))
close_all-done ((topic, ch) ∷ m) closed c =
    let (unclosed, c') = Closable-tail topic ch m closed c in
    let (closed', e, keeps, all) = close_all-done m (ch ∷ closed) c' in
    (
      closed',
      rw (unclosed, close) e,
      λ d f. keeps d (ground (arith, f)),
      λ t d f. ground (arith, f, lookup_cons t topic ch m, all t d, keeps ch, ==_iff ch ch),
    )

-- The first `Stop` closes every stop channel, and then the command channel.
pub stop-first :
    (tm : TopicManager)
    → IsValid tm
    → tm.stop_once ≡ false
    → (closed : List Channel) × (stop tm ≡ stopped_with tm closed)
      × ((t : String) (ch : Channel) → lookup t tm.stop_chs ≡ some ch → is_closed ch closed ≡ true)
unfolding stop
stop-first tm v once =
    let c : Closable tm.stop_chs tm.closed = record {
      keyed = v.keyed;
      opened = λ t ch e. (v.opened t ch e).0;
      distinct = v.distinct;
    } in
    let (closed, e, keeps, all) = close_all-done tm.stop_chs tm.closed c in
    (closed, simp once (ap (λ m. m >>= stopped_with tm) e), all)

stopped_with-open :
    (tm : TopicManager) (closed : List Channel)
    → tm.cmd_ch_closed ≡ false
    → stopped_with tm closed
      ≡ done (record tm { stop_once = true; closed = closed; cmd_ch_closed = true })
unfolding stopped_with
stopped_with-open tm closed ch = simp ch refl

stopped_with-closed :
    (tm : TopicManager) (closed : List Channel)
    → tm.cmd_ch_closed ≡ true
    → stopped_with tm closed ≡ panics
unfolding stopped_with
stopped_with-closed tm closed ch = simp ch refl

-- The manager that has read commands and was then cancelled.
pub record Stopped (tm' : TopicManager) : Type 0 where
  pub once : tm'.stop_once ≡ true
  pub cmd_ch : tm'.cmd_ch_closed ≡ true
  pub all_closed :
      (t : String) (ch : Channel) → lookup t tm'.stop_chs ≡ some ch → is_closed ch tm'.closed ≡ true

-- From a manager whose tables agree, and that was not stopped and whose command channel is open,
-- `Run` reads any commands without a panic, one effect for each, and on cancellation ends with every
-- stop channel closed, once, and its command channel closed.
pub run-cancelled :
    (tm : TopicManager) (cmds : List (Env × TopicCommand))
    → IsValid tm
    → tm.stop_once ≡ false
    → tm.cmd_ch_closed ≡ false
    → (r : TopicManager × List Effect) × (run tm (requests cmds cancelled) ≡ done r)
      × Stopped r.0
      × (length r.1 ≡ length cmds)
unfolding run
run-cancelled tm [] v once ch =
    let (closed, e, all) = stop-first tm v once in
    (
      (record tm { stop_once = true; closed = closed; cmd_ch_closed = true }, []),
      rw (e ∙ stopped_with-open tm closed ch) refl,
      record { once = refl; cmd_ch = refl; all_closed = all },
      refl,
    )
run-cancelled tm ((env, cmd) ∷ cmds) v once ch =
    let ((tm', effect), e, h) = handle-Survives env tm cmd v in
    let (r, f, stopped, len) =
      run-cancelled tm' cmds h.valid (h.once_same ∙ once) (h.cmd_ch_same ∙ ch) in
    ((r.0, effect ∷ r.1), rw e (rw f refl), stopped, ap suc len)

-- From a manager whose tables agree, and that was not stopped, `Run` panics when it reads any
-- commands and then ends because its command channel was closed by the sender: `Stop` closes that
-- channel once more.
pub run-channel_closed :
    (tm : TopicManager) (cmds : List (Env × TopicCommand))
    → IsValid tm
    → tm.stop_once ≡ false
    → tm.cmd_ch_closed ≡ true
    → run tm (requests cmds channel_closed) ≡ panics
unfolding run
run-channel_closed tm [] v once ch =
    let (closed, e, all) = stop-first tm v once in rw (e ∙ stopped_with-closed tm closed ch) refl
run-channel_closed tm ((env, cmd) ∷ cmds) v once ch =
    let ((tm', effect), e, h) = handle-Survives env tm cmd v in
    rw e (rw (run-channel_closed tm' cmds h.valid (h.once_same ∙ once) (h.cmd_ch_same ∙ ch)) refl)
