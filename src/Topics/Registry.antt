-- ===== src/Topics/Registry.antt =====
-- internal/state/topic_manager.go: the four tables of the manager name the same topics, the stop
-- channel of a topic is open, and no command makes the manager panic.
use cue.Base.{◌+◌, ◌<◌, ◌≡◌, true, false, ◌∷◌, some, String, ==_iff, is_some, arith}
use cue.Base.Key.{string_key}
use cue.Base.Dict.{
  Dict, lookup, insert, erase, lookup-insert, lookup-erase, Keyed, Keyed-insert, Keyed-erase,
}
use cue.Model.{Channel}
use cue.Topics.{TopicManager, register, unregister, is_closed, spawned, killed}

-- Two tables have the same topics.
abbrev pub SameTopics : Dict String Channel → Dict String Channel → Type 0
SameTopics m n = (t : String) → is_some (lookup t m) ≡ is_some (lookup t n)

pub record IsValid (tm : TopicManager) : Type 0 where
  pub topology_agrees : SameTopics tm.topology_chs tm.stop_chs
  pub commands_agree : SameTopics tm.cmd_router.chs tm.stop_chs
  pub heartbeats_agree : SameTopics tm.hb_router.chs tm.stop_chs
  pub keyed : Keyed tm.stop_chs
  pub opened :
      (t : String) (ch : Channel)
      → lookup t tm.stop_chs ≡ some ch
      → (is_closed ch tm.closed ≡ false) × (ch < tm.next_ch)
  pub distinct :
      (t u : String) (ch : Channel)
      → lookup t tm.stop_chs ≡ some ch
      → lookup u tm.stop_chs ≡ some ch
      → t ≡ u
  pub below : (ch : Channel) → is_closed ch tm.closed ≡ true → ch < tm.next_ch

SameTopics-insert :
    (m n : Dict String Channel) (topic : String) (a b : Channel)
    → SameTopics m n
    → SameTopics (insert topic a m) (insert topic b n)
SameTopics-insert m n topic a b h t =
    ground (arith, lookup-insert topic t a m, lookup-insert topic t b n, h t)

SameTopics-erase :
    (m n : Dict String Channel) (topic : String)
    → SameTopics m n
    → SameTopics (erase topic m) (erase topic n)
SameTopics-erase m n topic h t = ground (arith, lookup-erase topic t m, lookup-erase topic t n, h t)

pub spawned-IsValid : (tm : TopicManager) (topic : String) → IsValid tm → IsValid (spawned tm topic)
unfolding spawned register
spawned-IsValid tm topic v = record {
  topology_agrees =
      SameTopics-insert tm.topology_chs tm.stop_chs topic (tm.next_ch + 1) tm.next_ch
        v.topology_agrees;
  commands_agree =
      SameTopics-insert tm.cmd_router.chs tm.stop_chs topic (tm.next_ch + 2) tm.next_ch
        v.commands_agree;
  heartbeats_agree =
      SameTopics-insert tm.hb_router.chs tm.stop_chs topic (tm.next_ch + 3) tm.next_ch
        v.heartbeats_agree;
  keyed = Keyed-insert topic tm.next_ch tm.stop_chs v.keyed;
  opened = λ t ch e.
      ground
        (arith, e, lookup-insert topic t tm.next_ch tm.stop_chs, v.opened t ch, v.below tm.next_ch);
  distinct = λ t u ch e f. ground (
    arith,
    e,
    f,
    lookup-insert topic t tm.next_ch tm.stop_chs,
    lookup-insert topic u tm.next_ch tm.stop_chs,
    v.distinct t u ch,
    v.opened t ch,
    v.opened u ch,
    string_key.beq_iff topic t,
    string_key.beq_iff topic u,
  );
  below = λ ch e. ground (arith, v.below ch e);
}

pub killed-IsValid :
    (tm : TopicManager) (topic : String) (ch : Channel)
    → IsValid tm
    → lookup topic tm.stop_chs ≡ some ch
    → IsValid (killed tm topic (ch ∷ tm.closed))
unfolding killed unregister
killed-IsValid tm topic stop_ch v there = record {
  topology_agrees = SameTopics-erase tm.topology_chs tm.stop_chs topic v.topology_agrees;
  commands_agree = SameTopics-erase tm.cmd_router.chs tm.stop_chs topic v.commands_agree;
  heartbeats_agree = SameTopics-erase tm.hb_router.chs tm.stop_chs topic v.heartbeats_agree;
  keyed = Keyed-erase topic tm.stop_chs v.keyed;
  opened = λ t ch e. ground (
    arith,
    e,
    there,
    lookup-erase topic t tm.stop_chs,
    v.opened t ch,
    v.distinct t topic ch,
    string_key.beq_iff topic t,
    ==_iff ch stop_ch,
  );
  distinct = λ t u ch e f. ground (
    arith,
    e,
    f,
    lookup-erase topic t tm.stop_chs,
    lookup-erase topic u tm.stop_chs,
    v.distinct t u ch,
  );
  below =
      λ ch e. ground (arith, e, there, v.below ch, v.opened topic stop_ch there, ==_iff ch stop_ch);
}
