-- ===== src/TrainerClient/Polling.antt =====
-- The messages to the trainer, and the checkpoints that the client hands on.
use apollo_mavis_v2_runtime.Prelude.{
  ◌<◌, ◌≤◌, ◌≡◌, refl, ap, sym, Bool, true, false, map, All, length, if◌then◌else◌, List, [], ◌∷◌,
  ◌++◌, Option, none, some, arith, append_assoc, append-nil, ◌∙◌,
}
use apollo_mavis_v2_runtime.Checkpoints.{CheckpointStore, CheckpointInfo, latest, read_manifest}
use apollo_mavis_v2_runtime.TrainerClient.{
  Client, Turn, Message, submit, roll_back, handle_death, check_process, take_message, ask_status,
  turn, submit_episode, notify_rollback, poll_checkpoint, Call, turns, submits, notifies, polls,
  step, run,
}

-- The messages that the calls ask for, oldest first.
abbrev pub asked : List Call → List Message
asked [] = []
asked (submits e ∷ ks) = submit e ∷ asked ks
asked (notifies v ∷ ks) = roll_back v ∷ asked ks
asked (_ ∷ ks) = asked ks

-- A call that the operator's side makes, not a turn of the worker.
abbrev pub IsAsked : Call → Type 0
IsAsked (turns t) = ⊥
IsAsked _ = Unit

-- Each message has a turn of its own; the ones kept are those whose turn was answered.
abbrev pub answered : List Message → List Turn → List Message
answered [] ts = []
answered (m ∷ ms) [] = []
answered (m ∷ ms) (t ∷ ts) = let rest = answered ms ts in if t.exchanged then m ∷ rest else rest

-- What is waiting, and what was answered.
abbrev pub Holds : Client → List Message → List Message → Type 0
Holds c waiting sent = (c.queue ≡ waiting) × (c.sent ≡ sent)

check_process-Holds : (c : Client) (t : Turn) → Holds (check_process c t) c.queue c.sent
unfolding check_process handle_death
check_process-Holds c t = ground arith

ask_status-Holds : (c : Client) (t : Turn) → Holds (ask_status c t) c.queue c.sent
unfolding ask_status handle_death
ask_status-Holds c t = ground arith

-- One turn takes the oldest message, whatever else happens in it.
turn-Holds :
    (c : Client) (t : Turn) (m : Message) (ms : List Message)
    → c.queue ≡ m ∷ ms
    → Holds (turn c t) ms (if t.exchanged then c.sent ++ m ∷ [] else c.sent)
unfolding turn
turn-Holds c t m ms e =
    let c' = check_process c t in
    let (waits, sent) = check_process-Holds c t in
    let taken = take_message c'.queue t.exchanged c' in
    let (waits', sent') = ask_status-Holds taken t in
    let front : c'.queue ≡ m ∷ ms = waits ∙ e in
    (
      waits' ∙ ap (λ q. (take_message q t.exchanged c').queue) front,
      sent'
          ∙ ap (λ q. (take_message q t.exchanged c').sent) front
          ∙ ap (λ s. if t.exchanged then s ++ m ∷ [] else s) sent,
    )

turn-idle : (c : Client) (t : Turn) → c.queue ≡ [] → Holds (turn c t) [] c.sent
unfolding turn
turn-idle c t e =
    let c' = check_process c t in
    let (waits, sent) = check_process-Holds c t in
    let taken = take_message c'.queue t.exchanged c' in
    let (waits', sent') = ask_status-Holds taken t in
    let front : c'.queue ≡ [] = waits ∙ e in
    (
      waits' ∙ ap (λ q. (take_message q t.exchanged c').queue) front ∙ front,
      sent' ∙ ap (λ q. (take_message q t.exchanged c').sent) front ∙ sent,
    )

drain :
    (c : Client) (ms : List Message) (ts : List Turn)
    → c.queue ≡ ms
    → length ms ≤ length ts
    → Holds (run c (map turns ts)) [] (c.sent ++ answered ms ts)
unfolding run step
drain c [] [] e short = (e, sym (append-nil c.sent))
drain c (m ∷ ms) [] e short = absurd (omega (arith, short))
drain c [] (t ∷ ts) e short =
    let (waits, sent) = turn-idle c t e in
    let (waits', sent') = drain (turn c t) [] ts waits (omega arith) in
    (waits', sent' ∙ ap (λ s. s ++ []) sent)
drain c (m ∷ ms) (t ∷ ts) e short =
    let (waits, sent) = turn-Holds c t m ms e in
    let (waits', sent') = drain (turn c t) ms ts waits (omega (arith, short)) in
    (waits', sent' ∙ ap (λ s. s ++ answered ms ts) sent ∙ front t.exchanged)
  where
    front :
        (b : Bool)
        → (if b then c.sent ++ m ∷ [] else c.sent) ++ answered ms ts
          ≡ c.sent ++ (if b then m ∷ answered ms ts else answered ms ts)
    front true = append_assoc c.sent (m ∷ []) (answered ms ts)
    front false = refl

asked-Holds :
    (c : Client) (ks : List Call) → All IsAsked ks → Holds (run c ks) (c.queue ++ asked ks) c.sent
unfolding run step submit_episode notify_rollback poll_checkpoint
asked-Holds c [] a = (sym (append-nil c.queue), refl)
asked-Holds c (turns t ∷ ks) a = absurd a.0
asked-Holds c (submits e ∷ ks) a =
    let (waits, sent) = asked-Holds (submit_episode c e) ks a.1 in
    (waits ∙ append_assoc c.queue (submit e ∷ []) (asked ks), sent)
asked-Holds c (notifies v ∷ ks) a =
    let (waits, sent) = asked-Holds (notify_rollback c v) ks a.1 in
    (waits ∙ append_assoc c.queue (roll_back v ∷ []) (asked ks), sent)
asked-Holds c (polls s ∷ ks) a =
    let (waits, sent) = asked-Holds (poll_checkpoint s c).0 ks a.1 in
    let (same, same') = kept in (waits ∙ ap (λ q. q ++ asked ks) same, sent ∙ same')
  where
    kept : Holds (poll_checkpoint s c).0 c.queue c.sent
    kept = ground arith

-- Whatever is asked of the trainer is worked off, one message in each turn: after as many turns as
-- there are messages none waits, and the trainer has answered, in the order in which they were asked,
-- exactly those whose own turn had an exchange that did not fail. Deaths and restarts of the process
-- in these turns lose or double nothing more.
pub run-answered :
    (c : Client) (ks : List Call) (ts : List Turn)
    → All IsAsked ks
    → length (c.queue ++ asked ks) ≤ length ts
    → Holds (run (run c ks) (map turns ts)) [] (c.sent ++ answered (c.queue ++ asked ks) ts)
run-answered c ks ts a short =
    let (waits, sent) = asked-Holds c ks a in
    let (empty, told) = drain (run c ks) (c.queue ++ asked ks) ts waits short in
    (empty, told ∙ ap (λ s. s ++ answered (c.queue ++ asked ks) ts) sent)

-- What a poll may hand on.
abbrev pub Polled : CheckpointStore → Client → Client × Option CheckpointInfo → Type 0
Polled s c (c', none) = c' ≡ c
Polled s c (c', some info) =
    (info.sanity_ok ≡ true)
    × (latest s ≡ some c'.known_version)
    × (read_manifest s c'.known_version ≡ some info)
    × (c.known_version < c'.known_version)

-- A checkpoint that is handed on is the one that `LATEST` names, is sane, and is newer than every
-- one before it.
-- Where none is handed on, the client stays as it is.
pub poll_checkpoint-Polled : (s : CheckpointStore) (c : Client) → Polled s c (poll_checkpoint s c)
unfolding poll_checkpoint
poll_checkpoint-Polled s c = ground arith

-- Asking again hands nothing on until `LATEST` moves.
pub poll_checkpoint-twice :
    (s : CheckpointStore) (c : Client) (info : CheckpointInfo)
    → (poll_checkpoint s c).1 ≡ some info
    → poll_checkpoint s (poll_checkpoint s c).0 ≡ ((poll_checkpoint s c).0, none)
unfolding poll_checkpoint
poll_checkpoint-twice s c info e = ground arith
