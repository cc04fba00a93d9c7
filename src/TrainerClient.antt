-- ===== src/TrainerClient.antt =====
-- dagger/client.py: the runtime's side of the trainer process.
-- The process, the socket and the clock are outside: each turn of the worker thread takes what they
-- answered as a `Turn`. Neither a reply whose status does not parse is modelled, which ends the
-- worker, nor `request_stop`, which ends it with what still waits left unsent.
pub mod Restarts
pub mod Polling
mod Tests
use apollo_mavis_v2_runtime.Checkpoints.{CheckpointInfo, CheckpointStore, latest, read_manifest}
use apollo_mavis_v2_runtime.Prelude.{
  ℕ, ◌+◌, Bool, true, false, not, ◌&&◌, ◌||◌, List, [], ◌∷◌, ◌++◌, Option, none, some, leb,
  if◌then◌else◌,
}

-- The core's `TrainerStatus`: the one that the client makes itself, and those that it is sent.
pub data TrainerStatus : Type 0 where
  dead : TrainerStatus
  reported : ℕ → TrainerStatus

pub data Message : Type 0 where
  submit : (episode : ℕ) → Message
  roll_back : (version : ℕ) → Message

pub record Client : Type 0 where
  pub restarts : ℕ
  pub degraded : Bool
  pub state : Option TrainerStatus  -- `_status`
  pub missed : ℕ
  pub known_version : ℕ
  pub queue : List Message
  pub next_status : ℕ
  pub spawned : List Bool  -- the `resume` flag of every process that was started
  pub sent : List Message  -- every message that the trainer answered

abbrev pub status_period_s : ℕ
status_period_s = 1000

abbrev pub missed_replies_dead : ℕ
missed_replies_dead = 3

-- The client after the constructor, which started the first process.
abbrev pub init : Client
init = record {
  restarts = 0;
  degraded = false;
  state = none;
  missed = 0;
  known_version = 0;
  queue = [];
  next_status = 0;
  spawned = false ∷ [];
  sent = [];
}

-- `_spawn(resume=True)` in its `try`; `starts` says whether the process could be started.
unfoldable pub respawn : Client → Bool → Client
respawn c starts =
    if starts
    then record c { missed = 0; spawned = c.spawned ++ true ∷ [] }
    else record c { degraded = true }

unfoldable pub handle_death : Client → Bool → Client
unfolding respawn
handle_death c starts =
    if c.degraded
    then c
    else if leb 1 c.restarts
    then record c { degraded = true; state = some dead }
    else respawn (record c { restarts = c.restarts + 1; state = some dead }) starts

-- What the outside answers during one turn of the loop.
pub record Turn : Type 0 where
  pub exited : Bool  -- `proc is not None and proc.poll() is not None`, at the top
  pub starts : Bool  -- whether a process can be started, at the top
  pub exchanged : Bool  -- whether the trainer answers the message of this turn
  pub now : ℕ
  pub reply : Option ℕ  -- the status in the reply to `status`, if one came
  pub alive : Bool  -- `proc is not None and proc.poll() is None`, at the end
  pub starts_again : Bool  -- whether a process can be started, at the end

unfoldable pub check_process : Client → Turn → Client
check_process c t = if t.exited && not c.degraded then handle_death c t.starts else c

-- `self._queue.get(timeout=0.1)` and the request. Its reply is not looked at, nor whether there is
-- one: a message whose exchange fails is gone.
abbrev pub take_message : List Message → Bool → Client → Client
take_message [] exchanged c = c
take_message (m ∷ ms) exchanged c = record c {
  queue = ms;
  sent = if exchanged then c.sent ++ m ∷ [] else c.sent;
}

abbrev pub count_missed : Client → Turn → Client
count_missed c t =
    let c' = record c { missed = c.missed + 1 } in
    if leb missed_replies_dead c'.missed && not t.alive then handle_death c' t.starts_again else c'

abbrev pub read_reply : Client → Turn → Option ℕ → Client
read_reply c t none = count_missed c t
read_reply c t (some payload) = record c { state = some (reported payload); missed = 0 }

unfoldable pub ask_status : Client → Turn → Client
ask_status c t =
    if leb c.next_status t.now
    then read_reply (record c { next_status = t.now + status_period_s }) t t.reply
    else c

-- One turn of `_run`.
unfoldable pub turn : Client → Turn → Client
turn c t = let c' = check_process c t in ask_status (take_message c'.queue t.exchanged c') t

unfoldable pub submit_episode : Client → ℕ → Client
submit_episode c episode = record c { queue = c.queue ++ submit episode ∷ [] }

unfoldable pub notify_rollback : Client → ℕ → Client
notify_rollback c version = record c { queue = c.queue ++ roll_back version ∷ [] }

unfoldable pub status : Client → Option TrainerStatus
status c = if c.degraded then some dead else c.state

abbrev pub accept : Client → ℕ → Option CheckpointInfo → Client × Option CheckpointInfo
accept c v none = (c, none)
accept c v (some info) =
    if info.sanity_ok then (record c { known_version = v }, some info) else (c, none)

abbrev pub poll_latest : CheckpointStore → Client → Option ℕ → Client × Option CheckpointInfo
poll_latest s c none = (c, none)
poll_latest s c (some v) =
    if leb v c.known_version then (c, none) else accept c v (read_manifest s v)

unfoldable pub poll_checkpoint : CheckpointStore → Client → Client × Option CheckpointInfo
poll_checkpoint s c = poll_latest s c (latest s)

-- What happens to the client.
pub data Call : Type 0 where
  turns : Turn → Call
  submits notifies : ℕ → Call
  polls : CheckpointStore → Call

unfoldable pub step : Client → Call → Client
step c (turns t) = turn c t
step c (submits e) = submit_episode c e
step c (notifies v) = notify_rollback c v
step c (polls s) = (poll_checkpoint s c).0

unfoldable pub run : Client → List Call → Client
run c [] = c
run c (k ∷ ks) = run (step c k) ks
