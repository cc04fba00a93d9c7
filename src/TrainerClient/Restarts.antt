-- ===== src/TrainerClient/Restarts.antt =====
-- How often the trainer is started, and when it is given up.
use apollo_mavis_v2_runtime.Prelude.{
  ℕ, ◌+◌, ◌≤◌, ◌≡◌, refl, Bool, true, false, List, [], ◌∷◌, Option, none, some, arith, ◌∙◌, length,
  length-append, All,
}
use apollo_mavis_v2_runtime.TrainerClient.{
  Client, Turn, Message, dead, init, handle_death, check_process, take_message, ask_status,
  read_reply, status_period_s, turn, status, submit_episode, notify_rollback, poll_checkpoint, Call,
  turns, polls, step, run,
}

-- A process is started once at first, and once more for a restart that succeeds; and a client whose
-- restart started no process is degraded.
abbrev pub IsBounded : Client → Type 0
IsBounded c =
    (c.restarts ≤ 1)
    × (length c.spawned ≤ 1 + c.restarts)
    × (length c.spawned ≤ c.restarts → c.degraded ≡ true)

handle_death-IsBounded :
    (c : Client) (starts : Bool) → IsBounded c → IsBounded (handle_death c starts)
unfolding handle_death
handle_death-IsBounded c starts v = ground (arith, length-append c.spawned (true ∷ []))

check_process-IsBounded : (c : Client) (t : Turn) → IsBounded c → IsBounded (check_process c t)
unfolding check_process
check_process-IsBounded c t v = ground (arith, handle_death-IsBounded c t.starts v)

take_message-IsBounded :
    (ms : List Message) (exchanged : Bool) (c : Client)
    → IsBounded c
    → IsBounded (take_message ms exchanged c)
take_message-IsBounded [] exchanged c v = v
take_message-IsBounded (m ∷ ms) exchanged c v = v

read_reply-IsBounded :
    (c : Client) (t : Turn) (reply : Option ℕ) → IsBounded c → IsBounded (read_reply c t reply)
read_reply-IsBounded c t none v =
    ground (arith, handle_death-IsBounded (record c { missed = c.missed + 1 }) t.starts_again v)
read_reply-IsBounded c t (some p) v = v

ask_status-IsBounded : (c : Client) (t : Turn) → IsBounded c → IsBounded (ask_status c t)
unfolding ask_status
ask_status-IsBounded c t v =
    ground
      (arith, read_reply-IsBounded (record c { next_status = t.now + status_period_s }) t t.reply v)

turn-IsBounded : (c : Client) (t : Turn) → IsBounded c → IsBounded (turn c t)
unfolding turn
turn-IsBounded c t v =
    ask_status-IsBounded _ t (take_message-IsBounded _ _ _ (check_process-IsBounded c t v))

step-IsBounded : (c : Client) (k : Call) → IsBounded c → IsBounded (step c k)
unfolding step submit_episode notify_rollback poll_checkpoint
step-IsBounded c (turns t) v = turn-IsBounded c t v
step-IsBounded c (polls s) v = ground arith
step-IsBounded c _ v = v

run-IsBounded : (c : Client) (ks : List Call) → IsBounded c → IsBounded (run c ks)
unfolding run
run-IsBounded c [] v = v
run-IsBounded c (k ∷ ks) v = run-IsBounded (step c k) ks (step-IsBounded c k v)

-- However often the process dies, hangs or cannot be started: the trainer is restarted at most once,
-- so at most two processes are ever started, and a client whose restart started none is degraded.
pub run-init-IsBounded : (ks : List Call) → IsBounded (run init ks)
run-init-IsBounded ks = run-IsBounded init ks (ground arith)

-- A degraded client starts nothing and shows a dead trainer.
abbrev pub IsGivenUp : List Bool → Client → Type 0
IsGivenUp spawned c = (c.degraded ≡ true) × (c.spawned ≡ spawned)

turn-IsGivenUp :
    (spawned : List Bool) (c : Client) (t : Turn)
    → IsGivenUp spawned c
    → IsGivenUp spawned (turn c t)
unfolding turn check_process ask_status handle_death
turn-IsGivenUp spawned c t v = ground arith

step-IsGivenUp :
    (spawned : List Bool) (c : Client) (k : Call)
    → IsGivenUp spawned c
    → IsGivenUp spawned (step c k)
unfolding step submit_episode notify_rollback poll_checkpoint
step-IsGivenUp spawned c (turns t) v = turn-IsGivenUp spawned c t v
step-IsGivenUp spawned c (polls s) v = ground arith
step-IsGivenUp spawned c _ v = v

run-IsGivenUp :
    (spawned : List Bool) (c : Client) (ks : List Call)
    → IsGivenUp spawned c
    → IsGivenUp spawned (run c ks)
unfolding run
run-IsGivenUp spawned c [] v = v
run-IsGivenUp spawned c (k ∷ ks) v =
    run-IsGivenUp spawned (step c k) ks (step-IsGivenUp spawned c k v)

-- Once degraded, the client stays so: it starts no further process and reports the trainer as dead,
-- also when late replies arrive.
pub run-degraded :
    (c : Client) (ks : List Call)
    → c.degraded ≡ true
    → (status (run c ks) ≡ some dead) × ((run c ks).spawned ≡ c.spawned)
unfolding status
run-degraded c ks d = let v = run-IsGivenUp c.spawned c ks (d, refl) in ground (arith, v.0, v.1)

-- A process that died twice is given up: a second death, found in either way, degrades the client.
pub handle_death-twice :
    (c : Client) (starts starts' : Bool)
    → let c' = handle_death (handle_death c starts) starts' in
      (c'.degraded ≡ true) × (length c'.spawned ≤ length c.spawned + 1)
unfolding handle_death
handle_death-twice c starts starts' = ground (arith, length-append c.spawned (true ∷ []))

-- A turn that finds the process alive.
abbrev pub IsAlive : Call → Type 0
IsAlive (turns t) = (t.exited ≡ false) × (t.alive ≡ true)
IsAlive _ = Unit

abbrev pub SameProcess : Client → Client → Type 0
SameProcess c c' =
    (c'.restarts ≡ c.restarts) × (c'.degraded ≡ c.degraded) × (c'.spawned ≡ c.spawned)

step-alive : (c : Client) (k : Call) → IsAlive k → SameProcess c (step c k)
unfolding step submit_episode notify_rollback poll_checkpoint turn check_process ask_status
step-alive c (turns t) a = ground arith
step-alive c (polls s) a = ground arith
step-alive c _ a = (refl, refl, refl)

-- A trainer that is alive is never restarted or given up, however many status requests it leaves
-- without a reply.
pub run-alive : (c : Client) (ks : List Call) → All IsAlive ks → SameProcess c (run c ks)
unfolding run
run-alive c [] a = (refl, refl, refl)
run-alive c (k ∷ ks) a =
    let p = step-alive c k a.0 in
    let q = run-alive (step c k) ks a.1 in (q.0 ∙ p.0, q.1 ∙ p.1, q.2 ∙ p.2)
