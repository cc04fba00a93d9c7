-- ===== src/Coordinator/Resume.antt =====
-- `session.json`: what a crashed or ended session leaves, and what the next one takes up.
use apollo_mavis_v2_runtime.Prelude.{
  ℕ, suc, ◌-◌, ◌≤◌, ◌≡◌, refl, sym, subst, ap, ◌∙◌, Bool, true, false, List, [], ◌∷◌, ◌++◌, Option,
  none, some, arith, length, length-append, last, if◌then◌else◌,
}
use apollo_mavis_v2_runtime.Coordinator.Rules.{Keeps, run-Keeps, add_rollout}
use apollo_mavis_v2_runtime.Coordinator.State.{
  Event, Config, Coordinator, SessionJson, TrainerStatus, init, emit, log, on_session_start,
  to_session_json, from_session_json, start_phase,
}
use apollo_mavis_v2_runtime.Coordinator.Trainer.{is_ready, phase_for}
use apollo_mavis_v2_runtime.Coordinator.Episodes.{Timed, run}
use apollo_mavis_v2_runtime.Coordinator.Invariant.{IsSound, Keeps-IsSound}
use apollo_mavis_v2_runtime.Coordinator.Writer.{work}

last_all : {A : Type 0} (n : ℕ) (xs : List A) → length xs ≤ n → last n xs ≡ xs
last_all n xs h = let zero_left : length xs - n ≡ 0 = omega arith in rw zero_left

-- A session of the same name that resumes from the file of a sound session takes up its rollouts,
-- its log and its counters, and starts in its own first phase with no trainer seen ready.
pub from_session_json-to_session_json :
    (c c' : Coordinator) (wall : ℕ)
    → IsSound c
    → let r = from_session_json c' (to_session_json c wall) in
      (r.rollouts ≡ c.rollouts)
      × (r.trainer_log ≡ c.trainer_log)
      × (r.rollouts_saved ≡ c.rollouts_saved)
      × (r.expert_frames_session ≡ c.expert_frames_session)
      × (r.novice_frames_session ≡ c.novice_frames_session)
      × (r.phase ≡ start_phase c'.cfg)
      × (r.trainer_seen_ready ≡ false)
unfolding from_session_json to_session_json
from_session_json-to_session_json c c' wall v = (
  refl,
  ap (last 200) (last_all 200 c.trainer_log v.2) ∙ last_all 200 c.trainer_log v.2,
  omega (arith, v.0.0),
  refl,
  refl,
  refl,
  refl,
)

-- A document holds all rollouts and counters.
abbrev Holds : Coordinator → SessionJson → Type 0
Holds c doc =
    (doc.rollouts ≡ c.rollouts)
    × (doc.rollouts_saved ≡ c.rollouts_saved)
    × (doc.expert_frames_session ≡ c.expert_frames_session)
    × (doc.novice_frames_session ≡ c.novice_frames_session)

-- The document that was handed over last does.
abbrev IsDurable : Coordinator → Type 0
IsDurable c =
    (docs : List SessionJson) × (doc : SessionJson) × (c.handed ≡ docs ++ doc ∷ []) × Holds c doc

emit-IsDurable :
    (c : Coordinator) (events : List Event) (write : Bool) (now wall : ℕ)
    → IsDurable c
    → IsDurable (emit c events write now wall)
unfolding emit
emit-IsDurable c events true now wall v = (c.handed, _, refl, (refl, refl, refl, refl))
emit-IsDurable c events false now wall v = v

emit_write-IsDurable :
    (c : Coordinator) (events : List Event) (now wall : ℕ) → IsDurable (emit c events true now wall)
unfolding emit
emit_write-IsDurable c events now wall = (c.handed, _, refl, (refl, refl, refl, refl))

Keeps-IsDurable : Keeps IsDurable
Keeps-IsDurable = record {
  emitted = λ c events write now wall _ v. emit-IsDurable c events write now wall v;
  added = λ c row index now wall v. emit_write-IsDurable (add_rollout c row) _ now wall;
  logs = λ c row v. unfold log in v;
  remembers = λ c s v. v;
  tracks = λ c tr t v. v;
  moves = λ c msg v. moved c msg (is_ready msg.state) v;
  acts = λ c version v. v;
  begins = λ c v. v;
}
  where
    moved :
        (c : Coordinator) (msg : TrainerStatus) (ready : Bool)
        → IsDurable c
        → (let l = if ready then record c { trainer_seen_ready = true } else c in
            IsDurable (record l { phase = phase_for l msg.state }))
    moved c msg true v = v
    moved c msg false v = v

-- There is a file, and resuming from it takes up every rollout and counter.
abbrev pub Recovers : Coordinator → Coordinator → Option SessionJson → Type 0
Recovers c c' none = ⊥
Recovers c c' (some doc) =
    let r = from_session_json c' doc in
    (r.rollouts ≡ c.rollouts)
    × (r.rollouts_saved ≡ c.rollouts_saved)
    × (r.expert_frames_session ≡ c.expert_frames_session)
    × (r.novice_frames_session ≡ c.novice_frames_session)

recover :
    (c c' : Coordinator) (doc : SessionJson) → IsSound c → Holds c doc → Recovers c c' (some doc)
unfolding from_session_json
recover c c' doc v holds = ground (arith, v.0, ap (λ rs. length rs) holds.0)

-- The last write decides.
work-last :
    (file : Option SessionJson) (docs : List SessionJson) (doc : SessionJson) (oks : List Bool)
    → length oks ≡ length docs
    → work file (docs ++ doc ∷ []) (oks ++ true ∷ []) ≡ some doc
unfolding work
work-last file [] doc [] e = refl
work-last file [] doc (ok ∷ oks) e = absurd (omega (arith, e))
work-last file (d ∷ docs) doc [] e = absurd (omega (arith, e))
work-last file (d ∷ docs) doc (ok ∷ oks) e =
    work-last (if ok then some d else file) docs doc oks (omega (arith, e))

-- Once the worker has run every write that a session has handed over since its start, and the last of
-- them went through, whatever came of the others, a session that resumes from the file has every
-- rollout's row and the same counters.
pub run-Recovers :
    (cfg : Config) (version : Option ℕ) (start wall : ℕ) (ks : List Timed) (c' : Coordinator)
    (oks : List Bool)
    → suc (length oks)
      ≡ length (run (on_session_start (init cfg version wall) start wall) ks).handed
    → (let c = run (on_session_start (init cfg version wall) start wall) ks in
        Recovers c c' (work none c.handed (oks ++ true ∷ [])))
run-Recovers cfg version start wall ks c' oks all_run =
    let begun = on_session_start (init cfg version wall) start wall in
    let c = run begun ks in
    let sound = run-Keeps IsSound Keeps-IsSound begun ks first_sound in
    let (docs, doc, handed, holds) = run-Keeps IsDurable Keeps-IsDurable begun ks first_durable in
    let counted : length oks ≡ length docs =
      omega (arith, all_run, ap (λ ds. length ds) handed, length-append docs (doc ∷ [])) in
    subst (Recovers c c')
      (sym
        (ap (λ ds. work none ds (oks ++ true ∷ [])) handed ∙ work-last none docs doc oks counted))
      (recover c c' doc sound holds)
  where
    first_sound : IsSound (on_session_start (init cfg version wall) start wall)
    first_sound = unfold init on_session_start emit in ground arith

    first_durable : IsDurable (on_session_start (init cfg version wall) start wall)
    first_durable = unfold init on_session_start in emit_write-IsDurable _ [] start wall
