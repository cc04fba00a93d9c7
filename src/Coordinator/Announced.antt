-- ===== src/Coordinator/Announced.antt =====
-- What the events say of the rollouts, against the rows of `session.json`.
use apollo_mavis_v2_runtime.Prelude.{
  ℕ, zero, suc, ◌+◌, ◌≡◌, refl, sym, ap, ◌∙◌, Bool, true, false, List, [], ◌∷◌, ◌++◌, Option, none,
  some, All, map, append-nil, append_assoc, if◌then◌else◌,
}
use native.Mathlib.Numerals.{add-one}
use apollo_mavis_v2_runtime.Coordinator.Episodes.{Timed, run}
use apollo_mavis_v2_runtime.Coordinator.Rules.{Keeps, run-Keeps, IsPlain, add_rollout, block_of}
use apollo_mavis_v2_runtime.Coordinator.State.{
  Event, episode_saved, Block, Rollout, Config, Coordinator, SessionJson, TrainerStatus, init, emit,
  log,
}
use apollo_mavis_v2_runtime.Coordinator.Trainer.{is_ready, phase_for}
use apollo_mavis_v2_runtime.Coordinator.Writer.{work}

-- What a row and the block of an event both say of a rollout.
pub record Told : Type 0 where
  pub episode_id : ℕ
  pub novice : ℕ
  pub expert : ℕ
  pub policy_version : Option ℕ
  pub spool_path : Option ℕ

abbrev pub of_block : Block → Told
of_block b = record {
  episode_id = b.episode_id;
  novice = b.novice;
  expert = b.expert;
  policy_version = b.policy_version;
  spool_path = b.spool_path;
}

abbrev pub of_row : Rollout → Told
of_row r = record {
  episode_id = r.episode_id;
  novice = r.novice;
  expert = r.expert;
  policy_version = r.policy_version;
  spool_path = r.spool_path;
}

-- The blocks of the saved episodes among the events.
abbrev pub blocks : List Event → List Block
blocks [] = []
blocks (episode_saved index b ∷ es) = b ∷ blocks es
blocks (_ ∷ es) = blocks es

abbrev pub told : List Event → List Told
told es = map of_block (blocks es)

abbrev pub counts : List Event → List ℕ
counts es = map (λ b. b.rollouts_saved) (blocks es)

-- 1, 2, …, n
abbrev pub first : ℕ → List ℕ
first zero = []
first (suc n) = first n ++ suc n ∷ []

map-append {ℓ κ} :
    {A : Type ℓ} {B : Type κ} (f : A → B) (xs ys : List A) → map f (xs ++ ys) ≡ map f xs ++ map f ys
map-append f [] ys = refl
map-append f (x ∷ xs) ys = ap (λ zs. f x ∷ zs) (map-append f xs ys)

blocks-append : (es fs : List Event) → blocks (es ++ fs) ≡ blocks es ++ blocks fs
blocks-append [] fs = refl
blocks-append (episode_saved index b ∷ es) fs = ap (λ bs. b ∷ bs) (blocks-append es fs)
blocks-append (_ ∷ es) fs = blocks-append es fs

blocks-plain : (es : List Event) → All IsPlain es → blocks es ≡ []
blocks-plain [] p = refl
blocks-plain (episode_saved index b ∷ es) p = absurd p.0
blocks-plain (_ ∷ es) p = blocks-plain es p.1

-- A document's rows are the first of the saved episodes that were announced.
abbrev pub IsTold : List Event → SessionJson → Type 0
IsTold es doc = (more : List Told) × (told es ≡ map of_row doc.rollouts ++ more)

abbrev pub IsFileTold : List Event → Option SessionJson → Type 0
IsFileTold es none = Unit
IsFileTold es (some doc) = IsTold es doc

-- The events and the rows agree, and so do all documents that were handed over.
abbrev pub IsAnnounced : Coordinator → Type 0
IsAnnounced c =
    (told c.published ≡ map of_row c.rollouts)
    × (counts c.published ≡ first c.rollouts_saved)
    × All (IsTold c.published) c.handed

later-IsTold :
    (es fs : List Event) (docs : List SessionJson)
    → All (IsTold es) docs
    → All (IsTold (es ++ fs)) docs
later-IsTold es fs [] a = tt
later-IsTold es fs (doc ∷ docs) a =
    let (more, e) = a.0 in
    (
      (
        more ++ told fs,
        ap (map of_block) (blocks-append es fs)
            ∙ map-append of_block (blocks es) (blocks fs)
            ∙ ap (λ ts. ts ++ told fs) e
            ∙ append_assoc (map of_row doc.rollouts) more (told fs),
      ),
      later-IsTold es fs docs a.1,
    )

All-snoc {ℓ κ} :
    {A : Type ℓ} (P : A → Type κ) (xs : List A) (x : A) → All P xs → P x → All P (xs ++ x ∷ [])
All-snoc P [] x a p = (p, tt)
All-snoc P (y ∷ ys) x a p = (a.0, All-snoc P ys x a.1 p)

emit-IsAnnounced :
    (c : Coordinator) (events : List Event) (write : Bool) (now wall : ℕ)
    → told (c.published ++ events) ≡ map of_row c.rollouts
    → counts (c.published ++ events) ≡ first c.rollouts_saved
    → All (IsTold c.published) c.handed
    → IsAnnounced (emit c events write now wall)
unfolding emit
emit-IsAnnounced c events false now wall same count old =
    (same, count, later-IsTold c.published events c.handed old)
emit-IsAnnounced c events true now wall same count old = (
  same,
  count,
  All-snoc (IsTold (c.published ++ events)) c.handed _
      (later-IsTold c.published events c.handed old)
      ([], same ∙ sym (append-nil (map of_row c.rollouts))),
)

plain-IsAnnounced :
    (c : Coordinator) (events : List Event) (write : Bool) (now wall : ℕ)
    → All IsPlain events
    → IsAnnounced c
    → IsAnnounced (emit c events write now wall)
plain-IsAnnounced c events write now wall p v =
    let same : blocks (c.published ++ events) ≡ blocks c.published =
      rw (blocks-append, blocks-plain events p, append-nil) in
    emit-IsAnnounced c events write now wall (ap (map of_block) same ∙ v.0)
      (ap (map (λ b. b.rollouts_saved)) same ∙ v.1) v.2

add-IsAnnounced :
    (c : Coordinator) (row : Rollout) (index now wall : ℕ)
    → IsAnnounced c
    → IsAnnounced (
        emit
          (add_rollout c row)
          (episode_saved index (block_of (c.rollouts_saved + 1) row) ∷ [])
          true
          now
          wall)
add-IsAnnounced c row index now wall v =
    emit-IsAnnounced (add_rollout c row) _ true now wall
      (rw (blocks-append, map-append, map-append, v.0))
      (rw (blocks-append, map-append, v.1, add-one)) v.2

work-IsFileTold :
    (es : List Event) (file : Option SessionJson) (docs : List SessionJson) (oks : List Bool)
    → IsFileTold es file
    → All (IsTold es) docs
    → IsFileTold es (work file docs oks)
unfolding work
work-IsFileTold es file [] oks f a = f
work-IsFileTold es file (doc ∷ docs) [] f a = f
work-IsFileTold es file (doc ∷ docs) (true ∷ oks) f a =
    work-IsFileTold es (some doc) docs oks a.0 a.1
work-IsFileTold es file (doc ∷ docs) (false ∷ oks) f a = work-IsFileTold es file docs oks f a.1

-- Over a new session's life the events of its saved episodes carry, in order, the id, the counts, the
-- acting version and the spool of exactly the rollouts it keeps, counted 1, 2, 3, …; and whichever of
-- the writes of `session.json` went through before a crash, the rows in the file are those of the
-- first of these episodes.
pub run-IsAnnounced :
    (cfg : Config) (version : Option ℕ) (wall : ℕ) (ks : List Timed) (oks : List Bool)
    → (let c = run (init cfg version wall) ks in
        (told c.published ≡ map of_row c.rollouts)
        × (counts c.published ≡ first c.rollouts_saved)
        × IsFileTold c.published (work none c.handed oks))
run-IsAnnounced cfg version wall ks oks =
    let c = run (init cfg version wall) ks in
    let v = run-Keeps IsAnnounced keeps (init cfg version wall) ks new in
    (v.0, v.1, work-IsFileTold c.published none c.handed oks tt v.2)
  where
    new : IsAnnounced (init cfg version wall)
    new = unfold init in (refl, refl, tt)

    moved :
        (c : Coordinator) (msg : TrainerStatus) (ready : Bool)
        → IsAnnounced c
        → (let l = if ready then record c { trainer_seen_ready = true } else c in
            IsAnnounced (record l { phase = phase_for l msg.state }))
    moved c msg true v = v
    moved c msg false v = v

    keeps : Keeps IsAnnounced
    keeps = record {
      emitted = plain-IsAnnounced;
      added = add-IsAnnounced;
      logs = λ c row v. unfold log in v;
      remembers = λ c s v. v;
      tracks = λ c tr t v. v;
      moves = λ c msg v. moved c msg (is_ready msg.state) v;
      acts = λ c version v. v;
      begins = λ c v. v;
    }
