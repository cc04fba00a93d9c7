-- ===== src/ControlLoop/Consistent.antt =====
-- The faulted and the recovering arms, their senders and their texts fit together.
use apollo_mavis_v2_runtime.ArmSender.{LatestSlot, ArmSender, pause, resume}
use apollo_mavis_v2_runtime.ControlLoop.Faults.{on_sender, forget_texts}
use apollo_mavis_v2_runtime.ControlLoop.Frames.{Core}
use apollo_mavis_v2_runtime.ControlLoop.Recovery.{
  faults, recovers, IsChange, is_in-add, is_in-discard,
}
use apollo_mavis_v2_runtime.ControlLoop.State.{Posture, is_in, add, discard}
use apollo_mavis_v2_runtime.Prelude.Dicts.{lookup, remove, lookup-insert, lookup-remove}
use apollo_mavis_v2_runtime.Prelude.{
  ℕ, ◌≡◌, refl, sym, subst, inl, inr, true, false, ◌||◌, List, [], ◌∷◌, none, if◌then◌else◌,
  is_some, All, arith,
}

-- No arm is faulted and recovering at once.
abbrev IsApart : Core → Type 0
IsApart c = (a : ℕ) → is_in a c.recovering ≡ true → is_in a c.faulted ≡ false

-- A sender is paused exactly while its arm is faulted.
abbrev IsPausing : List ℕ → List (ℕ × ArmSender) → Type 0
IsPausing faulted senders = All (λ e. (e.1).paused ≡ is_in e.0 faulted) senders

-- Only a stopped arm has a text.
abbrev IsTold : Core → Type 0
IsTold c =
    (a : ℕ) → is_some (lookup a c.texts) ≡ true → (is_in a c.faulted || is_in a c.recovering) ≡ true

abbrev pub IsConsistent : Core → Type 0
IsConsistent c = IsApart c × IsPausing c.faulted c.senders × IsTold c

module _ (slots : LatestSlot) where
  pause-IsPausing :
      (arm : ℕ) (faulted : List ℕ) (senders : List (ℕ × ArmSender))
      → IsPausing faulted senders
      → IsPausing (add arm faulted) (on_sender (pause slots) arm senders)
  unfolding pause
  pause-IsPausing arm faulted [] h = tt
  pause-IsPausing arm faulted ((a, s) ∷ rest) h =
      (ground (arith, h.0, is_in-add arm a faulted), pause-IsPausing arm faulted rest h.1)

  resume-IsPausing :
      (arm : ℕ) (faulted : List ℕ) (senders : List (ℕ × ArmSender))
      → IsPausing faulted senders
      → IsPausing (discard arm faulted) (on_sender resume arm senders)
  unfolding resume
  resume-IsPausing arm faulted [] h = tt
  resume-IsPausing arm faulted ((a, s) ∷ rest) h =
      (ground (arith, h.0, is_in-discard arm a faulted), resume-IsPausing arm faulted rest h.1)

  faults-IsConsistent :
      (c : Core) (arm text : ℕ) → IsConsistent c → IsConsistent (faults slots c arm text)
  faults-IsConsistent c arm text (apart, pausing, told) = (
    (λ a h. ground (arith, apart a, is_in-add arm a c.faulted, is_in-discard arm a c.recovering)),
    pause-IsPausing arm c.faulted c.senders pausing,
    (λ a h. ground (
      arith,
      told a,
      lookup-insert arm a text c.texts,
      is_in-add arm a c.faulted,
      is_in-discard arm a c.recovering,
    )),
  )

  recovers-IsConsistent :
      (c : Core) (arm : ℕ) (last_cmd : List (ℕ × Posture))
      → IsConsistent c
      → IsConsistent (recovers c arm last_cmd)
  recovers-IsConsistent c arm last_cmd (apart, pausing, told) = (
    (λ a h. ground (arith, apart a, is_in-discard arm a c.faulted, is_in-add arm a c.recovering)),
    resume-IsPausing arm c.faulted c.senders pausing,
    (λ a h. ground (arith, told a, is_in-discard arm a c.faulted, is_in-add arm a c.recovering)),
  )

  pub change-IsConsistent : (c d : Core) → IsChange slots c d → IsConsistent c → IsConsistent d
  change-IsConsistent c d (inl e) h = subst IsConsistent (sym e) h
  change-IsConsistent c d (inr (inl (arm, text, e))) h =
      subst IsConsistent (sym e) (faults-IsConsistent c arm text h)
  change-IsConsistent c d (inr (inr (arm, last_cmd, e))) h =
      subst IsConsistent (sym e) (recovers-IsConsistent c arm last_cmd h)

lookup-forget_texts :
    (rs : List ℕ) (d : List (ℕ × ℕ)) (a : ℕ)
    → lookup a (forget_texts rs d) ≡ (if is_in a rs then none else lookup a d)
lookup-forget_texts [] d a = refl
lookup-forget_texts (r ∷ rs) d a =
    ground (arith, lookup-forget_texts rs (remove r d) a, lookup-remove r a d)

-- The release of the recovering arms.
pub release-IsConsistent :
    (c : Core)
    → IsConsistent c
    → IsConsistent (record c { recovering = []; texts = forget_texts c.recovering c.texts })
release-IsConsistent c (apart, pausing, told) = (
  (λ a h. ground (arith, h)),
  pausing,
  (λ a h. ground (arith, told a, lookup-forget_texts c.recovering c.texts a)),
)
