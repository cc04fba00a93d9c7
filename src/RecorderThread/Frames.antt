-- ===== src/RecorderThread/Frames.antt =====
-- Which frames an episode hands to the recorder.
use apollo_mavis_v2_runtime.ActionFilter.{ActionFilterConfig, Capture}
use apollo_mavis_v2_runtime.ActionFilter as Filter
use apollo_mavis_v2_runtime.Prelude.{
  ℕ, ◌≡◌, refl, ap, ◌∙◌, sym, subst, Bool, true, false, ◌&&◌, List, [], ◌∷◌, ◌++◌, Option, none,
  some, ℤ, append-nil, append_assoc, Bool-cases, inl, inr, ◌==◌,
}
use apollo_mavis_v2_runtime.RecorderThread.Iteration.{
  Surroundings, add_frame, degrade_after_failed_save, do_discard, do_save, emit, emit_all,
  finish_save, save_once, take_capture,
}
use apollo_mavis_v2_runtime.RecorderThread.Requests.{begin}
use apollo_mavis_v2_runtime.RecorderThread.State.{
  Effect, RecorderThread, Reason, audio_aborted, audio_begun, audio_call, discarded, discarded_done,
  discarded_hook, does, frame_added, save_failed_twice, save_tried, saved_done, saved_hook, started,
  empty_episode,
}

-- The frames among the effects: the capture observed, and the one that its action leads to.
abbrev pub frames_in : List Effect → List (Capture × Capture)
frames_in [] = []
frames_in (frame_added prev cur ∷ es) = (prev, cur) ∷ frames_in es
frames_in (_ ∷ es) = frames_in es

-- Each capture with the one before it, of which `p` is the first.
abbrev pub pairs : Option Capture → List Capture → List (Capture × Capture)
pairs p [] = []
pairs none (c ∷ cs) = pairs (some c) cs
pairs (some p) (c ∷ cs) = (p, c) ∷ pairs (some c) cs

abbrev last_of : Option Capture → List Capture → Option Capture
last_of p [] = p
last_of p (c ∷ cs) = last_of (some c) cs

frames_in-append : (es fs : List Effect) → frames_in (es ++ fs) ≡ frames_in es ++ frames_in fs
frames_in-append [] fs = refl
frames_in-append (frame_added prev cur ∷ es) fs = rw (frames_in-append es fs)
frames_in-append (_ ∷ es) fs = frames_in-append es fs

pairs-append :
    (p : Option Capture) (cs ds : List Capture)
    → pairs p (cs ++ ds) ≡ pairs p cs ++ pairs (last_of p cs) ds
pairs-append p [] ds = refl
pairs-append none (c ∷ cs) ds = pairs-append (some c) cs ds
pairs-append (some p) (c ∷ cs) ds = rw (pairs-append (some c) cs ds)

last_of-append :
    (p : Option Capture) (cs ds : List Capture) → last_of p (cs ++ ds) ≡ last_of (last_of p cs) ds
last_of-append p [] ds = refl
last_of-append p (c ∷ cs) ds = last_of-append (some c) cs ds

-- The recorder takes every frame.
abbrev pub takes_all : Capture → Bool
takes_all c = true

abbrev Wrote : RecorderThread → RecorderThread → List Capture → Type 0
Wrote t t' cs =
    (frames_in t'.effects ≡ frames_in t.effects ++ pairs t.pending cs)
    × (t'.pending ≡ last_of t.pending cs)

emit-Wrote :
    (t : RecorderThread) (c : Capture)
    → Wrote t (emit t takes_all c) (c ∷ []) × ((emit t takes_all c).filter ≡ t.filter)
unfolding emit does
emit-Wrote t c = let w = go t.pending in ((w.0, w.1), w.2)
  where
    go :
        (p : Option Capture)
        → (frames_in (add_frame t takes_all p c).effects ≡ frames_in t.effects ++ pairs p (c ∷ []))
          × (some c ≡ some c)
          × ((add_frame t takes_all p c).filter ≡ t.filter)
    go none = (sym (append-nil (frames_in t.effects)), refl, refl)
    go (some p) = (frames_in-append t.effects (frame_added p c ∷ []), refl, refl)

Wrote-trans :
    (t u v : RecorderThread) (cs ds : List Capture)
    → Wrote t u cs
    → Wrote u v ds
    → Wrote t v (cs ++ ds)
Wrote-trans t u v cs ds first second = (
  second.0
      ∙ ap (λ fs. fs ++ pairs u.pending ds) first.0
      ∙ ap (λ p. (frames_in t.effects ++ pairs t.pending cs) ++ pairs p ds) first.1
      ∙ append_assoc (frames_in t.effects) (pairs t.pending cs) (pairs (last_of t.pending cs) ds)
      ∙ ap (λ fs. frames_in t.effects ++ fs) (sym (pairs-append t.pending cs ds)),
  second.1 ∙ ap (λ p. last_of p ds) first.1 ∙ sym (last_of-append t.pending cs ds),
)

emit_all-Wrote :
    (t : RecorderThread) (cs : List Capture)
    → Wrote t (emit_all t takes_all cs) cs × ((emit_all t takes_all cs).filter ≡ t.filter)
unfolding emit_all
emit_all-Wrote t [] = ((sym (append-nil (frames_in t.effects)), refl), refl)
emit_all-Wrote t (c ∷ cs) =
    let e = emit-Wrote t c in
    let r = emit_all-Wrote (emit t takes_all c) cs in
    (
      Wrote-trans t (emit t takes_all c) (emit_all (emit t takes_all c) takes_all cs) (c ∷ []) cs
          e.0 r.0,
      r.1 ∙ e.1,
    )

does-frames :
    (t : RecorderThread) (es : List Effect)
    → frames_in es ≡ []
    → frames_in (does t es).effects ≡ frames_in t.effects
unfolding does
does-frames t es none_in =
    frames_in-append t.effects es
    ∙ ap (λ fs. frames_in t.effects ++ fs) none_in
    ∙ append-nil (frames_in t.effects)

audio_call-frames :
    (b : Bool) (es : List Effect) → frames_in (audio_call b audio_aborted ++ es) ≡ frames_in es
audio_call-frames true es = refl
audio_call-frames false es = refl

do_discard-frames :
    (t : RecorderThread) (reason : Reason) (id : Option ℕ)
    → frames_in (do_discard t reason id).effects ≡ frames_in t.effects
unfolding do_discard
do_discard-frames t reason id =
    does-frames t
      (discarded ∷ discarded_hook t.episode_index id reason ∷ audio_call t.has_audio audio_aborted
        ++ discarded_done ∷ [])
      (audio_call-frames t.has_audio (discarded_done ∷ []))

degrade-frames :
    (t : RecorderThread) (id : Option ℕ)
    → frames_in (degrade_after_failed_save t id).effects ≡ frames_in t.effects
unfolding degrade_after_failed_save
degrade-frames t id =
    does-frames t
      (discarded_hook t.episode_index id save_failed_twice ∷ audio_call t.has_audio audio_aborted)
      (go t.has_audio)
  where
    go : (b : Bool) → frames_in (audio_call b audio_aborted) ≡ []
    go true = refl
    go false = refl

finish_save-frames :
    (t : RecorderThread) (index id : ℕ)
    → frames_in (finish_save t index id).effects ≡ frames_in t.effects
unfolding finish_save
finish_save-frames t index id = does-frames t (saved_hook index id ∷ saved_done index ∷ []) refl

save_once-frames :
    (t : RecorderThread) (id : Option ℕ) (first second : Option (ℕ × ℕ))
    → frames_in (save_once t id first second).effects ≡ frames_in t.effects
save_once-frames t id (some (index, saved)) second = finish_save-frames t index saved
save_once-frames t id none none =
    degrade-frames (does t (save_tried t.frames ∷ [])) id
    ∙ does-frames t (save_tried t.frames ∷ []) refl
save_once-frames t id none (some (index, saved)) =
    finish_save-frames (does t (save_tried t.frames ∷ [])) index saved
    ∙ does-frames t (save_tried t.frames ∷ []) refl

-- Captures taken in turn.
unfoldable pub take_captures :
    (List ℤ → List ℤ → ℕ) → Surroundings → RecorderThread → List Capture → RecorderThread
take_captures rotation_angle s t [] = t
take_captures rotation_angle s t (c ∷ cs) =
    take_captures rotation_angle s (take_capture rotation_angle t s c) cs

module _ (rotation_angle : List ℤ → List ℤ → ℕ) (s : Surroundings)
    (takes : s.adds ≡ takes_all) where
  take_capture-Wrote :
      (t : RecorderThread) (c : Capture)
      → let t' = take_capture rotation_angle t s c in
        let p = Filter.push rotation_angle t.filter c in Wrote t t' p.1 × (t'.filter ≡ p.0)
  unfolding take_capture
  take_capture-Wrote t c = elim (Bool-cases (t.need_extrinsics && t.has_extrinsics)) [
    | inl needs ↦
        rw (takes, needs)
          (emit_all-Wrote
            (taken (record t { episode_extrinsics = s.extrinsics; need_extrinsics = false })) p.1)
    | inr no_need ↦ rw (takes, no_need) (emit_all-Wrote (taken t) p.1)
  ]
    where
      p : Filter.ActionFilter × List Capture
      p = Filter.push rotation_angle t.filter c

      taken : RecorderThread → RecorderThread
      taken u = record u {
        last_snap_tick = some c.tick;
        last_wallclock = some c.wallclock_ns;
        filter = p.0;
      }

  take_captures-Wrote :
      (t : RecorderThread) (cs : List Capture)
      → let p = Filter.pushes rotation_angle t.filter cs in
        Wrote t (take_captures rotation_angle s t cs) p.1
        × ((take_captures rotation_angle s t cs).filter ≡ p.0)
  unfolding take_captures Filter.pushes
  take_captures-Wrote t [] = ((sym (append-nil (frames_in t.effects)), refl), refl)
  take_captures-Wrote t (c ∷ cs) =
      let u = take_capture rotation_angle t s c in
      let v = take_captures rotation_angle s u cs in
      let p = Filter.push rotation_angle t.filter c in
      let a = take_capture-Wrote t c in
      let b =
        subst
          (λ f.
            Wrote u v (Filter.pushes rotation_angle f cs).1
            × (v.filter ≡ (Filter.pushes rotation_angle f cs).0))
          a.1 (take_captures-Wrote u cs) in
      (Wrote-trans t u v p.1 (Filter.pushes rotation_angle p.0 cs).1 a.0 b.0, b.1)

  do_save-frames :
      (t : RecorderThread)
      → let p = Filter.flush rotation_angle t.filter in
        frames_in (do_save rotation_angle t s).effects ≡ frames_in t.effects ++ pairs t.pending p.1
  unfolding do_save
  do_save-frames t =
      let p = Filter.flush rotation_angle t.filter in
      let u = record t { filter = p.0 } in
      let t' = emit_all u s.adds p.1 in
      let wrote : frames_in t'.effects ≡ frames_in t.effects ++ pairs t.pending p.1 =
        rw takes ((emit_all-Wrote u p.1).0.0) in
      let tried = does t' (save_tried t'.frames ∷ []) in
      elim (Bool-cases (t'.frames == 0)) [
        | inl nothing ↦ rw nothing (do_discard-frames t' empty_episode s.episode_id ∙ wrote)
        | inr some_frames ↦ rw some_frames (
            save_once-frames tried s.episode_id s.first_save s.second_save
            ∙ does-frames t' (save_tried t'.frames ∷ []) refl
            ∙ wrote)
      ]

begin-frames :
    (t : RecorderThread) (index : ℕ) → frames_in (begin t index).effects ≡ frames_in t.effects
unfolding begin
begin-frames t index =
    frames_in-append t.effects (started ∷ audio_call t.has_audio audio_begun)
    ∙ ap (λ fs. frames_in t.effects ++ fs) (go t.has_audio)
    ∙ append-nil (frames_in t.effects)
  where
    go : (b : Bool) → frames_in (started ∷ audio_call b audio_begun) ≡ []
    go true = refl
    go false = refl

-- An episode, from its beginning over the captures that are taken to its save, hands the recorder,
-- where that takes every frame, exactly one frame for each two successive captures of those that the
-- filter keeps of it: the earlier one observed, with the action to the later one, in order, and
-- whatever becomes of the save.
pub episode-frames :
    (rotation_angle : List ℤ → List ℤ → ℕ) (s : Surroundings) (t : RecorderThread) (index : ℕ)
    (cs : List Capture)
    → s.adds ≡ takes_all
    → frames_in
        (do_save rotation_angle (take_captures rotation_angle s (begin t index) cs) s).effects
      ≡ frames_in t.effects ++ pairs none (Filter.episode rotation_angle t.filter cs).1
unfolding Filter.episode begin
episode-frames rotation_angle s t index cs takes =
    let u = begin t index in
    let v = take_captures rotation_angle s u cs in
    let p = Filter.pushes rotation_angle (Filter.reset t.filter) cs in
    let fl = (Filter.flush rotation_angle p.0).1 in
    let w = take_captures-Wrote rotation_angle s takes u cs in
    do_save-frames rotation_angle s takes v
    ∙ ap (λ f. frames_in v.effects ++ pairs v.pending (Filter.flush rotation_angle f).1) w.1
    ∙ ap (λ fs. fs ++ pairs v.pending fl) w.0.0
    ∙ ap (λ q. (frames_in u.effects ++ pairs none p.1) ++ pairs q fl) w.0.1
    ∙ append_assoc (frames_in u.effects) (pairs none p.1) (pairs (last_of none p.1) fl)
    ∙ ap (λ fs. frames_in u.effects ++ fs) (sym (pairs-append none p.1 fl))
    ∙ ap (λ fs. fs ++ pairs none (p.1 ++ fl)) (begin-frames t index)
