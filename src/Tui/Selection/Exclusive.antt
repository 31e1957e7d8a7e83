-- ===== src/Tui/Selection/Exclusive.antt =====
-- The selection of puc-cli/tui/rendering/selection.cpp is held by one frame at most.
use puc.Base.{
  ℕ, ◌≡◌, refl, sym, ap, subst, ◌∙◌, ◌≢◌, ◌⊎◌, inl, inr, Bool, true, false, ◌&&◌, Option, none,
  some, List, [], ◌∷◌, arith, ◌==◌, if◌then◌else◌, Bool-cases,
}
use puc.Base.Bytes.{Bytes, bytes_eq}
use puc.Tui.{Status, is_ok, is_empty, invalid_argument, frame_not_selectable}
use puc.Tui.Selection.{
  SelectionPhase, no_phase, in_progress, complete, SelectionEventType, select_and_extend,
  end_select_and_extend, select_word, select_line, select_all, reset_selection, SelectionEvent,
  SelectionStateMachine, Frame, idle, reset_event, Result, reset_active, reset_in, reset,
  phase_after, update, reset_then_update, update_target, dispatch, is_reset, select, apply,
}

-- What the documentation asks of a frame's callback, where `selected` says which frames show a
-- selection: it changes no other frame, a rejected event changes nothing, and after an accepted
-- reset the frame shows none.
pub record IsFrame {W : Type 0} (frames : Frame W) (selected : ℕ → W → Bool) : Type 0 where
  pub elsewhere :
      (f j : ℕ) (e : SelectionEvent) (w : W)
      → j ≢ f
      → selected j (frames.update_selection f e w).1 ≡ selected j w
  pub rejected :
      (f j : ℕ) (e : SelectionEvent) (w : W)
      → is_ok (frames.update_selection f e w).0 ≡ false
      → selected j (frames.update_selection f e w).1 ≡ selected j w
  pub cleared :
      (f : ℕ) (e : SelectionEvent) (w : W)
      → e.event_type ≡ reset_selection
      → is_ok (frames.update_selection f e w).0 ≡ true
      → selected f (frames.update_selection f e w).1 ≡ false

pub record Step : Type 0 where
  pub id : Bytes
  pub target : Option ℕ
  pub event : SelectionEvent

abbrev pub Shape : SelectionPhase → Option ℕ → Type 0
Shape no_phase active = active ≡ none
Shape _ active = (f : ℕ) × (active ≡ some f)

-- The active frame belongs to the phase, and no other frame shows a selection.
pub record IsExclusive {W : Type 0} (selected : ℕ → W → Bool) (s : SelectionStateMachine) (w : W)
    : Type 0 where
  pub shape : Shape s.phase s.active_frame
  pub only : (j : ℕ) → selected j w ≡ true → s.active_frame ≡ some j

module _ {W : Type 0} (frames : Frame W) (sel : ℕ → W → Bool) (h : IsFrame frames sel) where
  abbrev Keeps : Result frames → Type 0
  Keeps r = IsExclusive sel r.1 r.2

  -- A reset that succeeds leaves no active frame and no selection.
  abbrev Cleared : Result frames → Type 0
  Cleared r = is_ok r.0 ≡ true → r.1.active_frame ≡ none

  -- A property of the results of both branches.
  branches :
      (P : Result frames → Type 0) (b : Bool) (x y : Result frames)
      → (b ≡ true → P x)
      → (b ≡ false → P y)
      → P (if b then x else y)
  branches P true x y p q = p refl
  branches P false x y p q = q refl

  phase_after-Shape : (t : SelectionEventType) (f : ℕ) → Shape (phase_after frames t) (some f)
  phase_after-Shape select_and_extend f = (f, refl)
  phase_after-Shape _ f = (f, refl)

  decide : (j f : ℕ) → (j ≡ f) ⊎ (j ≢ f)
  decide j f = elim (Bool-cases (j == f)) [
    | inl q ↦ inl (ground (arith, q))
    | inr q ↦ inr (λ i. ground (arith, i, q))
  ]

  active_after :
      (f j : ℕ) (o : Option ℕ) → (o ≡ none) ⊎ (o ≡ some f) → (j ≢ f → o ≡ some j) → some f ≡ some j
  active_after f j o c n = elim (decide j f) [
    | inl q ↦ ap some (sym q)
    | inr q ↦ absurd (q (ground (arith, c, n q)))
  ]

  rejected-Keeps :
      (s : SelectionStateMachine) (w : W) (f : ℕ) (e : SelectionEvent) (st : Status)
      → IsExclusive sel s w
      → is_ok (frames.update_selection f e w).0 ≡ false
      → Keeps (st, s, (frames.update_selection f e w).1)
  rejected-Keeps s w f e st v r = record {
    shape = v.shape;
    only = λ j t. v.only j (sym (h.rejected f j e w r) ∙ t);
  }

  -- The callback of a frame, when no other frame is active.
  update-Keeps :
      (id : Bytes) (f : ℕ) (e : SelectionEvent) (s : SelectionStateMachine) (w : W)
      → (s.active_frame ≡ none) ⊎ (s.active_frame ≡ some f)
      → IsExclusive sel s w
      → Keeps (update frames id f e s w)
  unfolding update
  update-Keeps id f e s w c v =
      branches Keeps _ _ _
        (λ a. record {
          shape = phase_after-Shape e.event_type f;
          only = λ j t.
              active_after f j s.active_frame c (λ n. v.only j (sym (h.elsewhere f j e w n) ∙ t));
        })
        (λ r. rejected-Keeps s w f e (frames.update_selection f e w).0 v r)

  reset_active-Keeps :
      (o : Option ℕ) (s : SelectionStateMachine) (w : W) (f : ℕ)
      → o ≡ some f
      → s.active_frame ≡ o
      → IsExclusive sel s w
      → Keeps (reset_active frames o s w) × Cleared (reset_active frames o s w)
  reset_active-Keeps none s w f e i v = absurd cc
  reset_active-Keeps (some a) s w f e i v =
      branches (λ (r : Result frames). Keeps r × Cleared r) _ _ _
        (λ k. (record { shape = refl; only = λ j t. absurd (none_selected j k t) }, λ _. refl))
        (λ r. (
          rejected-Keeps s w a reset_event (frames.update_selection a reset_event w).0 v r,
          λ k. absurd cc,
        ))
    where
      none_selected :
          (j : ℕ)
          → is_ok (frames.update_selection a reset_event w).0 ≡ true
          → sel j (frames.update_selection a reset_event w).1 ≡ true
          → ⊥
      none_selected j k t = elim (decide j a) [
        | inl q ↦ ground (
          arith,
          h.cleared a reset_event w refl k,
          ap (λ (n : ℕ). sel n (frames.update_selection a reset_event w).1) q,
          t,
        )
        | inr n ↦ n (
            ground (
              arith,
              active_after a j (some a) (inr refl)
                  (λ _. sym i ∙ v.only j (sym (h.elsewhere a j reset_event w n) ∙ t)),
            ))
      ]

  reset-Keeps :
      (s : SelectionStateMachine) (w : W)
      → IsExclusive sel s w
      → Keeps (reset frames s w) × Cleared (reset frames s w)
  unfolding reset_in
  reset-Keeps s w v = go s.phase refl v.shape
    where
      go :
          (p : SelectionPhase)
          → s.phase ≡ p
          → Shape p s.active_frame
          → Keeps (reset_in frames p s w) × Cleared (reset_in frames p s w)
      go no_phase e q = (
        record {
          shape = subst (λ (p : SelectionPhase). Shape p none) (sym e) refl;
          only = λ j t. sym q ∙ v.only j t;
        },
        λ _. refl,
      )
      go in_progress e q = reset_active-Keeps s.active_frame s w q.0 q.1 refl v
      go complete e q = reset_active-Keeps s.active_frame s w q.0 q.1 refl v

  update_target-Keeps :
      (id : Bytes) (f : ℕ) (e : SelectionEvent) (s : SelectionStateMachine) (w : W)
      → IsExclusive sel s w
      → Keeps (update_target frames id f e s w)
  update_target-Keeps id f e s w v =
      branches Keeps _ _ _ (λ a. update-Keeps id f e s w (inr (target s.active_frame a)) v)
        (λ _. record { shape = v.shape; only = v.only })
    where
      target :
          (o : Option ℕ)
          → elim o as (λ x. Bool) [
            | none ↦ false
            | some a ↦ a == f && bytes_eq s.active_frame_id id
          ]
            ≡ true
          → o ≡ some f
      target none a = cc
      target (some x) a = ground (arith, a)

  reset_then_update-Keeps :
      (id : Bytes) (f : ℕ) (e : SelectionEvent) (s : SelectionStateMachine) (w : W)
      → IsExclusive sel s w
      → Keeps (reset_then_update frames id f e s w)
  reset_then_update-Keeps id f e s w v =
      let r = reset-Keeps s w v in
      branches Keeps _ _ _
        (λ a. update-Keeps id f e (reset frames s w).1 (reset frames s w).2 (inl (r.1 a)) r.0)
        (λ _. r.0)

  dispatch-Keeps :
      (t : SelectionEventType) (p : SelectionPhase) (id : Bytes) (f : ℕ) (e : SelectionEvent)
      → (s : SelectionStateMachine) (w : W) → Shape p s.active_frame
      → IsExclusive sel s w
      → Keeps (dispatch frames t p id f e s w)
  unfolding dispatch
  dispatch-Keeps reset_selection p id f e s w q v = (reset-Keeps s w v).0
  dispatch-Keeps select_and_extend no_phase id f e s w q v = update-Keeps id f e s w (inl q) v
  dispatch-Keeps select_and_extend in_progress id f e s w q v = update_target-Keeps id f e s w v
  dispatch-Keeps select_and_extend complete id f e s w q v = reset_then_update-Keeps id f e s w v
  dispatch-Keeps end_select_and_extend in_progress id f e s w q v = update_target-Keeps id f e s w v
  dispatch-Keeps end_select_and_extend no_phase id f e s w q v = v
  dispatch-Keeps end_select_and_extend complete id f e s w q v = v
  dispatch-Keeps select_word no_phase id f e s w q v = update-Keeps id f e s w (inl q) v
  dispatch-Keeps select_line no_phase id f e s w q v = update-Keeps id f e s w (inl q) v
  dispatch-Keeps select_all no_phase id f e s w q v = update-Keeps id f e s w (inl q) v
  dispatch-Keeps select_word in_progress id f e s w q v = reset_then_update-Keeps id f e s w v
  dispatch-Keeps select_line in_progress id f e s w q v = reset_then_update-Keeps id f e s w v
  dispatch-Keeps select_all in_progress id f e s w q v = reset_then_update-Keeps id f e s w v
  dispatch-Keeps select_word complete id f e s w q v = reset_then_update-Keeps id f e s w v
  dispatch-Keeps select_line complete id f e s w q v = reset_then_update-Keeps id f e s w v
  dispatch-Keeps select_all complete id f e s w q v = reset_then_update-Keeps id f e s w v

  select-Keeps :
      (id : Bytes) (f : ℕ) (e : SelectionEvent) (s : SelectionStateMachine) (w : W)
      → IsExclusive sel s w
      → Keeps (select frames id f e s w)
  unfolding select
  select-Keeps id f e s w v =
      let d = dispatch frames e.event_type s.phase id f e s w in
      branches Keeps (is_empty id) (invalid_argument, s, w)
        (if frames.is_selectable f w then d else (frame_not_selectable, s, w)) (λ _. v)
        (λ _.
          branches Keeps (frames.is_selectable f w) d (frame_not_selectable, s, w)
            (λ _. dispatch-Keeps e.event_type s.phase id f e s w v.shape v) (λ _. v))

  apply-Keeps :
      (id : Bytes) (o : Option ℕ) (e : SelectionEvent) (s : SelectionStateMachine) (w : W)
      → IsExclusive sel s w
      → Keeps (apply frames id o e s w)
  unfolding apply
  apply-Keeps id none e s w v =
      branches Keeps (is_reset frames e.event_type) (reset frames s w) (invalid_argument, s, w)
        (λ _. (reset-Keeps s w v).0) (λ _. v)
  apply-Keeps id (some f) e s w v =
      branches Keeps (is_reset frames e.event_type) (reset frames s w) (select frames id f e s w)
        (λ _. (reset-Keeps s w v).0) (λ _. select-Keeps id f e s w v)

  -- A history of applications, each of an event to a target.
  unfoldable pub run : List Step → SelectionStateMachine → W → SelectionStateMachine × W
  run [] s w = (s, w)
  run (step ∷ steps) s w =
      let r = apply frames step.id step.target step.event s w in run steps r.1 r.2

  run-Keeps :
      (steps : List Step) (s : SelectionStateMachine) (w : W)
      → IsExclusive sel s w
      → IsExclusive sel (run steps s w).0 (run steps s w).1
  unfolding run
  run-Keeps [] s w v = v
  run-Keeps (step ∷ steps) s w v =
      let r = apply frames step.id step.target step.event s w in
      run-Keeps steps r.1 r.2 (apply-Keeps step.id step.target step.event s w v)

  -- For frames that keep to their contract, of which none shows a selection at first, every history
  -- of events leaves a machine whose active frame belongs to its phase, and no other frame shows a
  -- selection, whatever the callbacks answer.
  pub run-IsExclusive :
      (steps : List Step) (w : W)
      → ((j : ℕ) → sel j w ≡ false)
      → IsExclusive sel (run steps idle w).0 (run steps idle w).1
  run-IsExclusive steps w n =
      run-Keeps steps idle w (record { shape = refl; only = λ j t. ground (arith, n j, t) })
