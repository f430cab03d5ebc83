-- ===== src/Hardware/Reconciler/Passes.antt =====
-- Whole passes of hw_controller_state_reconciler.py, and a stop that takes too long.
use animacharacter_dev_src.Prelude.{
  ◌≡◌, refl, ◌∙◌, ap, inl, inr, Bool, true, false, equal, Option, none, some, List, [], ◌∷◌,
  Bool-cases, equal_sound, equal_refl,
}
use animacharacter_dev_src.Hardware.Looper.{
  loop_steps, request_loop_stop, LoopDescriptor, is_running, stop_and_join,
}
use animacharacter_dev_src.Hardware.Reconciler.Goals.{
  Cooperative, of_initialized, start_paused-goal, reconcile_one-reaches,
}
use animacharacter_dev_src.Hardware.Reconciler.{
  ControllerState, uninitialized, initialized, running, ControllerState-discrete,
  controller_state_key, ControllerException, HwCall, answers, raises, Circumstances,
  ManagedController, actual_state, init_wrapper, deinit_wrapper, then_start, deinitialized, resumed,
  step_to_initialized, step_to_running, step_to_uninitialized, step_to, reconcile_one, reconcile,
  has_discrepancy,
}

module _ {F : Type 0} where
  wrapped_goal :
      (call : HwCall) (mc : ManagedController F)
      → ((init_wrapper call mc).0.goal ≡ mc.goal) × ((deinit_wrapper call mc).0.goal ≡ mc.goal)
  unfolding init_wrapper deinit_wrapper
  wrapped_goal (answers true) mc = (refl, refl)
  wrapped_goal (answers false) mc = (refl, refl)
  wrapped_goal (raises e) mc = (refl, refl)

  deinitialized_goal :
      (call : HwCall) (mc : ManagedController F) → (deinitialized call mc).0.goal ≡ mc.goal
  deinitialized_goal call mc = elim (Bool-cases mc.hw_initialized) [
    | inl h ↦ rw h (wrapped_goal call (record mc { hw_initialized = true })).1
    | inr h ↦ rw h refl
  ]

  started_goal :
      (starts : Bool) (r : ManagedController F × Bool × Option ControllerException)
      → (then_start starts r).0.goal ≡ r.0.goal
  started_goal starts (mc, true, e) = (start_paused-goal starts mc).0
  started_goal starts (mc, false, e) = refl

  initialized_goal :
      (c : Circumstances) (s : ControllerState) (mc : ManagedController F)
      → (step_to_initialized c s mc).0.goal ≡ mc.goal
  unfolding step_to_initialized
  initialized_goal c uninitialized mc = elim (Bool-cases mc.hw_initialized) [
    | inl h ↦ rw h (start_paused-goal c.thread_starts _).0
    | inr h ↦ rw h (
        started_goal c.thread_starts
          (init_wrapper c.initialize_hw (record mc { hw_initialized = false }))
        ∙ (wrapped_goal c.initialize_hw (record mc { hw_initialized = false })).0)
  ]
  initialized_goal c initialized mc = refl
  initialized_goal c running mc = refl

  resumed_goal :
      (r : ManagedController F × Option ControllerException) → (resumed r).0.goal ≡ r.0.goal
  resumed_goal (mc, some e) = refl
  resumed_goal (mc, none) = elim (Bool-cases (equal (actual_state mc) initialized)) [
    | inl h ↦ rw h refl
    | inr h ↦ rw h refl
  ]

  step_goal :
      (goal : ControllerState) (c : Circumstances) (s : ControllerState) (mc : ManagedController F)
      → (step_to goal c s mc).0.goal ≡ mc.goal
  unfolding step_to_running step_to_uninitialized
  step_goal initialized c s mc = initialized_goal c s mc
  step_goal running c uninitialized mc =
      resumed_goal (step_to_initialized c uninitialized mc) ∙ initialized_goal c uninitialized mc
  step_goal running c initialized mc = refl
  step_goal running c running mc = refl
  step_goal uninitialized c s mc = elim (Bool-cases (is_running mc.loop)) [
    | inr h ↦ rw h (deinitialized_goal c.deinitialize_hw mc)
    | inl h ↦ elim (Bool-cases (stop_and_join c.steps_in_join mc.loop).1) [
      | inl k ↦
          rw (h, k)
            (deinitialized_goal c.deinitialize_hw
              (record mc { loop = (stop_and_join c.steps_in_join mc.loop).0 }))
      | inr k ↦ rw (h, k) refl
    ]
  ]

  goal_kept : (c : Circumstances) (mc : ManagedController F) → (reconcile_one c mc).0.goal ≡ mc.goal
  unfolding reconcile_one
  goal_kept c mc = elim (Bool-cases (equal (actual_state mc) mc.goal)) [
    | inl h ↦ rw h refl
    | inr h ↦ rw h (step_goal mc.goal c (actual_state mc) mc)
  ]

  -- Each controller with circumstances that let it reach its goal.
  abbrev pub AllCooperative : List (Circumstances × ManagedController F) → Type 0
  AllCooperative [] = Unit
  AllCooperative ((c, mc) ∷ mcs) = Cooperative c × AllCooperative mcs

  -- One pass over any controllers, in any states and with any goals, whose hardware obeys, whose threads
  -- start and whose joins last long enough, leaves no discrepancy and sends no signal.
  pub reconcile-reaches :
      (mcs : List (Circumstances × ManagedController F))
      → AllCooperative mcs
      → (has_discrepancy (reconcile mcs).0 ≡ false) × ((reconcile mcs).1 ≡ [])
  unfolding has_discrepancy reconcile ControllerState-discrete
  reconcile-reaches [] k = (refl, refl)
  reconcile-reaches ((c, mc) ∷ mcs) (k, ks) =
      let (a, e) = reconcile_one-reaches c mc k in
      let (d, es) = reconcile-reaches mcs ks in
      (rw (a, goal_kept c mc) (rw (equal_refl mc.goal, d) refl), rw (e, es) refl)

  running_told :
      (l : LoopDescriptor F) → is_running (record l { run = false; wait = true }) ≡ is_running l
  unfolding is_running
  running_told l = refl

  timed_out :
      (c : Circumstances) (mc : ManagedController F)
      → c.steps_in_join ≡ []
      → is_running mc.loop ≡ true
      → step_to_uninitialized c mc
        ≡ (record mc { loop = record mc.loop { run = false; wait = true } }, none)
  unfolding step_to_uninitialized stop_and_join loop_steps request_loop_stop
  timed_out c mc j r = rw (j, r, running_told mc.loop ∙ r) refl

  told_running :
      (mc : ManagedController F)
      → mc.hw_initialized ≡ true
      → is_running mc.loop ≡ true
      → actual_state (record mc { loop = record mc.loop { run = false; wait = true } }) ≡ running
  unfolding actual_state
  told_running mc h r = rw (h, running_told mc.loop ∙ r) refl

  -- A stop whose join ends before the thread has made a step, of a paused controller whose goal is to be
  -- uninitialized: no signal is sent, the hardware stays initialized, and the controller counts as RUNNING.
  pub stop_timeout_runs :
      (c : Circumstances) (mc : ManagedController F)
      → c.steps_in_join ≡ []
      → mc.goal ≡ uninitialized
      → actual_state mc ≡ initialized
      → (actual_state (reconcile_one c mc).0 ≡ running) × ((reconcile_one c mc).1 ≡ [])
  unfolding reconcile_one
  stop_timeout_runs c mc j g a =
      let (h, r, w) = of_initialized mc a in
      elim (Bool-cases (equal (actual_state mc) mc.goal)) [
        | inl q ↦ absurd (cc (g, a, equal_sound (actual_state mc) mc.goal q))
        | inr q ↦
            rw (q, ap (λ x. step_to x c (actual_state mc) mc) g ∙ timed_out c mc j r)
              (told_running mc h r, refl)
      ]
