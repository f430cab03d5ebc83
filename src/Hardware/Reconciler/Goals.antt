-- ===== src/Hardware/Reconciler/Goals.antt =====
-- Single controllers in hw_controller_state_reconciler.py, on their way to their goals.
use animacharacter_dev_src.Prelude.{
  ◌≡◌, refl, inl, inr, Bool, true, false, equal, Option, none, some, List, [], ◌∷◌, Bool-cases,
  equal_sound, arith,
}
use animacharacter_dev_src.Hardware.Looper.{
  JobOutcome, is_running, start, set_loop_paused, stop_and_join,
}
use animacharacter_dev_src.Hardware.Looper.Stops.{stop_and_join-stops}
use animacharacter_dev_src.Hardware.Reconciler.{
  ControllerState, uninitialized, initialized, running, ControllerState-discrete,
  controller_state_key, ControllerException, answers, Circumstances, ManagedController,
  actual_state, init_wrapper, deinit_wrapper, deinitialized, resumed, start_paused,
  step_to_initialized, step_to_running, step_to_uninitialized, step_to, reconcile_one,
}

-- The hardware obeys, threads start, and a join lasts at least two steps of the thread.
pub record Cooperative (c : Circumstances) : Type 0 where
  pub initializes : c.initialize_hw ≡ answers true
  pub deinitializes : c.deinitialize_hw ≡ answers true
  pub starts : c.thread_starts ≡ true
  pub first : JobOutcome
  pub second : JobOutcome
  pub others : List JobOutcome
  pub joins : c.steps_in_join ≡ first ∷ second ∷ others

module _ {F : Type 0} where
  start_paused-initialized :
      (mc : ManagedController F)
      → mc.hw_initialized ≡ true
      → actual_state (start_paused true mc) ≡ initialized
  unfolding actual_state start_paused set_loop_paused start is_running
  start_paused-initialized mc h = elim (Bool-cases (is_running mc.loop)) [
    | inl r ↦ ground (arith, h, r)
    | inr r ↦ ground (arith, h, r)
  ]

  pub start_paused-goal :
      (starts : Bool) (mc : ManagedController F)
      → ((start_paused starts mc).goal ≡ mc.goal)
        × ((start_paused starts mc).hw_initialized ≡ mc.hw_initialized)
  unfolding start_paused
  start_paused-goal starts mc = ground arith

  -- What a state tells about the flags.
  of_running :
      (mc : ManagedController F)
      → actual_state mc ≡ running
      → (mc.hw_initialized ≡ true) × (is_running mc.loop ≡ true) × (mc.loop.wait ≡ true)
  unfolding actual_state
  of_running mc h = ground (arith, h)

  pub of_initialized :
      (mc : ManagedController F)
      → actual_state mc ≡ initialized
      → (mc.hw_initialized ≡ true) × (is_running mc.loop ≡ true) × (mc.loop.wait ≡ false)
  unfolding actual_state
  of_initialized mc h = ground (arith, h)

  paused-initialized :
      (mc : ManagedController F)
      → actual_state mc ≡ running
      → actual_state (record mc { loop = set_loop_paused true mc.loop }) ≡ initialized
  unfolding actual_state set_loop_paused is_running
  paused-initialized mc h = ground (arith, of_running mc h)

  resumed-running :
      (mc : ManagedController F)
      → actual_state mc ≡ initialized
      → actual_state (record mc { loop = set_loop_paused false mc.loop }) ≡ running
  unfolding actual_state set_loop_paused is_running
  resumed-running mc h = ground (arith, of_initialized mc h)

  without_hw :
      (mc : ManagedController F) → mc.hw_initialized ≡ false → actual_state mc ≡ uninitialized
  unfolding actual_state
  without_hw mc h = rw h refl

  to_initialized :
      (c : Circumstances) (mc : ManagedController F)
      → Cooperative c
      → (s : ControllerState) → actual_state mc ≡ s
      → (actual_state (step_to_initialized c s mc).0 ≡ initialized)
        × ((step_to_initialized c s mc).1 ≡ none)
  unfolding step_to_initialized init_wrapper
  to_initialized c mc k uninitialized h = elim (Bool-cases mc.hw_initialized) [
    | inl i ↦ rw (i, k.starts) (start_paused-initialized _ refl, refl)
    | inr i ↦ rw (i, k.initializes, k.starts) (start_paused-initialized _ refl, refl)
  ]
  to_initialized c mc k initialized h = (h, refl)
  to_initialized c mc k running h = (paused-initialized mc h, refl)

  resumes :
      (r : ManagedController F × Option ControllerException)
      → r.1 ≡ none
      → actual_state r.0 ≡ initialized
      → (actual_state (resumed r).0 ≡ running) × ((resumed r).1 ≡ none)
  unfolding ControllerState-discrete
  resumes (mc, none) e a = rw a (resumed-running mc a, refl)
  resumes (mc, some x) e a = absurd (cc e)

  to_running :
      (c : Circumstances) (mc : ManagedController F)
      → Cooperative c
      → (s : ControllerState) → actual_state mc ≡ s
      → (actual_state (step_to_running c s mc).0 ≡ running) × ((step_to_running c s mc).1 ≡ none)
  unfolding step_to_running
  to_running c mc k uninitialized h =
      let (a, e) = to_initialized c mc k uninitialized h in
      resumes (step_to_initialized c uninitialized mc) e a
  to_running c mc k initialized h = (resumed-running mc h, refl)
  to_running c mc k running h = (h, refl)

  deinitialized-lem :
      (c : Circumstances) (mc : ManagedController F)
      → Cooperative c
      → (actual_state (deinitialized c.deinitialize_hw mc).0 ≡ uninitialized)
        × ((deinitialized c.deinitialize_hw mc).1 ≡ none)
  unfolding deinit_wrapper
  deinitialized-lem c mc k = elim (Bool-cases mc.hw_initialized) [
    | inl i ↦ rw (i, k.deinitializes) (without_hw _ refl, refl)
    | inr i ↦ rw i (without_hw _ refl, refl)
  ]

  to_uninitialized :
      (c : Circumstances) (mc : ManagedController F)
      → Cooperative c
      → (actual_state (step_to_uninitialized c mc).0 ≡ uninitialized)
        × ((step_to_uninitialized c mc).1 ≡ none)
  unfolding step_to_uninitialized
  to_uninitialized c mc k = elim (Bool-cases (is_running mc.loop)) [
    | inl r ↦
        rw (r, k.joins, (stop_and_join-stops k.first k.second k.others mc.loop).0)
          (deinitialized-lem c
            (record mc { loop = (stop_and_join (k.first ∷ k.second ∷ k.others) mc.loop).0 }) k)
    | inr r ↦ rw r (deinitialized-lem c mc k)
  ]

  steps_to :
      (c : Circumstances) (mc : ManagedController F)
      → Cooperative c
      → (goal : ControllerState)
      → (actual_state (step_to goal c (actual_state mc) mc).0 ≡ goal)
        × ((step_to goal c (actual_state mc) mc).1 ≡ none)
  steps_to c mc k uninitialized = to_uninitialized c mc k
  steps_to c mc k initialized = to_initialized c mc k (actual_state mc) refl
  steps_to c mc k running = to_running c mc k (actual_state mc) refl

  -- One pass for a controller whose hardware obeys, whose thread starts and whose joins last long enough:
  -- from whatever state and for whatever goal, it is in its goal's state afterwards, and no signal is sent.
  pub reconcile_one-reaches :
      (c : Circumstances) (mc : ManagedController F)
      → Cooperative c
      → (actual_state (reconcile_one c mc).0 ≡ mc.goal) × ((reconcile_one c mc).1 ≡ [])
  unfolding reconcile_one
  reconcile_one-reaches c mc k =
      let (a, e) = steps_to c mc k mc.goal in
      elim (Bool-cases (equal (actual_state mc) mc.goal)) [
        | inl h ↦ rw h (equal_sound (actual_state mc) mc.goal h, refl)
        | inr h ↦ rw (h, e) (a, refl)
      ]
