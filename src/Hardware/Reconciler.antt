-- ===== src/Hardware/Reconciler.antt =====
-- hardware_mng/hw_controller_state_reconciler.py, with the wrappers of initialize_hw and deinitialize_hw
-- of abstract_hw_controller.py. A managed controller holds its loop; the supervisor's pool has the same
-- loop under its id, so that each call of the supervisor's by that id finds it.
pub mod Goals
pub mod Passes
use animacharacter_dev_src.Prelude.{
  ℕ, Bool, true, false, not, ◌&&◌, ◌||◌, String, ℤ, pos, Key, equal, nat_key, Option, none, some,
  List, [], ◌∷◌, ◌++◌, if◌then◌else◌,
}
use animacharacter_dev_src.Hardware.Looper.{
  Signal, JobOutcome, LoopDescriptor, is_running, start, set_loop_paused, stop_and_join,
}

pub data ControllerState : Type 0 where
  uninitialized initialized running : ControllerState

unfoldable pub ControllerState-discrete : Discrete ControllerState
ControllerState-discrete = hlevel

instance abbrev pub controller_state_key : Key ControllerState
unfolding ControllerState-discrete
controller_state_key = record { same = ControllerState-discrete }

-- ControllerWarning, ControllerError, ControllerFatal with code and description, and any other exception
pub data ControllerException : Type 0 where
  controller_warning controller_error controller_fatal : ℤ → String → ControllerException
  other_exception : String → ControllerException

-- A call of the controller's own initialize_hw or deinitialize_hw.
pub data HwCall : Type 0 where
  answers : Bool → HwCall
  raises : ControllerException → HwCall

-- What the hardware and the system do in one pass for one controller.
pub record Circumstances : Type 0 where
  pub initialize_hw : HwCall
  pub deinitialize_hw : HwCall
  pub thread_starts : Bool
  pub steps_in_join : List JobOutcome

pub record ManagedController (F : Type 0) : Type 0 where
  pub name : String
  pub loop : LoopDescriptor F
  pub hw_initialized : Bool
  pub goal : ControllerState

-- The signal that `reconcile` hands to its handler for an exception.
unfoldable pub signal_of_exception : ControllerException → Signal
signal_of_exception (controller_warning c d) = record {
  name = "controller_warning";
  code = c;
  note = d;
}
signal_of_exception (controller_error c d) = record {
  name = "controller_error";
  code = c;
  note = d;
}
signal_of_exception (controller_fatal c d) = record { name = "global_shutdown"; code = c; note = d }
signal_of_exception (other_exception d) = record {
  name = "global_shutdown";
  code = pos 100;
  note = d;
}

module _ {F : Type 0} where
  -- `_actual_state`
  unfoldable pub actual_state : ManagedController F → ControllerState
  actual_state mc =
      if mc.hw_initialized && (is_running mc.loop && mc.loop.wait)
      then running
      else if mc.hw_initialized && (is_running mc.loop && not mc.loop.wait)
      then initialized
      else uninitialized

  unfoldable pub set_goal :
      ℕ → ControllerState → List (ManagedController F) → List (ManagedController F)
  set_goal id goal [] = []
  set_goal id goal (mc ∷ mcs) =
      let rest = set_goal id goal mcs in
      if equal mc.loop.id id then record mc { goal = goal } ∷ mcs else mc ∷ rest

  unfoldable pub set_goal_all :
      ControllerState → List (ManagedController F) → List (ManagedController F)
  set_goal_all goal [] = []
  set_goal_all goal (mc ∷ mcs) = record mc { goal = goal } ∷ set_goal_all goal mcs

  -- init_wrapper and deinit_wrapper, with the exception that ends them if there is one
  unfoldable pub init_wrapper :
      HwCall → ManagedController F → ManagedController F × Bool × Option ControllerException
  init_wrapper (raises e) mc = (mc, false, some e)
  init_wrapper (answers false) mc = (mc, false, none)
  init_wrapper (answers true) mc = (record mc { hw_initialized = true }, true, none)

  unfoldable pub deinit_wrapper :
      HwCall → ManagedController F → ManagedController F × Bool × Option ControllerException
  deinit_wrapper (raises e) mc = (mc, false, some e)
  deinit_wrapper (answers false) mc = (mc, false, none)
  deinit_wrapper (answers true) mc = (record mc { hw_initialized = false }, true, none)

  -- the second part of `_step_to_initialized` from UNINITIALIZED
  unfoldable pub start_paused : Bool → ManagedController F → ManagedController F
  start_paused starts mc =
      if is_running mc.loop
      then record mc { loop = set_loop_paused true mc.loop }
      else record mc { loop = (start starts true mc.loop).0 }

  abbrev pub then_start :
      Bool
      → ManagedController F × Bool × Option ControllerException
      → ManagedController F × Option ControllerException
  then_start starts (mc, true, e) = (start_paused starts mc, none)
  then_start starts (mc, false, e) = (mc, e)

  unfoldable pub step_to_initialized :
      Circumstances
      → ControllerState
      → ManagedController F
      → ManagedController F × Option ControllerException
  step_to_initialized c uninitialized mc =
      if mc.hw_initialized
      then (start_paused c.thread_starts mc, none)
      else then_start c.thread_starts (init_wrapper c.initialize_hw mc)
  step_to_initialized c running mc = (record mc { loop = set_loop_paused true mc.loop }, none)
  step_to_initialized c initialized mc = (mc, none)

  -- the second part of `_step_to_running`
  abbrev pub resumed :
      ManagedController F × Option ControllerException
      → ManagedController F × Option ControllerException
  resumed (mc, some e) = (mc, some e)
  resumed (mc, none) =
      if equal (actual_state mc) initialized
      then (record mc { loop = set_loop_paused false mc.loop }, none)
      else (mc, none)

  unfoldable pub step_to_running :
      Circumstances
      → ControllerState
      → ManagedController F
      → ManagedController F × Option ControllerException
  step_to_running c uninitialized mc = resumed (step_to_initialized c uninitialized mc)
  step_to_running c initialized mc = (record mc { loop = set_loop_paused false mc.loop }, none)
  step_to_running c running mc = (mc, none)

  abbrev pub deinitialized :
      HwCall → ManagedController F → ManagedController F × Option ControllerException
  deinitialized call mc =
      if mc.hw_initialized
      then (let (mc', done, e) = deinit_wrapper call mc in (mc', e))
      else (mc, none)

  unfoldable pub step_to_uninitialized :
      Circumstances → ManagedController F → ManagedController F × Option ControllerException
  step_to_uninitialized c mc =
      if is_running mc.loop
      then (let (l, stopped) = stop_and_join c.steps_in_join mc.loop in
          let mc' = record mc { loop = l } in
          if stopped then deinitialized c.deinitialize_hw mc' else (mc', none))
      else deinitialized c.deinitialize_hw mc

  abbrev pub step_to :
      ControllerState
      → Circumstances
      → ControllerState
      → ManagedController F
      → ManagedController F × Option ControllerException
  step_to running c actual mc = step_to_running c actual mc
  step_to initialized c actual mc = step_to_initialized c actual mc
  step_to uninitialized c actual mc = step_to_uninitialized c mc

  -- one round of the loop in `reconcile`: the controller, and the signals handed to the handler
  unfoldable pub reconcile_one :
      Circumstances → ManagedController F → ManagedController F × List Signal
  reconcile_one c mc =
      if equal (actual_state mc) mc.goal
      then (mc, [])
      else (let (mc', e) = step_to mc.goal c (actual_state mc) mc in
          (mc', elim e [ none ↦ [] | some x ↦ signal_of_exception x ∷ [] ]))

  unfoldable pub reconcile :
      List (Circumstances × ManagedController F) → List (ManagedController F) × List Signal
  reconcile [] = ([], [])
  reconcile ((c, mc) ∷ mcs) =
      let (mc', ss) = reconcile_one c mc in
      let (mcs', ss') = reconcile mcs in (mc' ∷ mcs', ss ++ ss')

  -- `has_discrepancy` of get_status_json
  unfoldable pub has_discrepancy : List (ManagedController F) → Bool
  has_discrepancy [] = false
  has_discrepancy (mc ∷ mcs) = not (equal mc.goal (actual_state mc)) || has_discrepancy mcs
