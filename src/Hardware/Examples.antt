-- ===== src/Hardware/Examples.antt =====
-- Concrete runs of the databus, the loops, a controller and the reconciler, and the theorems there.
use animacharacter_dev_src.Prelude.{
  ℕ, ◌<◌, ◌≡◌, refl, ◌↔◌, Bool, true, false, ◌++◌, String, String-discrete, string_key, nat_key,
  pos, none, some, List, [], ◌∷◌,
}
use animacharacter_dev_src.Prelude.Dict.{get}
use animacharacter_dev_src.Prelude.Ticks.{Ticks, finite}
use animacharacter_dev_src.Hardware.Databus.{
  Topic, Databus, DataReader, BusInput, make_writer, make_reader, write_to, finish, failed,
  databus_topology_error, has_update, read, run_bus, create_writer, empty_bus,
}
use animacharacter_dev_src.Hardware.Databus.Runs.{
  write_all, last_write, count_writes, read_sees_writes, IsWired, run_bus-IsWired,
  second_writer_overwrites,
}
use animacharacter_dev_src.Hardware.Looper.{
  LoopDescriptor, returned, crashed, at_wait, in_job, is_running, stop_and_join, after_job,
  LoopSupervisor,
}
use animacharacter_dev_src.Hardware.Looper.Stops.{stop_and_join-stops}
use animacharacter_dev_src.Hardware.Controller.{
  Controller, scalar, object, no_fields, field, Work, fails, flush, dispatch_all,
  flush-keeps_together,
}
use animacharacter_dev_src.Hardware.Reconciler.{
  ControllerState, uninitialized, running, controller_error, answers, Circumstances,
  ManagedController, actual_state, reconcile_one, reconcile, has_discrepancy,
}
use animacharacter_dev_src.Hardware.Reconciler.Goals.{Cooperative, reconcile_one-reaches}
use animacharacter_dev_src.Hardware.Reconciler.Passes.{reconcile-reaches, stop_timeout_runs}

-- A bus with one topic, of numbers, that has a writer.
abbrev pose_topic : Topic ℕ ℕ
pose_topic = record { state = (some 4, 1); msg_type = 0 }

abbrev pose_bus : Databus ℕ ℕ
pose_bus = record {
  topics = ("pose", pose_topic) ∷ [];
  writer_topics = "pose" ∷ [];
  finalized = false;
}

abbrev pose_reader : DataReader
pose_reader = record { source_topic = "pose"; last_seq = 0 }

abbrev two_writes : List (String × ℕ)
two_writes = ("pose", 5) ∷ ("torque", 9) ∷ []

read_sees_writes_example :
    ((has_update (read pose_reader pose_bus).0 (write_all two_writes pose_bus) ≡ true)
      ↔ (0 < count_writes "pose" two_writes))
    × ((read (read pose_reader pose_bus).0 (write_all two_writes pose_bus)).1
        ≡ last_write "pose" two_writes (read pose_reader pose_bus).1)
unfolding get String-discrete
read_sees_writes_example = read_sees_writes pose_reader pose_bus pose_topic two_writes refl

empty_bus-IsWired : IsWired (empty_bus {T = ℕ} {V = ℕ})
empty_bus-IsWired = record { single = tt; complete = λ h. refl }

abbrev requests : List (BusInput ℕ ℕ)
requests =
    make_writer "pose" 0 4
    ∷ make_writer "pose" 0 5
    ∷ make_reader "pose" 0
    ∷ finish
    ∷ write_to "pose" 6
    ∷ []

run_bus-IsWired_example : IsWired (run_bus (λ t v. true) requests empty_bus)
run_bus-IsWired_example = run_bus-IsWired (λ t v. true) requests empty_bus empty_bus-IsWired

second_writer_overwrites_example :
    (bus' : Databus ℕ ℕ) × (create_writer (λ t v. true) "pose" 0 9 pose_bus
      ≡ failed bus' databus_topology_error)
    × (get bus'.topics "pose" ≡ some (record { state = (some 9, 2); msg_type = 0 }))
unfolding get String-discrete
second_writer_overwrites_example =
    second_writer_overwrites (λ t v. true) pose_bus "pose" pose_topic 9 refl refl refl refl

-- A loop whose thread is blocked, as it was paused.
abbrev paused_loop : LoopDescriptor Ticks
paused_loop = record {
  name = "arm";
  id = 1;
  run = true;
  wait = false;
  freq = finite 50;
  thread = some at_wait;
  has_exception_cb = true;
  has_signal_handler = true;
  signals = [];
  exceptions = 0;
  jobs_run = 3;
}

stop_and_join-stops_example :
    ((stop_and_join (crashed ∷ returned none ∷ []) paused_loop).1 ≡ true)
    × (is_running (stop_and_join (crashed ∷ returned none ∷ []) paused_loop).0 ≡ false)
stop_and_join-stops_example = stop_and_join-stops crashed (returned none) [] paused_loop

abbrev one_loop : LoopSupervisor Ticks
one_loop = record { loop_pool = (1, paused_loop) ∷ []; id_counter = 1 }

abbrev arm : Controller String ℕ
arm = record {
  initialized = true;
  config_handlers = ("motor" ∷ [], "set_motor") ∷ [];
  cfg_updates_queue = object (field "motor" (scalar "5") no_fields) ∷ [];
  calls = [];
  controls = [];
}

abbrev going_loop : LoopDescriptor Ticks
going_loop = record paused_loop { wait = true; thread = some in_job }

abbrev stall : Work
stall = fails (controller_error (pos 7) "stall")

flush-keeps_together_example :
    (is_running (after_job (returned (flush stall (1 ∷ 2 ∷ []) arm).2) going_loop)
      ≡ (flush stall (1 ∷ 2 ∷ []) arm).0.initialized)
    × ((flush stall (1 ∷ 2 ∷ []) arm).1 ≡ [])
    × ((flush stall (1 ∷ 2 ∷ []) arm).0.cfg_updates_queue ≡ [])
    × ((flush stall (1 ∷ 2 ∷ []) arm).0.calls
        ≡ arm.calls ++ dispatch_all arm.cfg_updates_queue arm.config_handlers)
flush-keeps_together_example = flush-keeps_together stall (1 ∷ 2 ∷ []) arm going_loop refl refl

abbrev good_day : Circumstances
good_day = record {
  initialize_hw = answers true;
  deinitialize_hw = answers true;
  thread_starts = true;
  steps_in_join = crashed ∷ crashed ∷ [];
}

good_day-Cooperative : Cooperative good_day
good_day-Cooperative = record {
  initializes = refl;
  deinitializes = refl;
  starts = refl;
  first = crashed;
  second = crashed;
  others = [];
  joins = refl;
}

abbrev managed : Bool → ControllerState → ManagedController Ticks
managed up goal = record { name = "arm"; loop = paused_loop; hw_initialized = up; goal = goal }

reconcile_one-reaches_example :
    (actual_state (reconcile_one good_day (managed false running)).0 ≡ running)
    × ((reconcile_one good_day (managed false running)).1 ≡ [])
reconcile_one-reaches_example =
    reconcile_one-reaches good_day (managed false running) good_day-Cooperative

abbrev crew : List (Circumstances × ManagedController Ticks)
crew = (good_day, managed false running) ∷ (good_day, managed true uninitialized) ∷ []

reconcile-reaches_example : (has_discrepancy (reconcile crew).0 ≡ false) × ((reconcile crew).1 ≡ [])
reconcile-reaches_example =
    reconcile-reaches crew (good_day-Cooperative, (good_day-Cooperative, tt))

abbrev slow_day : Circumstances
slow_day = record good_day { steps_in_join = [] }

stop_timeout_runs_example :
    (actual_state (reconcile_one slow_day (managed true uninitialized)).0 ≡ running)
    × ((reconcile_one slow_day (managed true uninitialized)).1 ≡ [])
unfolding actual_state is_running
stop_timeout_runs_example = stop_timeout_runs slow_day (managed true uninitialized) refl refl refl
