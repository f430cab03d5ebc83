-- ===== src/Hardware/Looper.antt =====
-- hardware_mng/looper/looper_util.py: loops that run a job in a thread of their own. The thread moves
-- from one point of `_loop` to the next in steps; what the job does in a step is the step's argument.
-- A signal's keyword arguments are those that the hardware manager passes.
pub mod Stops
use animacharacter_dev_src.Prelude.{
  ℕ, zero, suc, ◌+◌, ◌-◌, Bool, true, false, not, ◌&&◌, ◌||◌, String, ℤ, nat_key, Float, Option,
  none, some, List, [], ◌∷◌, ◌++◌, length, Result, ok, raised, Exc, value_error, if◌then◌else◌,
}
use animacharacter_dev_src.Prelude.Dict.{Dict, get, put, values}

pub record Signal : Type 0 where
  pub name : String
  pub code : ℤ
  pub note : String

pub data LoopAction : Type 0 where
  pause stop continue : LoopAction

pub record LoopRequest : Type 0 where
  pub action : LoopAction
  pub signal : Option Signal

-- What the job of one iteration does: it returns, perhaps a request, or it raises.
pub data JobOutcome : Type 0 where
  returned : Option LoopRequest → JobOutcome
  crashed : JobOutcome

-- Where a thread stands in `_loop`: at the test of the `while`, at the wait for `_wait`, in the job, or
-- past its end.
pub data Point : Type 0 where
  at_test at_wait in_job gone : Point

-- `thread` is None before the first start; `signals`, `exceptions` and `jobs_run` count up the calls of
-- the two callbacks and of the job.
pub record LoopDescriptor (F : Type 0) : Type 0 where
  pub name : String
  pub id : ℕ
  pub run : Bool
  pub wait : Bool
  pub freq : F
  pub thread : Option Point
  pub has_exception_cb : Bool
  pub has_signal_handler : Bool
  pub signals : List Signal
  pub exceptions : ℕ
  pub jobs_run : ℕ

pub record LoopSupervisor (F : Type 0) : Type 0 where
  pub loop_pool : Dict ℕ (LoopDescriptor F)
  pub id_counter : ℕ

abbrev is_alive : Option Point → Bool
is_alive none = false
is_alive (some gone) = false
is_alive (some _) = true

module _ {F : Type 0} where
  -- LoopDescriptor.is_running
  unfoldable pub is_running : LoopDescriptor F → Bool
  is_running l = is_alive l.thread

  abbrev pub obey : LoopAction → LoopDescriptor F → LoopDescriptor F
  obey pause l = record l { wait = false }
  obey stop l = record l { run = false; wait = true }
  obey continue l = l

  abbrev pub emit : Option Signal → LoopDescriptor F → LoopDescriptor F
  emit none l = l
  emit (some s) l = if l.has_signal_handler then record l { signals = l.signals ++ s ∷ [] } else l

  abbrev move_to : Point → LoopDescriptor F → LoopDescriptor F
  move_to p l = record l { thread = some p }

  -- the tests for `stop` and of `_run` after the job
  abbrev pub end_iteration : LoopDescriptor F → LoopDescriptor F
  end_iteration l = if l.run then move_to at_test l else move_to gone l

  abbrev pub caught : LoopDescriptor F → LoopDescriptor F
  caught l = if l.has_exception_cb then record l { exceptions = suc l.exceptions } else l

  -- An iteration from the job's end on; a stop clears `_run`, so that its own return is that of the test.
  unfoldable pub after_job : JobOutcome → LoopDescriptor F → LoopDescriptor F
  after_job (returned none) l = end_iteration l
  after_job (returned (some request)) l =
      end_iteration (emit request.signal (obey request.action l))
  after_job crashed l = end_iteration (caught l)

  abbrev pub step_at : Option Point → JobOutcome → LoopDescriptor F → LoopDescriptor F
  step_at none o l = l
  step_at (some gone) o l = l
  step_at (some at_test) o l = if l.run then move_to at_wait l else move_to gone l
  step_at (some at_wait) o l =
      if l.wait then record l { thread = some in_job; jobs_run = suc l.jobs_run } else l
  step_at (some in_job) o l = after_job o l

  -- One step of a loop's thread; it stays where it is while it is blocked, and when it is gone.
  unfoldable pub loop_step : JobOutcome → LoopDescriptor F → LoopDescriptor F
  loop_step o l = step_at l.thread o l

  unfoldable pub loop_steps : List JobOutcome → LoopDescriptor F → LoopDescriptor F
  loop_steps [] l = l
  loop_steps (o ∷ os) l = loop_steps os (loop_step o l)

  -- `_start_loop`; `starts` tells whether the system starts the thread
  unfoldable pub start : Bool → Bool → LoopDescriptor F → LoopDescriptor F × Bool
  start starts paused l = if is_running l then (l, false) else (
    record l { thread = some (if starts then at_test else gone); run = true; wait = not paused },
    starts,
  )

  unfoldable pub request_loop_stop : LoopDescriptor F → LoopDescriptor F
  request_loop_stop l = if is_running l then record l { run = false; wait = true } else l

  unfoldable pub set_loop_paused : Bool → LoopDescriptor F → LoopDescriptor F
  set_loop_paused paused l = record l { wait = not paused }

  -- stop_loop on a loop of the pool; the thread makes the steps `joined` while it is joined
  unfoldable pub stop_and_join : List JobOutcome → LoopDescriptor F → LoopDescriptor F × Bool
  stop_and_join joined l =
      let l' = loop_steps joined (request_loop_stop l) in (l', not (is_running l'))

  abbrev pub empty_pool : LoopSupervisor F
  empty_pool = record { loop_pool = []; id_counter = 0 }

  abbrev on_loop :
      (LoopDescriptor F → LoopDescriptor F × Bool) → ℕ → LoopSupervisor F → LoopSupervisor F × Bool
  on_loop f id s = elim (get s.loop_pool id) [
    | none ↦ (s, false)
    | some l ↦ (record s { loop_pool = put s.loop_pool id (f l).0 }, (f l).1)
  ]

  unfoldable pub is_paused : ℕ → LoopSupervisor F → Bool
  is_paused id s = elim (get s.loop_pool id) [ none ↦ false | some l ↦ not l.wait ]

  unfoldable pub start_loop : Bool → Bool → ℕ → LoopSupervisor F → LoopSupervisor F × Bool
  start_loop starts paused id s = on_loop (start starts paused) id s

  unfoldable pub stop_loop : List JobOutcome → ℕ → LoopSupervisor F → LoopSupervisor F × Bool
  stop_loop joined id s = on_loop (stop_and_join joined) id s

  unfoldable pub pause_loop : ℕ → LoopSupervisor F → LoopSupervisor F × Bool
  pause_loop id s = on_loop (λ l. (set_loop_paused true l, true)) id s

  unfoldable pub resume_loop : ℕ → LoopSupervisor F → LoopSupervisor F × Bool
  resume_loop id s = on_loop (λ l. (set_loop_paused false l, true)) id s

  abbrev on_all :
      (LoopDescriptor F → LoopDescriptor F) → Dict ℕ (LoopDescriptor F) → Dict ℕ (LoopDescriptor F)
  on_all f [] = []
  on_all f ((id, l) ∷ d) = (id, f l) ∷ on_all f d

  unfoldable pub pause_all : LoopSupervisor F → LoopSupervisor F
  pause_all s = record s { loop_pool = on_all (set_loop_paused true) s.loop_pool }

  unfoldable pub resume_all : LoopSupervisor F → LoopSupervisor F
  resume_all s = record s { loop_pool = on_all (set_loop_paused false) s.loop_pool }

  -- stop_all up to its joins
  unfoldable pub stop_all : LoopSupervisor F → LoopSupervisor F
  stop_all s = record s { loop_pool = on_all request_loop_stop s.loop_pool }

  unfoldable pub start_all : Bool → Bool → LoopSupervisor F → LoopSupervisor F
  start_all starts paused s = record s {
    loop_pool = on_all (λ l. (start starts paused l).0) s.loop_pool;
  }

  abbrev all_alive : List (LoopDescriptor F) → Bool
  all_alive [] = true
  all_alive (l ∷ ls) = is_running l && all_alive ls

  abbrev any_alive : List (LoopDescriptor F) → Bool
  any_alive [] = false
  any_alive (l ∷ ls) = is_running l || any_alive ls

  abbrev is_empty : List (LoopDescriptor F) → Bool
  is_empty [] = true
  is_empty _ = false

  unfoldable pub all_running : LoopSupervisor F → Bool
  all_running s = not (is_empty (values s.loop_pool)) && all_alive (values s.loop_pool)

  unfoldable pub all_stopped : LoopSupervisor F → Bool
  all_stopped s = not (is_empty (values s.loop_pool)) && not (any_alive (values s.loop_pool))

  unfoldable pub count_loops : (LoopDescriptor F → Bool) → List (LoopDescriptor F) → ℕ
  count_loops p [] = 0
  count_loops p (l ∷ ls) = let n = count_loops p ls in if p l then suc n else n

  -- total, running, paused and stopped of status_as_json
  unfoldable pub status : LoopSupervisor F → ℕ × ℕ × ℕ × ℕ
  status s =
      let loops = values s.loop_pool in
      let running = count_loops (λ l. is_running l && l.wait) loops in
      let paused = count_loops (λ l. is_running l && not l.wait) loops in
      (length loops, running, paused, length loops - running - paused)

module _ {F : Type 0} ⦃o : Float F⦄ where
  abbrev started_if : Bool → Bool → LoopDescriptor F → LoopDescriptor F
  started_if start_now starts l = if start_now then (start starts false l).0 else l

  -- add_loop; `handlers` are the presence of an exception and of a signal handler
  unfoldable pub add_loop :
      Bool → String → F → Bool → Bool × Bool → LoopSupervisor F → Result Exc (LoopSupervisor F × ℕ)
  add_loop starts name freq start_now handlers s =
      if o.le_f freq o.zero_f
      then raised value_error
      else ok (
        record {
          loop_pool = put s.loop_pool (suc s.id_counter) (
              started_if start_now starts (record {
                name = name;
                id = suc s.id_counter;
                run = false;
                wait = false;
                freq = freq;
                thread = none;
                has_exception_cb = handlers.0;
                has_signal_handler = handlers.1;
                signals = [];
                exceptions = 0;
                jobs_run = 0;
              }));
          id_counter = suc s.id_counter;
        },
        suc s.id_counter,
      )
