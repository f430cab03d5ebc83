-- ===== src/Behaviors/Examples.antt =====
-- A concrete registry and a concrete executor of behaviours, and the theorems about them there.
use animacharacter_dev_src.Prelude.{ℕ, zero, suc, refl, string_key, List, [], ◌∷◌}
use animacharacter_dev_src.Prelude.Dict.{get}
use animacharacter_dev_src.Behaviors.Registry.{is_in, empty_registry}
use animacharacter_dev_src.Behaviors.Registry.Index.{
  RegistryInput, registering, borrowing, IsIndexed, ask_all, ask_all-IsIndexed,
}
use animacharacter_dev_src.Prelude.{◌≡◌, ◌++◌, arith, Option, none, some, pos, negsuc}
use animacharacter_dev_src.Prelude.Ticks.{Ticks, finite, ticks_float}
use animacharacter_dev_src.Behaviors.Executor.{BehaviorAction, sleep, Generators, BehaviorExecutor}
use animacharacter_dev_src.Behaviors.Executor.Order.{IsOrdered}
use animacharacter_dev_src.Behaviors.Executor.Runs.{
  ExecutorCall, adds, removes, ticks, executor_calls, executor_calls-IsOrdered,
}
use animacharacter_dev_src.Behaviors.Context.{BehaviorContext, subscribers_of, messages_of}
use animacharacter_dev_src.Behaviors.Context.Delivery.{
  IsSubscribed, ContextCall, publishes, makes_subscriber, pulls, context_calls, pulled, published,
  context_calls_deliver,
}

abbrev calls : List (RegistryInput ℕ ℕ)
calls =
    registering "blink" 1 ("eyes" ∷ "idle" ∷ []) 0
    ∷ registering "breathe" 2 ("idle" ∷ []) 0
    ∷ registering "blink" 3 [] 0
    ∷ borrowing "blink"
    ∷ []

empty_registry-IsIndexed : IsIndexed (empty_registry {B = ℕ} {M = ℕ})
unfolding is_in get
empty_registry-IsIndexed n g = refl

ask_all-IsIndexed_example : IsIndexed (ask_all calls (empty_registry {B = ℕ} {M = ℕ}))
ask_all-IsIndexed_example = ask_all-IsIndexed calls empty_registry empty_registry-IsIndexed

abbrev count_down : ℕ → Option (ℕ × Option (BehaviorAction Ticks))
count_down zero = none
count_down (suc n) = some (n, some (sleep (finite 1)))

-- A generator that counts down, publishing each number in the context, and sleeps for one tick.
abbrev counters : Generators ℕ ℕ (List ℕ) Ticks
counters = record { launch = λ n ctx. (ctx, some n); next = λ n ctx. (n ∷ ctx, count_down n) }

abbrev empty_executor : BehaviorExecutor ℕ (List ℕ) Ticks
empty_executor = record { ctx = []; sync_time = finite 0; behaviors = []; count = 0 }

abbrev executor_run : List (ExecutorCall ℕ Ticks)
executor_run =
    adds 3 (pos 1)
    ∷ adds 1 (negsuc 0)
    ∷ adds 2 (pos 1)
    ∷ ticks (finite 4)
    ∷ removes 0
    ∷ ticks (finite 9)
    ∷ []

executor_calls-IsOrdered_example :
    IsOrdered (executor_calls counters executor_run empty_executor).behaviors
executor_calls-IsOrdered_example =
    executor_calls-IsOrdered counters executor_run empty_executor refl

-- one subscriber, which was made for the topic pose
abbrev pose_context : BehaviorContext ℕ
pose_context = record { publishers = ("pose", 0 ∷ []) ∷ []; messages = (0, 4 ∷ []) ∷ []; made = 1 }

pose_context-IsSubscribed : IsSubscribed "pose" 0 pose_context
unfolding subscribers_of get
pose_context-IsSubscribed = (omega arith, λ t. ground arith)

abbrev context_run : List (ContextCall ℕ)
context_run =
    publishes "pose" 5
    ∷ makes_subscriber "pose"
    ∷ pulls 0
    ∷ publishes "mood" 6
    ∷ publishes "pose" 7
    ∷ pulls 1
    ∷ []

context_calls_deliver_example :
    pulled 0 context_run pose_context
      ++ messages_of 0 (context_calls context_run pose_context).messages
    ≡ messages_of 0 pose_context.messages ++ published "pose" context_run
context_calls_deliver_example =
    context_calls_deliver "pose" 0 context_run pose_context pose_context-IsSubscribed
