-- ===== src/Behaviors/Executor.antt =====
-- behavior_engine/actions.py, behavior.py and executor.py: BehaviorExecutor. The generator of a
-- behaviour is a state with the function `next`, which may change the context; a behaviour that
-- raises and one that calls the executor are not modelled. An instance is known by a number, the
-- order in which the executor made it.
pub mod Order
pub mod Runs
use animacharacter_dev_src.Prelude.{
  ℕ, ◌+◌, ℤ, ltb_ℤ, Bool, not, true, false, ◌||◌, Option, none, some, List, [], ◌∷◌, ◌++◌, Result,
  ok, raised, Exc, type_error, Float, equal, nat_key, if◌then◌else◌,
}

pub data BehaviorAction (F : Type 0) : Type 0 where
  stop : BehaviorAction F
  go_on : BehaviorAction F
  sleep : F → BehaviorAction F
  at_frequency : F → BehaviorAction F

-- `next` is next(gen): nothing where it raises StopIteration, or else the generator after it and
-- what it yields. `launch` is behavior_fn(ctx): nothing where the result is no iterator.
pub record Generators (B G C F : Type 0) : Type 0 where
  pub launch : B → C → C × Option G
  pub next : G → C → C × Option (G × Option (BehaviorAction F))

pub record BehaviorInstance (G F : Type 0) : Type 0 where
  pub made : ℕ
  pub gen : G
  pub priority : ℤ
  pub sleep_until : F
  pub is_done : Bool

pub record BehaviorExecutor (G C F : Type 0) : Type 0 where
  pub ctx : C
  pub sync_time : F
  pub behaviors : List (BehaviorInstance G F)
  pub count : ℕ

-- max(0, time) + arg
abbrev pub wake_time : {F : Type 0} ⦃f : Float F⦄ → F → F → F
wake_time ⦃f⦄ time arg = f.add_f (if f.lt_f f.zero_f time then time else f.zero_f) arg

module _ {G F : Type 0} where
  unfoldable pub handle_action :
      ⦃f : Float F⦄ → BehaviorAction F → F → BehaviorInstance G F → BehaviorInstance G F
  handle_action go_on time b = b
  handle_action stop time b = record b { is_done = true }
  handle_action (sleep arg) time b = record b { sleep_until = wake_time time arg }
  handle_action (at_frequency arg) time b = b

  -- BehaviorInstance(gen, priority)
  abbrev pub new_instance : ⦃f : Float F⦄ → ℕ → G → ℤ → BehaviorInstance G F
  new_instance ⦃f⦄ made gen priority = record {
    made = made;
    gen = gen;
    priority = priority;
    sleep_until = f.zero_f;
    is_done = false;
  }

  -- list.sort(key=lambda b: b.priority), which is stable
  unfoldable pub insert_by_priority :
      BehaviorInstance G F → List (BehaviorInstance G F) → List (BehaviorInstance G F)
  insert_by_priority b [] = b ∷ []
  insert_by_priority b (c ∷ cs) =
      let rest = insert_by_priority b cs in
      if ltb_ℤ b.priority c.priority then b ∷ c ∷ cs else c ∷ rest

  unfoldable pub sort_onto :
      List (BehaviorInstance G F) → List (BehaviorInstance G F) → List (BehaviorInstance G F)
  sort_onto sorted [] = sorted
  sort_onto sorted (b ∷ bs) = sort_onto (insert_by_priority b sorted) bs

  -- `remove` of the list, which takes out the instance if it is there
  unfoldable pub without : ℕ → List (BehaviorInstance G F) → List (BehaviorInstance G F)
  without made [] = []
  without made (b ∷ bs) = let rest = without made bs in if equal b.made made then bs else b ∷ rest

  -- An instance that acted stays unless it is done.
  unfoldable pub kept_after :
      ⦃f : Float F⦄
      → F
      → BehaviorInstance G F
      → Option (BehaviorAction F)
      → List (BehaviorInstance G F)
  kept_after time b none = b ∷ []
  kept_after time b (some action) =
      let acted = handle_action action time b in if acted.is_done then [] else acted ∷ []

module _ {B G C F : Type 0} (g : Generators B G C F) where
  -- the generator's part of `step`: StopIteration is the action stop
  unfoldable pub stepped :
      BehaviorInstance G F
      → C × Option (G × Option (BehaviorAction F))
      → C × BehaviorInstance G F × Option (BehaviorAction F)
  stepped b (ctx, none) = (ctx, b, some stop)
  stepped b (ctx, some (gen, action)) = (ctx, record b { gen = gen }, action)

  unfoldable pub step :
      ⦃f : Float F⦄
      → F
      → C
      → BehaviorInstance G F
      → C × BehaviorInstance G F × Option (BehaviorAction F)
  step ⦃f⦄ time ctx b =
      if b.is_done || f.lt_f time b.sleep_until
      then (ctx, b, none)
      else stepped b (g.next b.gen ctx)

  -- the loop of `tick`
  unfoldable pub tick_all :
      ⦃f : Float F⦄ → F → C → List (BehaviorInstance G F) → C × List (BehaviorInstance G F)
  tick_all time ctx [] = (ctx, [])
  tick_all time ctx (b ∷ bs) =
      let (ctx1, c, action) = step time ctx b in
      let (ctx2, rest) = tick_all time ctx1 bs in (ctx2, kept_after time c action ++ rest)

  unfoldable pub tick : ⦃f : Float F⦄ → F → BehaviorExecutor G C F → BehaviorExecutor G C F
  tick time_now e =
      let (ctx, behaviors) = tick_all time_now e.ctx e.behaviors in
      record e { ctx = ctx; sync_time = time_now; behaviors = behaviors }

  -- `add` from the call of the behaviour on
  unfoldable pub added :
      ⦃f : Float F⦄
      → ℤ
      → BehaviorExecutor G C F
      → C × Option G
      → BehaviorExecutor G C F × Result Exc ℕ
  added priority e (ctx, none) = (record e { ctx = ctx }, raised type_error)
  added ⦃f⦄ priority e (ctx, some gen) = (
    record e {
      ctx = ctx;
      behaviors = sort_onto [] (e.behaviors ++ new_instance e.count gen priority ∷ []);
      count = e.count + 1;
    },
    ok e.count,
  )

  unfoldable pub add :
      ⦃f : Float F⦄ → B → ℤ → BehaviorExecutor G C F → BehaviorExecutor G C F × Result Exc ℕ
  add behavior_fn priority e = added priority e (g.launch behavior_fn e.ctx)

-- `remove` of the executor
abbrev pub remove_instance : {G C F : Type 0} → ℕ → BehaviorExecutor G C F → BehaviorExecutor G C F
remove_instance made e = record e { behaviors = without made e.behaviors }
