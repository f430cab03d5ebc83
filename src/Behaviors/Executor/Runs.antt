-- ===== src/Behaviors/Executor/Runs.antt =====
-- Any calls of BehaviorExecutor in behavior_engine/executor.py.
use animacharacter_dev_src.Prelude.{
  ℕ, ◌+◌, ℤ, ltb, ◌≡◌, refl, ◌∙◌, true, ◌||◌, ◌⊎◌, inl, inr, Bool-cases, Option, none, some, List,
  [], ◌∷◌, ◌++◌, arith, Float, equal, nat_key,
}
use animacharacter_dev_src.Behaviors.Executor.{
  BehaviorAction, Generators, BehaviorInstance, BehaviorExecutor, new_instance, without, kept_after,
  stepped, step, tick_all, tick, added, add, remove_instance,
}
use animacharacter_dev_src.Behaviors.Executor.Order.{
  is_before, IsOrdered, AllAfter, AreMade, IsSame, insert-IsOrdered, insert-AreMade,
  sort_onto-ordered, kept_after-cases,
}

module _ {G F : Type 0} where
  -- In order, and made before the executor's count.
  abbrev pub IsInOrder : ℕ → List (BehaviorInstance G F) → Type 0
  IsInOrder n bs = IsOrdered bs × AreMade n bs

  -- What one instance leaves in front of the rest.
  in_front :
      (n : ℕ) (b : BehaviorInstance G F) (kept rest : List (BehaviorInstance G F))
      → (kept ≡ []) ⊎ ((c : BehaviorInstance G F) × IsSame b c × (kept ≡ c ∷ []))
      → ltb b.made n ≡ true
      → AllAfter b rest
      → IsInOrder n rest
      → IsInOrder n (kept ++ rest)
  in_front n b kept rest (inl h) made after ordered = rw h ordered
  in_front n b kept rest (inr (c, same, h)) made after ordered =
      rw h ((same_AllAfter rest after, ordered.0), (rw same.0 made, ordered.1))
    where
      same_AllAfter : (ds : List (BehaviorInstance G F)) → AllAfter b ds → AllAfter c ds
      same_AllAfter [] q = tt
      same_AllAfter (d ∷ ds) q = (rw (same.0, same.1) q.0, same_AllAfter ds q.1)

  kept-AllAfter :
      (a b : BehaviorInstance G F) (kept rest : List (BehaviorInstance G F))
      → (kept ≡ []) ⊎ ((c : BehaviorInstance G F) × IsSame b c × (kept ≡ c ∷ []))
      → is_before a b ≡ true
      → AllAfter a rest
      → AllAfter a (kept ++ rest)
  kept-AllAfter a b kept rest (inl h) first after = rw h after
  kept-AllAfter a b kept rest (inr (c, same, h)) first after =
      rw h (rw (same.0, same.1) first, after)

  without-AllAfter :
      (a : BehaviorInstance G F) (made : ℕ) (bs : List (BehaviorInstance G F))
      → AllAfter a bs
      → AllAfter a (without made bs)
  unfolding without
  without-AllAfter a made [] h = tt
  without-AllAfter a made (b ∷ bs) h = elim (Bool-cases (equal b.made made)) [
    | inl same ↦ rw same h.1
    | inr other ↦ rw other (h.0, without-AllAfter a made bs h.1)
  ]

  without-IsInOrder :
      (n made : ℕ) (bs : List (BehaviorInstance G F))
      → IsInOrder n bs
      → IsInOrder n (without made bs)
  unfolding without
  without-IsInOrder n made [] h = h
  without-IsInOrder n made (b ∷ bs) h = elim (Bool-cases (equal b.made made)) [
    | inl same ↦ rw same (h.0.1, h.1.1)
    | inr other ↦
        let rest = without-IsInOrder n made bs (h.0.1, h.1.1) in
        rw other ((without-AllAfter b made bs h.0.0, rest.0), (h.1.0, rest.1))
  ]

  more-AreMade : (n : ℕ) (bs : List (BehaviorInstance G F)) → AreMade n bs → AreMade (n + 1) bs
  more-AreMade n [] h = tt
  more-AreMade n (b ∷ bs) h = (ground (arith, h.0), more-AreMade n bs h.1)

pub data ExecutorCall (B F : Type 0) : Type 0 where
  adds : B → ℤ → ExecutorCall B F
  removes : ℕ → ExecutorCall B F
  ticks : F → ExecutorCall B F

module _ {B G C F : Type 0} ⦃f : Float F⦄ (g : Generators B G C F) where
  abbrev pub executor_call : ExecutorCall B F → BehaviorExecutor G C F → BehaviorExecutor G C F
  executor_call (adds behavior_fn priority) e = (add g behavior_fn priority e).0
  executor_call (removes made) e = remove_instance made e
  executor_call (ticks time) e = tick g time e

  abbrev pub executor_calls :
      List (ExecutorCall B F) → BehaviorExecutor G C F → BehaviorExecutor G C F
  executor_calls [] e = e
  executor_calls (call ∷ calls) e = executor_calls calls (executor_call call e)

  stepped-IsSame :
      (b : BehaviorInstance G F) (outcome : C × Option (G × Option (BehaviorAction F)))
      → IsSame b (stepped g b outcome).1
  unfolding stepped
  stepped-IsSame b (ctx, none) = (refl, refl)
  stepped-IsSame b (ctx, some (gen, action)) = (refl, refl)

  step-IsSame : (time : F) (ctx : C) (b : BehaviorInstance G F) → IsSame b (step g time ctx b).1
  unfolding step
  step-IsSame time ctx b = elim (Bool-cases (b.is_done || f.lt_f time b.sleep_until)) [
    | inl idle ↦ rw idle (refl, refl)
    | inr awake ↦ rw awake (stepped-IsSame b (g.next b.gen ctx))
  ]

  -- What a step leaves of an instance is the instance, or nothing.
  left_of :
      (time : F) (ctx : C) (b : BehaviorInstance G F)
      → (kept_after time (step g time ctx b).1 (step g time ctx b).2 ≡ [])
        ⊎ ((c : BehaviorInstance G F) × IsSame b c
            × (kept_after time (step g time ctx b).1 (step g time ctx b).2 ≡ c ∷ []))
  left_of time ctx b = elim (kept_after-cases time (step g time ctx b).1 (step g time ctx b).2) [
    | inl h ↦ inl h
    | inr (c, same, h) ↦
        let stays = step-IsSame time ctx b in inr (c, (same.0 ∙ stays.0, same.1 ∙ stays.1), h)
  ]

  tick_all-AllAfter :
      (a : BehaviorInstance G F) (time : F) (ctx : C) (bs : List (BehaviorInstance G F))
      → AllAfter a bs
      → AllAfter a (tick_all g time ctx bs).1
  unfolding tick_all
  tick_all-AllAfter a time ctx [] h = tt
  tick_all-AllAfter a time ctx (b ∷ bs) h =
      kept-AllAfter a b (kept_after time (step g time ctx b).1 (step g time ctx b).2)
        (tick_all g time (step g time ctx b).0 bs).1 (left_of time ctx b) h.0
        (tick_all-AllAfter a time (step g time ctx b).0 bs h.1)

  tick_all-IsInOrder :
      (n : ℕ) (time : F) (ctx : C) (bs : List (BehaviorInstance G F))
      → IsInOrder n bs
      → IsInOrder n (tick_all g time ctx bs).1
  unfolding tick_all
  tick_all-IsInOrder n time ctx [] h = h
  tick_all-IsInOrder n time ctx (b ∷ bs) h =
      in_front n b (kept_after time (step g time ctx b).1 (step g time ctx b).2)
        (tick_all g time (step g time ctx b).0 bs).1 (left_of time ctx b) h.1.0
        (tick_all-AllAfter b time (step g time ctx b).0 bs h.0.0)
        (tick_all-IsInOrder n time (step g time ctx b).0 bs (h.0.1, h.1.1))

  abbrev pub IsExecutor : BehaviorExecutor G C F → Type 0
  IsExecutor e = IsInOrder e.count e.behaviors

  added-IsExecutor :
      (priority : ℤ) (e : BehaviorExecutor G C F) (started : C × Option G)
      → IsExecutor e
      → IsExecutor (added g priority e started).0
  unfolding added
  added-IsExecutor priority e (ctx, none) h = h
  added-IsExecutor priority e (ctx, some gen) h =
      let b = new_instance e.count gen priority in
      rw (sort_onto-ordered b [] e.behaviors h.0) (
        insert-IsOrdered b e.behaviors h.1 h.0,
        insert-AreMade (e.count + 1) b e.behaviors (ground arith)
            (more-AreMade e.count e.behaviors h.1),
      )

  call-IsExecutor :
      (call : ExecutorCall B F) (e : BehaviorExecutor G C F)
      → IsExecutor e
      → IsExecutor (executor_call call e)
  unfolding add tick
  call-IsExecutor (adds behavior_fn priority) e h =
      added-IsExecutor priority e (g.launch behavior_fn e.ctx) h
  call-IsExecutor (removes made) e h = without-IsInOrder e.count made e.behaviors h
  call-IsExecutor (ticks time) e h = tick_all-IsInOrder e.count time e.ctx e.behaviors h

  calls-IsExecutor :
      (calls : List (ExecutorCall B F)) (e : BehaviorExecutor G C F)
      → IsExecutor e
      → IsExecutor (executor_calls calls e)
  calls-IsExecutor [] e h = h
  calls-IsExecutor (call ∷ calls) e h =
      calls-IsExecutor calls (executor_call call e) (call-IsExecutor call e h)

  -- After any calls of add, remove and tick on an executor that starts without behaviours, the
  -- behaviours are stepped by increasing priority number and, where it is equal, in the order in
  -- which they were added.
  pub executor_calls-IsOrdered :
      (calls : List (ExecutorCall B F)) (e : BehaviorExecutor G C F)
      → e.behaviors ≡ []
      → IsOrdered (executor_calls calls e).behaviors
  executor_calls-IsOrdered calls e empty = (calls-IsExecutor calls e (rw empty (tt, tt))).0
