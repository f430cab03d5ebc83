-- ===== src/Behaviors/Executor/Order.antt =====
-- The order of the behaviours of BehaviorExecutor in behavior_engine/executor.py.
use animacharacter_dev_src.Prelude.{
  ℕ, ltb_ℤ, ltb, ◌≡◌, refl, sym, ap, ◌∙◌, Bool, not, true, false, ◌||◌, ◌&&◌, ◌⊎◌, inl, inr,
  Bool-cases, Option, none, some, List, [], ◌∷◌, ◌++◌, All, arith, Float, nat_key,
}
use mathlib.Core.List.{append_assoc, append-nil}
use animacharacter_dev_src.Behaviors.Executor.{
  BehaviorAction, stop, go_on, sleep, at_frequency, BehaviorInstance, handle_action,
  insert_by_priority, sort_onto, kept_after,
}

module _ {G F : Type 0} where
  -- The first is to be stepped before the second: its priority number is smaller, or equal and it
  -- was made earlier.
  abbrev pub is_before : BehaviorInstance G F → BehaviorInstance G F → Bool
  is_before b c =
      ltb_ℤ b.priority c.priority || (not (ltb_ℤ c.priority b.priority) && ltb b.made c.made)

  abbrev pub IsOrdered : List (BehaviorInstance G F) → Type 0
  IsOrdered [] = Unit
  IsOrdered (b ∷ bs) = All (λ c. is_before b c ≡ true) bs × IsOrdered bs

  abbrev pub AllAfter : BehaviorInstance G F → List (BehaviorInstance G F) → Type 0
  AllAfter b = All (λ c. is_before b c ≡ true)

  before_trans :
      (a b c : BehaviorInstance G F)
      → is_before a b ≡ true
      → is_before b c ≡ true
      → is_before a c ≡ true
  before_trans a b c h k = ground (arith, h, k)

  AllAfter-trans :
      (a b : BehaviorInstance G F) (cs : List (BehaviorInstance G F))
      → is_before a b ≡ true
      → AllAfter b cs
      → AllAfter a cs
  AllAfter-trans a b [] h hs = tt
  AllAfter-trans a b (c ∷ cs) h hs = (before_trans a b c h hs.0, AllAfter-trans a b cs h hs.1)

  -- All were made before the count came to `count`.
  abbrev pub AreMade : ℕ → List (BehaviorInstance G F) → Type 0
  AreMade count = All (λ c. ltb c.made count ≡ true)

  insert-AllAfter :
      (a b : BehaviorInstance G F) (cs : List (BehaviorInstance G F))
      → is_before a b ≡ true
      → AllAfter a cs
      → AllAfter a (insert_by_priority b cs)
  unfolding insert_by_priority
  insert-AllAfter a b [] h hs = (h, tt)
  insert-AllAfter a b (c ∷ cs) h hs = elim (Bool-cases (ltb_ℤ b.priority c.priority)) [
    | inl first ↦ rw first (h, hs)
    | inr later ↦ rw later (hs.0, insert-AllAfter a b cs h hs.1)
  ]

  pub insert-IsOrdered :
      (b : BehaviorInstance G F) (cs : List (BehaviorInstance G F))
      → AreMade b.made cs
      → IsOrdered cs
      → IsOrdered (insert_by_priority b cs)
  unfolding insert_by_priority
  insert-IsOrdered b [] made h = (tt, tt)
  insert-IsOrdered b (c ∷ cs) made h = elim (Bool-cases (ltb_ℤ b.priority c.priority)) [
    | inl first ↦
        let b_c : is_before b c ≡ true = rw first refl in
        rw first ((b_c, AllAfter-trans b c cs b_c h.0), h)
    | inr later ↦
        let c_b : is_before c b ≡ true = ground (arith, later, made.0) in
        rw later (insert-AllAfter c b cs c_b h.0, insert-IsOrdered b cs made.1 h.1)
  ]

  pub insert-AreMade :
      (n : ℕ) (b : BehaviorInstance G F) (cs : List (BehaviorInstance G F))
      → ltb b.made n ≡ true
      → AreMade n cs
      → AreMade n (insert_by_priority b cs)
  unfolding insert_by_priority
  insert-AreMade n b [] h hs = (h, tt)
  insert-AreMade n b (c ∷ cs) h hs = elim (Bool-cases (ltb_ℤ b.priority c.priority)) [
    | inl first ↦ rw first (h, hs)
    | inr later ↦ rw later (hs.0, insert-AreMade n b cs h hs.1)
  ]

  -- An instance that comes after all others is inserted last.
  insert_last :
      (b : BehaviorInstance G F) (cs bs : List (BehaviorInstance G F))
      → IsOrdered (cs ++ b ∷ bs)
      → insert_by_priority b cs ≡ cs ++ b ∷ []
  unfolding insert_by_priority
  insert_last b [] bs h = refl
  insert_last b (c ∷ cs) bs h =
      rw (not_first (after_member cs h.0)) (ap (◌∷◌ c) (insert_last b cs bs h.1))
    where
      after_member :
          (ds : List (BehaviorInstance G F)) → AllAfter c (ds ++ b ∷ bs) → is_before c b ≡ true
      after_member [] q = q.0
      after_member (d ∷ ds) q = after_member ds q.1

      not_first : is_before c b ≡ true → ltb_ℤ b.priority c.priority ≡ false
      not_first q = ground (arith, q)

  pub sort_onto-ordered :
      (b : BehaviorInstance G F) (acc cs : List (BehaviorInstance G F))
      → IsOrdered (acc ++ cs)
      → sort_onto acc (cs ++ b ∷ []) ≡ insert_by_priority b (acc ++ cs)
  unfolding sort_onto
  sort_onto-ordered b acc [] h = ap (insert_by_priority b) (sym (append-nil acc))
  sort_onto-ordered b acc (c ∷ cs) h =
      let shifted : (acc ++ c ∷ []) ++ cs ≡ acc ++ c ∷ cs = append_assoc acc (c ∷ []) cs in
      ap (λ sorted. sort_onto sorted (cs ++ b ∷ [])) (insert_last c acc cs h)
      ∙ sort_onto-ordered b (acc ++ c ∷ []) cs (rw shifted h)
      ∙ ap (insert_by_priority b) shifted

  -- The same instance at another time.
  abbrev pub IsSame : BehaviorInstance G F → BehaviorInstance G F → Type 0
  IsSame b c = (c.made ≡ b.made) × (c.priority ≡ b.priority)

  handle_action-IsSame :
      ⦃f : Float F⦄ (action : BehaviorAction F) (time : F) (b : BehaviorInstance G F)
      → IsSame b (handle_action action time b)
  unfolding handle_action
  handle_action-IsSame stop time b = (refl, refl)
  handle_action-IsSame go_on time b = (refl, refl)
  handle_action-IsSame (sleep arg) time b = (refl, refl)
  handle_action-IsSame (at_frequency arg) time b = (refl, refl)

  -- What stays of an instance after its step is the same instance.
  pub kept_after-cases :
      ⦃f : Float F⦄ (time : F) (b : BehaviorInstance G F) (action : Option (BehaviorAction F))
      → (kept_after time b action ≡ [])
        ⊎ ((c : BehaviorInstance G F) × IsSame b c × (kept_after time b action ≡ c ∷ []))
  unfolding kept_after
  kept_after-cases time b none = inr (b, (refl, refl), refl)
  kept_after-cases time b (some action) = elim (Bool-cases (handle_action action time b).is_done) [
    | inl done ↦ inl (rw done refl)
    | inr goes_on ↦
        inr (handle_action action time b, handle_action-IsSame action time b, rw goes_on refl)
  ]
