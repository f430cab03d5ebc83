-- ===== src/Behaviors/Context/Queues.antt =====
-- The queues of the subscribers of behavior_engine/context.py when a message is published.
use animacharacter_dev_src.Prelude.{
  ℕ, nat_key, String, string_key, ◌≡◌, refl, ap, ◌∙◌, inl, inr, Bool, not, true, false, ◌&&◌,
  Bool-cases, List, [], ◌∷◌, ◌++◌, arith, equal, equal_sound, if◌then◌else◌,
}
use animacharacter_dev_src.Prelude.Dict.{Dict, put}
use animacharacter_dev_src.Prelude.Dict.Laws.{get-put}
use animacharacter_dev_src.Behaviors.Context.{messages_of, push_all}

abbrev pub is_absent : ℕ → List ℕ → Bool
is_absent s [] = true
is_absent s (j ∷ js) = not (equal j s) && is_absent s js

abbrev pub is_once : ℕ → List ℕ → Bool
is_once s [] = false
is_once s (j ∷ js) = if equal j s then is_absent s js else is_once s js

module _ {M : Type 0} where
  pub messages_of-put :
      (s j : ℕ) (queue : List M) (messages : Dict ℕ (List M))
      → messages_of s (put messages j queue) ≡ (if equal j s then queue else messages_of s messages)
  unfolding messages_of
  messages_of-put s j queue messages = ground (arith, get-put messages j s queue)

  pub push_all-absent :
      (s : ℕ) (subs : List ℕ) (msg : M) (messages : Dict ℕ (List M))
      → is_absent s subs ≡ true
      → messages_of s (push_all subs msg messages) ≡ messages_of s messages
  unfolding push_all
  push_all-absent s [] msg messages h = refl
  push_all-absent s (j ∷ js) msg messages h =
      push_all-absent s js msg (put messages j (messages_of j messages ++ msg ∷ []))
        (ground (arith, h))
      ∙ messages_of-put s j (messages_of j messages ++ msg ∷ []) messages
      ∙ ground (arith, h)

  pub push_all-once :
      (s : ℕ) (subs : List ℕ) (msg : M) (messages : Dict ℕ (List M))
      → is_once s subs ≡ true
      → messages_of s (push_all subs msg messages) ≡ messages_of s messages ++ msg ∷ []
  unfolding push_all
  push_all-once s [] msg messages h = absurd (ground (arith, h))
  push_all-once s (j ∷ js) msg messages h = elim (Bool-cases (equal j s)) [
    | inl same ↦
        push_all-absent s js msg (put messages j (messages_of j messages ++ msg ∷ []))
          (rw same at h)
        ∙ messages_of-put s j (messages_of j messages ++ msg ∷ []) messages
        ∙ rw same (ap (λ i. messages_of i messages ++ msg ∷ []) (equal_sound j s same))
    | inr other ↦
        push_all-once s js msg (put messages j (messages_of j messages ++ msg ∷ [])) (rw other at h)
        ∙ ap (λ q. q ++ msg ∷ [])
            (messages_of-put s j (messages_of j messages ++ msg ∷ []) messages ∙ rw other refl)
  ]

absent-append :
    (s j : ℕ) (js : List ℕ) → equal j s ≡ false → is_absent s (js ++ j ∷ []) ≡ is_absent s js
absent-append s j [] h = rw h refl
absent-append s j (k ∷ js) h = ap (λ b. not (equal k s) && b) (absent-append s j js h)

once-append : (s j : ℕ) (js : List ℕ) → equal j s ≡ false → is_once s (js ++ j ∷ []) ≡ is_once s js
once-append s j [] h = rw h refl
once-append s j (k ∷ js) h = elim (Bool-cases (equal k s)) [
  | inl same ↦ rw same (absent-append s j js h)
  | inr other ↦ rw other (once-append s j js h)
]

-- The subscriber is once among those of its topic and not among those of another.
abbrev pub has_place : String → ℕ → String → List ℕ → Bool
has_place topic s t subs = if equal topic t then is_once s subs else is_absent s subs

pub has_place-append :
    (topic : String) (s j : ℕ) (t : String) (js : List ℕ)
    → equal j s ≡ false
    → has_place topic s t (js ++ j ∷ []) ≡ has_place topic s t js
has_place-append topic s j t js h = elim (Bool-cases (equal topic t)) [
  | inl same ↦ rw same (once-append s j js h)
  | inr other ↦ rw other (absent-append s j js h)
]
