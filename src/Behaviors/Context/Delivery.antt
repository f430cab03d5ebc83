-- ===== src/Behaviors/Context/Delivery.antt =====
-- What a subscriber of behavior_engine/context.py pulls.
use animacharacter_dev_src.Prelude.{
  ℕ, ◌<◌, nat_key, String, string_key, ◌≡◌, refl, sym, ap, ◌∙◌, inl, inr, true, false, Bool-cases,
  List, [], ◌∷◌, ◌++◌, arith, equal, equal_sound, if◌then◌else◌,
}
use mathlib.Core.List.{append_assoc, append-nil}
use animacharacter_dev_src.Prelude.Dict.{has}
use animacharacter_dev_src.Prelude.Dict.Laws.{get-put}
use animacharacter_dev_src.Behaviors.Context.{
  BehaviorContext, subscribers_of, messages_of, create_publisher, add_subscriber, create_subscriber,
  publish, clear, pull,
}
use animacharacter_dev_src.Behaviors.Context.Queues.{
  messages_of-put, push_all-absent, push_all-once, has_place, has_place-append,
}

pub data ContextCall (M : Type 0) : Type 0 where
  publishes : String → M → ContextCall M
  makes_publisher : String → ContextCall M
  makes_subscriber : String → ContextCall M
  pulls : ℕ → ContextCall M

module _ {M : Type 0} where
  -- The subscriber was made, and subscribed to this topic only.
  abbrev pub IsSubscribed : String → ℕ → BehaviorContext M → Type 0
  IsSubscribed topic s ctx =
      (s < ctx.made) × ((t : String) → has_place topic s t (subscribers_of t ctx) ≡ true)

  abbrev pub context_call : ContextCall M → BehaviorContext M → BehaviorContext M
  context_call (publishes topic msg) ctx = publish topic msg ctx
  context_call (makes_publisher topic) ctx = create_publisher topic ctx
  context_call (makes_subscriber topic) ctx = create_subscriber topic ctx
  context_call (pulls sub) ctx = (pull sub ctx).0

  abbrev pub context_calls : List (ContextCall M) → BehaviorContext M → BehaviorContext M
  context_calls [] ctx = ctx
  context_calls (call ∷ calls) ctx = context_calls calls (context_call call ctx)

  -- what the subscriber gets by a call, and what is published on a topic by it
  abbrev pub got_by : ℕ → ContextCall M → BehaviorContext M → List M
  got_by s (publishes topic msg) ctx = []
  got_by s (makes_publisher topic) ctx = []
  got_by s (makes_subscriber topic) ctx = []
  got_by s (pulls sub) ctx = if equal sub s then (pull sub ctx).1 else []

  abbrev pub published_by : String → ContextCall M → List M
  published_by topic (publishes t msg) = if equal topic t then msg ∷ [] else []
  published_by topic (makes_publisher t) = []
  published_by topic (makes_subscriber t) = []
  published_by topic (pulls sub) = []

  abbrev pub pulled : ℕ → List (ContextCall M) → BehaviorContext M → List M
  pulled s [] ctx = []
  pulled s (call ∷ calls) ctx = got_by s call ctx ++ pulled s calls (context_call call ctx)

  abbrev pub published : String → List (ContextCall M) → List M
  published topic [] = []
  published topic (call ∷ calls) = published_by topic call ++ published topic calls

  subscribers_of-create_publisher :
      (t topic : String) (ctx : BehaviorContext M)
      → subscribers_of t (create_publisher topic ctx) ≡ subscribers_of t ctx
  unfolding subscribers_of create_publisher
  subscribers_of-create_publisher t topic ctx = ground (arith, get-put ctx.publishers topic t [])

  subscribers_of-add_subscriber :
      (t topic : String) (j : ℕ) (ctx : BehaviorContext M)
      → subscribers_of t (add_subscriber topic j ctx)
        ≡ (if equal topic t then subscribers_of topic ctx ++ j ∷ [] else subscribers_of t ctx)
  unfolding subscribers_of add_subscriber
  subscribers_of-add_subscriber t topic j ctx =
      ground (arith, get-put ctx.publishers topic t (subscribers_of topic ctx ++ j ∷ []))

  create_publisher_keeps :
      (topic : String) (ctx : BehaviorContext M)
      → ((create_publisher topic ctx).messages ≡ ctx.messages)
        × ((create_publisher topic ctx).made ≡ ctx.made)
  unfolding create_publisher
  create_publisher_keeps topic ctx = elim (Bool-cases (has ctx.publishers topic)) [
    | inl there ↦ rw there (refl, refl)
    | inr new ↦ rw new (refl, refl)
  ]

  add_subscriber-IsSubscribed :
      (topic t : String) (s j : ℕ) (ctx : BehaviorContext M)
      → s < j
      → IsSubscribed topic s ctx
      → IsSubscribed topic s (add_subscriber t j ctx)
  unfolding add_subscriber
  add_subscriber-IsSubscribed topic t s j ctx below h = (omega (arith, below), place)
    where
      place : (u : String) → has_place topic s u (subscribers_of u (add_subscriber t j ctx)) ≡ true
      place u =
          ap (has_place topic s u) (subscribers_of-add_subscriber u t j ctx)
          ∙ elim (Bool-cases (equal t u)) [
            | inl same ↦ rw same (
                has_place-append topic s j u (subscribers_of t ctx) (ground (arith, below))
                ∙ ap (λ v. has_place topic s u (subscribers_of v ctx)) (equal_sound t u same)
                ∙ h.1 u)
            | inr other ↦ rw other (h.1 u)
          ]

  create_publisher-IsSubscribed :
      (topic t : String) (s : ℕ) (ctx : BehaviorContext M)
      → IsSubscribed topic s ctx
      → IsSubscribed topic s (create_publisher t ctx)
  create_publisher-IsSubscribed topic t s ctx h = (
    rw (create_publisher_keeps t ctx).1 h.0,
    λ u. ap (has_place topic s u) (subscribers_of-create_publisher u t ctx) ∙ h.1 u,
  )

  call-IsSubscribed :
      (topic : String) (s : ℕ) (call : ContextCall M) (ctx : BehaviorContext M)
      → IsSubscribed topic s ctx
      → IsSubscribed topic s (context_call call ctx)
  unfolding publish clear create_subscriber subscribers_of
  call-IsSubscribed topic s (publishes t msg) ctx h = h
  call-IsSubscribed topic s (makes_publisher t) ctx h =
      create_publisher-IsSubscribed topic t s ctx h
  call-IsSubscribed topic s (makes_subscriber t) ctx h =
      add_subscriber-IsSubscribed topic t s ctx.made (create_publisher t ctx) h.0
        (create_publisher-IsSubscribed topic t s ctx h)
  call-IsSubscribed topic s (pulls sub) ctx h = h

  call_delivers :
      (topic : String) (s : ℕ) (call : ContextCall M) (ctx : BehaviorContext M)
      → IsSubscribed topic s ctx
      → got_by s call ctx ++ messages_of s (context_call call ctx).messages
        ≡ messages_of s ctx.messages ++ published_by topic call
  unfolding publish clear create_subscriber add_subscriber
  call_delivers topic s (publishes t msg) ctx h = elim (Bool-cases (equal topic t)) [
    | inl same ↦
        rw same (push_all-once s (subscribers_of t ctx) msg ctx.messages (rw same at (h.1 t)))
    | inr other ↦ rw other (
        push_all-absent s (subscribers_of t ctx) msg ctx.messages (rw other at (h.1 t))
        ∙ sym (append-nil (messages_of s ctx.messages)))
  ]
  call_delivers topic s (makes_publisher t) ctx h =
      ap (messages_of s) (create_publisher_keeps t ctx).0
      ∙ sym (append-nil (messages_of s ctx.messages))
  call_delivers topic s (makes_subscriber t) ctx h =
      messages_of-put s ctx.made [] (create_publisher t ctx).messages
      ∙ rw (not_made (ctx.made) h.0) (ap (messages_of s) (create_publisher_keeps t ctx).0)
      ∙ sym (append-nil (messages_of s ctx.messages))
    where
      not_made : (n : ℕ) → s < n → equal n s ≡ false
      not_made n q = ground (arith, q)
  call_delivers topic s (pulls sub) ctx h = elim (Bool-cases (equal sub s)) [
    | inl same ↦
        ap (λ q. (if equal sub s then messages_of sub ctx.messages else []) ++ q)
          (messages_of-put s sub [] ctx.messages)
        ∙ rw same (ap (λ i. messages_of i ctx.messages ++ []) (equal_sound sub s same))
    | inr other ↦
        ap (λ q. (if equal sub s then messages_of sub ctx.messages else []) ++ q)
          (messages_of-put s sub [] ctx.messages)
        ∙ rw other (sym (append-nil (messages_of s ctx.messages)))
  ]

  -- While a subscriber is used by pulls only, and whatever else is created, published and pulled,
  -- what it had waiting and what is published on its topic is what it pulls and what it has
  -- waiting in the end: each message once, in the order of publication, and none of another topic.
  pub context_calls_deliver :
      (topic : String) (s : ℕ) (calls : List (ContextCall M)) (ctx : BehaviorContext M)
      → IsSubscribed topic s ctx
      → pulled s calls ctx ++ messages_of s (context_calls calls ctx).messages
        ≡ messages_of s ctx.messages ++ published topic calls
  context_calls_deliver topic s [] ctx h = sym (append-nil (messages_of s ctx.messages))
  context_calls_deliver topic s (call ∷ calls) ctx h =
      let next = context_call call ctx in
      append_assoc (got_by s call ctx) (pulled s calls next)
        (messages_of s (context_calls calls next).messages)
      ∙ ap (λ q. got_by s call ctx ++ q)
          (context_calls_deliver topic s calls next (call-IsSubscribed topic s call ctx h))
      ∙ sym (append_assoc (got_by s call ctx) (messages_of s next.messages) (published topic calls))
      ∙ ap (λ q. q ++ published topic calls) (call_delivers topic s call ctx h)
      ∙ append_assoc (messages_of s ctx.messages) (published_by topic call) (published topic calls)
