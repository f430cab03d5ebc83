-- ===== src/Behaviors/Context.antt =====
-- behavior_engine/context.py: the topics of BehaviorContext. A publisher is known by its topic, and
-- a subscriber by the number of subscribers made before it; its messages are a queue.
mod Queues
pub mod Delivery
use animacharacter_dev_src.Prelude.{
  ℕ, ◌+◌, nat_key, String, string_key, Bool, true, false, Option, none, some, List, [], ◌∷◌, ◌++◌,
  if◌then◌else◌,
}
use animacharacter_dev_src.Prelude.Dict.{Dict, get, put, has}

pub record BehaviorContext (M : Type 0) : Type 0 where
  pub publishers : Dict String (List ℕ)
  pub messages : Dict ℕ (List M)
  pub made : ℕ

module _ {M : Type 0} where
  -- the subscribers of a topic
  unfoldable pub subscribers_of : String → BehaviorContext M → List ℕ
  subscribers_of topic ctx = elim (get ctx.publishers topic) [ none ↦ [] | some subs ↦ subs ]

  -- the messages of a subscriber
  unfoldable pub messages_of : ℕ → Dict ℕ (List M) → List M
  messages_of sub messages = elim (get messages sub) [ none ↦ [] | some queue ↦ queue ]

  unfoldable pub create_publisher : String → BehaviorContext M → BehaviorContext M
  create_publisher topic ctx =
      if has ctx.publishers topic
      then ctx
      else record ctx { publishers = put ctx.publishers topic [] }

  -- `_add_subscriber` of the publisher of a topic
  unfoldable pub add_subscriber : String → ℕ → BehaviorContext M → BehaviorContext M
  add_subscriber topic sub ctx = record ctx {
    publishers = put ctx.publishers topic (subscribers_of topic ctx ++ sub ∷ []);
    messages = put ctx.messages sub [];
    made = sub + 1;
  }

  -- the new subscriber has the number `made` of the context
  unfoldable pub create_subscriber : String → BehaviorContext M → BehaviorContext M
  create_subscriber topic ctx = add_subscriber topic ctx.made (create_publisher topic ctx)

  unfoldable pub push_all : List ℕ → M → Dict ℕ (List M) → Dict ℕ (List M)
  push_all [] msg messages = messages
  push_all (sub ∷ subs) msg messages =
      push_all subs msg (put messages sub (messages_of sub messages ++ msg ∷ []))

  unfoldable pub publish : String → M → BehaviorContext M → BehaviorContext M
  publish topic msg ctx = record ctx {
    messages = push_all (subscribers_of topic ctx) msg ctx.messages;
  }

  -- `clear`, and what pull leaves when its iterator is used up
  unfoldable pub clear : ℕ → BehaviorContext M → BehaviorContext M
  clear sub ctx = record ctx { messages = put ctx.messages sub [] }

  -- all that pull yields, when its iterator is used up at once
  abbrev pub pull : ℕ → BehaviorContext M → BehaviorContext M × List M
  pull sub ctx = (clear sub ctx, messages_of sub ctx.messages)
