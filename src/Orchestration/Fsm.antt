-- ===== src/Orchestration/Fsm.antt =====
-- orchestration/state_machine/fsm.py: a table of allowed transitions and the current state. A set
-- of destinations is a list that is only asked for membership.
pub mod Legality
use animacharacter_dev_src.Prelude.{
  Bool, true, false, Option, none, some, List, [], ◌∷◌, ◌++◌, Key, Result, ok, raised, ◌>>=◌, Exc,
  runtime_error, value_error, ite, if◌then◌else◌,
}
use animacharacter_dev_src.Prelude.Dict.{Dict, get, put}

pub record StateChangeResult {ℓ} (S : Type ℓ) : Type ℓ where
  pub prev_state : S
  pub new_state : S
  pub legal_transition : Bool

pub record Fsm {ℓ} (S : Type ℓ) : Type ℓ where
  pub state : S
  pub transitions : Dict S (List S)
  pub finalized : Bool

module _ {S : Type 0} ⦃e : Key S⦄ where
  -- x in s
  unfoldable pub member : S → List S → Bool
  member x [] = false
  member x (y ∷ s) = ite (e.same y x) true (member x s)

  unfoldable pub changed : StateChangeResult S → Bool
  changed r = ite (e.same r.prev_state r.new_state) false true

  unfoldable pub init : S → Fsm S
  init s = record { state = s; transitions = []; finalized = false }

  abbrev or_empty : Option (List S) → List S
  or_empty none = []
  or_empty (some s) = s

  -- `_transitions.get(source, set())`
  unfoldable pub allowed : Fsm S → S → List S
  allowed f source = or_empty (get f.transitions source)

  ensure_mutable : Fsm S → Result Exc (Fsm S)
  ensure_mutable f = if f.finalized then raised runtime_error else ok f

  unfoldable pub add_transitions : S → List S → Fsm S → Result Exc (Fsm S)
  unfolding ensure_mutable
  add_transitions source destinations f = do
    f' ← ensure_mutable f
    ok (record f' { transitions = put f'.transitions source (allowed f' source ++ destinations) })

  unfoldable pub add_transition : S → S → Fsm S → Result Exc (Fsm S)
  unfolding ensure_mutable
  add_transition source destination f = do
    f' ← ensure_mutable f
    ok (record f' {
      transitions = put f'.transitions source (allowed f' source ++ destination ∷ []);
    })

  unfoldable pub finalize : Fsm S → Result Exc (Fsm S)
  unfolding ensure_mutable
  finalize f = do f' ← ensure_mutable f; ok (record f' { finalized = true })

  unfoldable pub change_state : S → Fsm S → Result Exc (Fsm S × StateChangeResult S)
  change_state new f =
      if member new (allowed f f.state)
      then ok (
        record f { state = new },
        record { prev_state = f.state; new_state = new; legal_transition = true },
      )
      else raised value_error

  -- `except ValueError` of force_change_state
  abbrev forced :
      S
      → Fsm S
      → Result Exc (Fsm S × StateChangeResult S)
      → Result Exc (Fsm S × StateChangeResult S)
  forced new f (ok r) = ok r
  forced new f (raised value_error) = ok (
    record f { state = new },
    record { prev_state = f.state; new_state = new; legal_transition = false },
  )
  forced new f (raised x) = raised x

  unfoldable pub force_change_state : S → Fsm S → Result Exc (Fsm S × StateChangeResult S)
  unfolding change_state
  force_change_state new f = forced new f (change_state new f)
