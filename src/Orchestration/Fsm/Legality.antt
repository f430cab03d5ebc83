-- ===== src/Orchestration/Fsm/Legality.antt =====
-- change_state and force_change_state of state_machine/fsm.py, for any table of transitions.
use animacharacter_dev_src.Prelude.{
  ◌≡◌, ◌⊎◌, true, false, List, [], ◌∷◌, ◌++◌, Key, ok, raised, runtime_error, value_error, arith,
  ite, ◌||◌,
}
use animacharacter_dev_src.Prelude.Dict.{put}
use animacharacter_dev_src.Prelude.Dict.Laws.{get-put}
use animacharacter_dev_src.Orchestration.Fsm.{
  Fsm, member, allowed, add_transitions, finalize, change_state, force_change_state,
}

module _ {S : Type 0} ⦃e : Key S⦄ where
  pub member-append : (x : S) (s t : List S) → member x (s ++ t) ≡ (member x s || member x t)
  unfolding member
  member-append x [] t = ground arith
  member-append x (y ∷ s) t = ground (arith, member-append x s t)

  -- The state changes to `new` exactly when the table allows it: then the result records the old and
  -- the new state as a legal change and the table stays, and otherwise the call raises ValueError.
  pub change_state_exact :
      (f : Fsm S) (new : S)
      → ((member new (allowed f f.state) ≡ true)
          × (change_state new f
              ≡ ok (
                record f { state = new },
                record { prev_state = f.state; new_state = new; legal_transition = true },
              )))
        ⊎ ((member new (allowed f f.state) ≡ false) × (change_state new f ≡ raised value_error))
  unfolding change_state
  change_state_exact f new = ground arith

  -- A forced change always ends in the new state, keeps the table, and is marked legal exactly when
  -- the table allows the change.
  pub force_change_state_total :
      (f : Fsm S) (new : S)
      → force_change_state new f
        ≡ ok (
          record f { state = new },
          record {
            prev_state = f.state;
            new_state = new;
            legal_transition = member new (allowed f f.state);
          },
        )
  unfolding force_change_state
  force_change_state_total f new = ground arith

  allowed-put :
      (f : Fsm S) (source : S) (xs : List S) (s : S)
      → allowed (record f { transitions = put f.transitions source xs }) s
        ≡ ite (e.same source s) xs (allowed f s)
  unfolding allowed
  allowed-put f source xs s = ground (arith, get-put f.transitions source s xs)

  -- Adding destinations to one source of an unfinalized machine makes exactly those destinations
  -- allowed from that source besides what was allowed before, from every source.
  pub allowed-add_transitions :
      (f : Fsm S) (source : S) (destinations : List S) {g : Fsm S}
      → add_transitions source destinations f ≡ ok g
      → (s x : S)
      → member x (allowed g s)
        ≡ ite
            (e.same source s)
            (member x (allowed f s) || member x destinations)
            (member x (allowed f s))
  unfolding add_transitions
  allowed-add_transitions f source destinations h s x = ground (
    arith,
    allowed-put f source (allowed f source ++ destinations) s,
    member-append x (allowed f source) destinations,
  )

  -- Once a machine is finalized, adding transitions and finalizing again raise RuntimeError.
  pub finalized_frozen :
      (f : Fsm S) {g : Fsm S}
      → finalize f ≡ ok g
      → (source : S) (destinations : List S)
      → (add_transitions source destinations g ≡ raised runtime_error)
        × (finalize g ≡ raised runtime_error)
  unfolding finalize add_transitions
  finalized_frozen f h source destinations = ground arith
