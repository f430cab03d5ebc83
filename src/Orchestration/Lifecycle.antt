-- ===== src/Orchestration/Lifecycle.antt =====
-- orchestration/lifecycle_sup_utility.py: remote control of a lifecycle node. The node and its two
-- services belong to ROS: a world `W` that answers calls.
use animacharacter_dev_src.Prelude.{
  ℕ, ◌==◌, Bool, true, false, ◌&&◌, Option, none, some, ◌≡◌, refl, arith, if◌then◌else◌, ◌⊎◌, inl,
  inr, Bool-cases,
}

-- The services of one lifecycle node, with the identifiers of lifecycle_msgs.
pub record LifecycleNode (W : Type 0) : Type 0 where
  pub change_state_ready : W → Bool
  pub get_state_ready : W → Bool
  pub call_change_state : ℕ → W → W × Option Bool  -- `success`, or no response
  pub call_get_state : W → W × Option ℕ
  pub state_unconfigured : ℕ
  pub state_inactive : ℕ
  pub state_active : ℕ
  pub transition_configure : ℕ
  pub transition_cleanup : ℕ
  pub transition_activate : ℕ
  pub transition_unconfigured_shutdown : ℕ
  pub transition_inactive_shutdown : ℕ
  pub transition_active_shutdown : ℕ

module _ {W : Type 0} (n : LifecycleNode W) where
  unfoldable pub is_ready : W → Bool
  is_ready w = n.change_state_ready w && n.get_state_ready w

  -- the success of `_make_failed_response()`, or of the response
  abbrev response_success : Option Bool → Bool
  response_success none = false
  response_success (some success) = success

  -- `_call_change_state_sync` and `_call_change_state_async`, as far as `bool(resp.success)`
  unfoldable pub request_transition : ℕ → W → W × Bool
  request_transition transition w =
      if n.change_state_ready w
      then (let (w', response) = n.call_change_state transition w in
          (w', response_success response))
      else (w, false)

  -- `_call_get_state_sync` and `_call_get_state_async`
  unfoldable pub request_state : W → W × Option ℕ
  request_state w = if n.get_state_ready w then n.call_get_state w else (w, none)

  unfoldable pub configure : W → W × Bool
  configure w = request_transition n.transition_configure w

  unfoldable pub activate : W → W × Bool
  activate w = request_transition n.transition_activate w

  unfoldable pub cleanup : W → W × Bool
  cleanup w = request_transition n.transition_cleanup w

  -- the choice of a transition in `shutdown`
  unfoldable pub shutdown_transition : ℕ → Option ℕ
  shutdown_transition state =
      if state == n.state_unconfigured
      then some n.transition_unconfigured_shutdown
      else if state == n.state_inactive
      then some n.transition_inactive_shutdown
      else if state == n.state_active
      then some n.transition_active_shutdown
      else none

  abbrev perform : Option ℕ → W → W × Bool
  perform none w = (w, false)
  perform (some transition) w = request_transition transition w

  abbrev shutdown_from : Option ℕ → W → W × Bool
  shutdown_from none w = (w, false)
  shutdown_from (some state) w = perform (shutdown_transition state) w

  -- `shutdown` and `shutdown_async`
  unfoldable pub shutdown : W → W × Bool
  shutdown w = let (w', state) = request_state w in shutdown_from state w'

  -- The transition that shuts a node down from a state.
  abbrev pub Shuts : ℕ → ℕ → Type 0
  Shuts state transition =
      ((state ≡ n.state_unconfigured) × (transition ≡ n.transition_unconfigured_shutdown))
      ⊎ ((state ≡ n.state_inactive) × (transition ≡ n.transition_inactive_shutdown))
      ⊎ ((state ≡ n.state_active) × (transition ≡ n.transition_active_shutdown))

  shutdown_transition-Shuts :
      (state transition : ℕ) → shutdown_transition state ≡ some transition → Shuts state transition
  unfolding shutdown_transition
  shutdown_transition-Shuts state transition h = ground arith

  request_transition_accepted :
      (t : ℕ) (w : W) → (request_transition t w).1 ≡ true → (n.call_change_state t w).1 ≡ some true
  unfolding request_transition
  request_transition_accepted t w h = ground arith

  perform_accepted :
      (choice : Option ℕ) (w : W)
      → (perform choice w).1 ≡ true
      → (t : ℕ) × (choice ≡ some t) × ((n.call_change_state t w).1 ≡ some true)
  perform_accepted none w h = cc
  perform_accepted (some t) w h = (t, refl, request_transition_accepted t w h)

  shutdown_from_accepted :
      (answer : Option ℕ) (w : W)
      → (shutdown_from answer w).1 ≡ true
      → (state t : ℕ) × (answer ≡ some state)
        × Shuts state t
        × ((n.call_change_state t w).1 ≡ some true)
  shutdown_from_accepted none w h = cc
  shutdown_from_accepted (some state) w h =
      let (t, chosen, accepted) = perform_accepted (shutdown_transition state) w h in
      (state, t, refl, shutdown_transition-Shuts state t chosen, accepted)

  -- Shutdown succeeds only when the node answered that it is in one of the three primary states, and
  -- then accepted the shutdown transition for just that state.
  pub shutdown_success :
      (w : W)
      → (shutdown w).1 ≡ true
      → (state transition : ℕ) × ((n.call_get_state w).1 ≡ some state)
        × Shuts state transition
        × ((n.call_change_state transition (n.call_get_state w).0).1 ≡ some true)
  unfolding shutdown request_state
  shutdown_success w h = elim (Bool-cases (n.get_state_ready w)) [
    | inl r ↦ shutdown_from_accepted (n.call_get_state w).1 (n.call_get_state w).0 (rw r at h)
    | inr r ↦ absurd (cc (rw r at h))
  ]
