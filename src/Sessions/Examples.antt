-- ===== src/Sessions/Examples.antt =====
-- A concrete run of two competing session requests, and the theorems about sessions there.
use animacharacter_dev_src.Prelude.{ℕ, ◌≡◌, refl, true, false, some, List, [], ◌∷◌, arith}
use animacharacter_dev_src.Sessions.Manager.{
  SessionInput, new_session, criteria_answered, lock_taken, runs_on, runner_cleans, no_sessions,
  holds, without, is_session_active, begin_new, after_criteria, with_lock, cleanup_active_session,
  session_step, session_steps,
}
use animacharacter_dev_src.Sessions.Manager.Contexts.{no_context_leaks}
use animacharacter_dev_src.Sessions.Manager.Exclusion.{one_running_session, stale_session_blocks}

abbrev first_context : ℕ
first_context = 0

-- Two requests pass the first check before either has a session; the second to come gets none.
abbrev competing : List SessionInput
competing =
    new_session
    ∷ new_session
    ∷ criteria_answered true true
    ∷ criteria_answered true true
    ∷ lock_taken 0 runs_on
    ∷ lock_taken 1 runs_on
    ∷ []

no_context_leaks_example : holds 1 (session_steps competing no_sessions).destroyed ≡ true
unfolding session_steps session_step begin_new after_criteria with_lock is_session_active holds
    without
no_context_leaks_example = no_context_leaks competing 1 (omega arith) refl refl

one_running_session_example :
    ((session_steps competing no_sessions).active_session ≡ some 0)
    × (first_context ≡ first_context)
unfolding session_steps session_step begin_new after_criteria with_lock is_session_active holds
    without
one_running_session_example = one_running_session competing 0 0 tt refl refl

-- The cleanup of the first context fails to destroy it.
abbrev stale : List SessionInput
stale =
    new_session ∷ criteria_answered true true ∷ lock_taken 0 runs_on ∷ runner_cleans 0 false ∷ []

stale_session_blocks_example :
    ((session_steps competing (session_steps stale no_sessions)).active_session ≡ some 0)
    × ((session_steps competing (session_steps stale no_sessions)).running ≡ [])
unfolding session_steps session_step begin_new after_criteria with_lock is_session_active holds
    without cleanup_active_session
stale_session_blocks_example =
    stale_session_blocks competing 0 (session_steps stale no_sessions) tt refl refl
