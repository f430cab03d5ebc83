-- ===== src/Sessions/Manager/Overlap.antt =====
-- session/session_manager.py and session/runner.py: a session beside the cleanup of the last one.
use animacharacter_dev_src.Prelude.{ℕ, ◌≡◌, true, some, [], ◌∷◌, arith}
use animacharacter_dev_src.Sessions.Manager.{
  SessionManager, runs_on, new_session, criteria_answered, lock_taken, runner_cleans, holds,
  without, is_session_active, begin_new, after_criteria, with_lock, cleanup_active_session,
  session_step, session_steps,
}

-- Once `_cleanup_active_session` of a running session has destroyed its context, a request that
-- meets the criteria and whose runner starts becomes the active session and runs while the thread
-- of the first one is still in its later cleanup callbacks.
pub next_session_overlaps :
    (c : ℕ) (s : SessionManager)
    → holds c s.running ≡ true
    → let t =
        session_steps
          (runner_cleans c true
            ∷ new_session
            ∷ criteria_answered true true
            ∷ lock_taken s.created runs_on
            ∷ [])
          s in
      (t.active_session ≡ some s.created)
      × (holds s.created t.running ≡ true)
      × (holds c t.cleaning ≡ true)
unfolding session_steps session_step cleanup_active_session begin_new is_session_active
    after_criteria with_lock holds without
next_session_overlaps c s h = ground (arith, h)
