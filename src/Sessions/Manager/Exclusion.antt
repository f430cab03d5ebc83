-- ===== src/Sessions/Manager/Exclusion.antt =====
-- session/session_manager.py: the threads that run at the same time.
use animacharacter_dev_src.Prelude.{
  ℕ, zero, suc, ◌≡◌, refl, sym, ap, ◌∙◌, inl, inr, Bool, true, false, ◌&&◌, none, some, List, [],
  ◌∷◌, if◌then◌else◌, arith, Bool-cases,
}
use mathlib.Core.Option.{some-injective}
use animacharacter_dev_src.Sessions.Manager.{
  SessionManager, StartOutcome, start_raises, ends_at_once, cleans_unseen, runs_on, SessionInput,
  new_session, criteria_answered, lock_taken, runner_cleans, runner_ends, terminate_session,
  no_sessions, holds, without, is_session_active, begin_new, after_criteria, with_lock,
  cleanup_active_session, end_thread, session_step, session_steps, answered, started, destroy,
}

-- No call of terminate_session.
abbrev pub Unterminated : List SessionInput → Type 0
Unterminated [] = Unit
Unterminated (terminate_session ∷ is) = ⊥
Unterminated (i ∷ is) = Unterminated is

-- A running session is the active one.
abbrev pub IsExclusive : SessionManager → Type 0
IsExclusive s = (c : ℕ) → holds c s.running ≡ true → s.active_session ≡ some c

holds-without_self : (c : ℕ) (xs : List ℕ) → holds c (without c xs) ≡ false
unfolding holds without
holds-without_self c [] = refl
holds-without_self c (x ∷ xs) = ground (arith, holds-without_self c xs)

holds-of_without : (c d : ℕ) (xs : List ℕ) → holds d (without c xs) ≡ true → holds d xs ≡ true
unfolding holds without
holds-of_without c d [] h = h
holds-of_without c d (x ∷ xs) h = elim (Bool-cases (holds d (without c xs))) [
  | inl k ↦ ground (arith, holds-of_without c d xs k)
  | inr k ↦ ground (arith, h, k)
]

guarded :
    (b : Bool) (s t : SessionManager)
    → (b ≡ true → IsExclusive s)
    → (b ≡ false → IsExclusive t)
    → IsExclusive (if b then s else t)
guarded true s t k k' = k refl
guarded false s t k k' = k' refl

begin-IsExclusive : (s : SessionManager) → IsExclusive s → IsExclusive (begin_new s)
unfolding begin_new
begin-IsExclusive s k = guarded (is_session_active s) s _ (λ h. k) (λ h. k)

answered-IsExclusive :
    (n : ℕ) (b : Bool) (s : SessionManager) → IsExclusive s → IsExclusive (answered n b s)
answered-IsExclusive zero b s k = k
answered-IsExclusive (suc n) true s k = k
answered-IsExclusive (suc n) false s k = k

started-IsExclusive :
    (c : ℕ) (o : StartOutcome) (s : SessionManager)
    → is_session_active s ≡ false
    → IsExclusive s
    → IsExclusive (started c o s)
unfolding is_session_active holds
started-IsExclusive c start_raises s n k = k
started-IsExclusive c ends_at_once s n k = k
started-IsExclusive c cleans_unseen s n k = λ d h. ground (arith, n, h, k d)
started-IsExclusive c runs_on s n k = λ d h. ground (arith, n, h, k d)

lock-IsExclusive :
    (c : ℕ) (o : StartOutcome) (s : SessionManager) → IsExclusive s → IsExclusive (with_lock c o s)
unfolding with_lock is_session_active
lock-IsExclusive c o s k =
    let s1 = record s { pending = without c s.pending } in
    guarded (holds c s.pending) _ s
      (λ h.
        guarded (is_session_active s) (destroy c s1) (started c o s1) (λ a. k)
          (λ a. started-IsExclusive c o s1 a k))
      (λ h. k)

-- The session that is cleaned up was the only running one.
none_left :
    (c d : ℕ) (s : SessionManager)
    → IsExclusive s
    → holds c s.running ≡ true
    → holds d (without c s.running) ≡ true
    → ⊥
none_left c d s k h r =
    let same = some-injective c d (sym (k c h) ∙ k d (holds-of_without c d s.running r)) in
    cc (ap (λ n. holds n (without c s.running)) same, holds-without_self c s.running, r)

cleans-IsExclusive :
    (c : ℕ) (ok : Bool) (s : SessionManager)
    → IsExclusive s
    → IsExclusive (cleanup_active_session c ok s)
unfolding cleanup_active_session
cleans-IsExclusive c ok s k =
    let s1 = destroy c (record s { running = without c s.running; cleaning = c ∷ s.cleaning }) in
    guarded (holds c s.running) _ s
      (λ h.
        guarded ok (record s1 { active_session = none }) s1
          (λ a d r. absurd (none_left c d s k h r)) (λ a d r. absurd (none_left c d s k h r)))
      (λ h. k)

steps-IsExclusive :
    (is : List SessionInput) (s : SessionManager)
    → Unterminated is
    → IsExclusive s
    → IsExclusive (session_steps is s)
unfolding session_steps session_step after_criteria end_thread
steps-IsExclusive [] s u k = k
steps-IsExclusive (new_session ∷ is) s u k = steps-IsExclusive is _ u (begin-IsExclusive s k)
steps-IsExclusive (criteria_answered met creates ∷ is) s u k =
    steps-IsExclusive is _ u (answered-IsExclusive s.waiting (met && creates) s k)
steps-IsExclusive (lock_taken c o ∷ is) s u k = steps-IsExclusive is _ u (lock-IsExclusive c o s k)
steps-IsExclusive (runner_cleans c ok ∷ is) s u k =
    steps-IsExclusive is _ u (cleans-IsExclusive c ok s k)
steps-IsExclusive (runner_ends c ∷ is) s u k = steps-IsExclusive is _ u k
steps-IsExclusive (terminate_session ∷ is) s u k = absurd u

-- From the start on, however calls of new_session, cleanups and ends of threads interleave while
-- terminate_session is not called: a session whose thread has not come to `_cleanup_active_session` is
-- the active one, so that no two are run at once. The thread of an earlier one may be alive in later
-- cleanup callbacks.
pub one_running_session :
    (is : List SessionInput) (c d : ℕ)
    → Unterminated is
    → holds c (session_steps is no_sessions).running ≡ true
    → holds d (session_steps is no_sessions).running ≡ true
    → ((session_steps is no_sessions).active_session ≡ some c) × (c ≡ d)
unfolding holds
one_running_session is c d u h h' =
    let k = steps-IsExclusive is no_sessions u (λ e l. absurd (cc l)) in
    (k c h, some-injective c d (sym (k c h) ∙ k d h'))

-- A session is active, and none is running.
abbrev pub IsStale : ℕ → SessionManager → Type 0
IsStale c s = (s.active_session ≡ some c) × (s.running ≡ [])

guarded-IsStale :
    (c : ℕ) (b : Bool) (s t : SessionManager)
    → (b ≡ true → IsStale c s)
    → (b ≡ false → IsStale c t)
    → IsStale c (if b then s else t)
guarded-IsStale c true s t k k' = k refl
guarded-IsStale c false s t k k' = k' refl

answered-IsStale :
    (c n : ℕ) (b : Bool) (s : SessionManager) → IsStale c s → IsStale c (answered n b s)
answered-IsStale c zero b s k = k
answered-IsStale c (suc n) true s k = k
answered-IsStale c (suc n) false s k = k

step-IsStale :
    (c : ℕ) (i : SessionInput) (s : SessionManager)
    → Unterminated (i ∷ [])
    → IsStale c s
    → IsStale c (session_step i s)
unfolding session_step begin_new after_criteria with_lock cleanup_active_session end_thread
    is_session_active holds
step-IsStale c new_session s u k = guarded-IsStale c (is_session_active s) s _ (λ h. k) (λ h. k)
step-IsStale c (criteria_answered met creates) s u k =
    answered-IsStale c s.waiting (met && creates) s k
step-IsStale c (lock_taken d o) s u k =
    guarded-IsStale c (holds d s.pending) _ s
      (λ h.
        guarded-IsStale c (is_session_active s) _ _ (λ a. k) (λ a. absurd (ground (arith, k, a))))
      (λ h. k)
step-IsStale c (runner_ends d) s u k = k
step-IsStale c (runner_cleans d ok) s u k =
    guarded-IsStale c (holds d s.running) _ s (λ h. absurd (cc (rw k.1 at h))) (λ h. k)
step-IsStale c terminate_session s u k = absurd u

Unterminated-parts :
    (i : SessionInput) (is : List SessionInput)
    → Unterminated (i ∷ is)
    → Unterminated (i ∷ []) × Unterminated is
Unterminated-parts new_session is u = (tt, u)
Unterminated-parts (criteria_answered met creates) is u = (tt, u)
Unterminated-parts (lock_taken c o) is u = (tt, u)
Unterminated-parts (runner_cleans c ok) is u = (tt, u)
Unterminated-parts (runner_ends c) is u = (tt, u)
Unterminated-parts terminate_session is u = absurd u

-- Once a session is active whose thread has run `_cleanup_active_session` without clearing it, so that
-- no session is running, no later call of new_session gets a session, whatever comes but
-- terminate_session: it stays active, and none is running.
pub stale_session_blocks :
    (is : List SessionInput) (c : ℕ) (s : SessionManager)
    → Unterminated is
    → s.active_session ≡ some c
    → s.running ≡ []
    → ((session_steps is s).active_session ≡ some c) × ((session_steps is s).running ≡ [])
unfolding session_steps
stale_session_blocks [] c s u a v = (a, v)
stale_session_blocks (i ∷ is) c s u a v =
    let (now', later) = Unterminated-parts i is u in
    let (a', v') = step-IsStale c i s now' (a, v) in
    stale_session_blocks is c (session_step i s) later a' v'
