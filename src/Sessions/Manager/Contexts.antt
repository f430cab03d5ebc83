-- ===== src/Sessions/Manager/Contexts.antt =====
-- session/session_manager.py: what becomes of the contexts that new_session creates.
use animacharacter_dev_src.Prelude.{
  ℕ, zero, suc, ◌<◌, ◌≡◌, refl, ◌⊎◌, inl, inr, Bool, true, false, ◌||◌, ◌&&◌, none, List, [], ◌∷◌,
  if◌then◌else◌, arith, Bool-cases, Option-cases,
}
use mathlib.Core.Path.{subst}
use animacharacter_dev_src.Sessions.Manager.{
  SessionManager, StartOutcome, start_raises, ends_at_once, cleans_unseen, runs_on, SessionInput,
  new_session, criteria_answered, lock_taken, runner_cleans, runner_ends, terminate_session,
  no_sessions, holds, without, is_session_active, begin_new, after_criteria, with_lock,
  cleanup_active_session, end_thread, terminate, session_step, session_steps, context_made,
  answered, started, destroy,
}

-- A context is held by a call, used by a running session, or was given to destroy_session.
abbrev pub accounted : ℕ → SessionManager → Bool
accounted c s = holds c s.pending || (holds c s.running || holds c s.destroyed)

-- Every context created is accounted for.
abbrev pub IsAccounted : SessionManager → Type 0
IsAccounted s = (c : ℕ) → c < s.created → accounted c s ≡ true

holds-without :
    (c d : ℕ) (xs : List ℕ) → holds d xs ≡ true → (holds d (without c xs) ≡ true) ⊎ (c ≡ d)
unfolding holds without
holds-without c d [] h = cc
holds-without c d (x ∷ xs) h = elim (Bool-cases (holds d xs)) [
  | inl k ↦ ground (arith, h, k, holds-without c d xs k)
  | inr k ↦ ground (arith, h, k)
]

begin-IsAccounted : (s : SessionManager) → IsAccounted s → IsAccounted (begin_new s)
unfolding begin_new
begin-IsAccounted s k c l = ground (arith, k c)

made-IsAccounted : (b : Bool) (s : SessionManager) → IsAccounted s → IsAccounted (context_made b s)
unfolding holds
made-IsAccounted true s k c l = ground (arith, l, k c)
made-IsAccounted false s k c l = k c l

answered-IsAccounted :
    (n : ℕ) (b : Bool) (s : SessionManager) → IsAccounted s → IsAccounted (answered n b s)
answered-IsAccounted zero b s k = k
answered-IsAccounted (suc n) b s k = made-IsAccounted b (record s { waiting = n }) k

criteria-IsAccounted :
    (met creates : Bool) (s : SessionManager)
    → IsAccounted s
    → IsAccounted (after_criteria met creates s)
unfolding after_criteria
criteria-IsAccounted met creates s k = answered-IsAccounted s.waiting (met && creates) s k

started-IsAccounted :
    (c : ℕ) (o : StartOutcome) (s : SessionManager) (d : ℕ)
    → (accounted d s ≡ true) ⊎ (c ≡ d)
    → accounted d (started c o s) ≡ true
unfolding holds
started-IsAccounted c start_raises s d h = ground (arith, h)
started-IsAccounted c ends_at_once s d h = ground (arith, h)
started-IsAccounted c cleans_unseen s d h = ground (arith, h)
started-IsAccounted c runs_on s d h = ground (arith, h)

created-started :
    (c : ℕ) (o : StartOutcome) (s : SessionManager) → (started c o s).created ≡ s.created
created-started c start_raises s = refl
created-started c ends_at_once s = refl
created-started c cleans_unseen s = refl
created-started c runs_on s = refl

-- A context that was accounted for still is when one is taken from the calls or the sessions, or it is
-- the one that was taken.
taken_pending :
    (c d : ℕ) (s : SessionManager)
    → accounted d s ≡ true
    → (accounted d (record s { pending = without c s.pending }) ≡ true) ⊎ (c ≡ d)
taken_pending c d s h = elim (Bool-cases (holds d s.pending)) [
  | inl p ↦ ground (arith, p, holds-without c d s.pending p)
  | inr p ↦ inl (ground (arith, p, h))
]

taken_running :
    (c d : ℕ) (s : SessionManager)
    → accounted d s ≡ true
    → (accounted d (record s { running = without c s.running }) ≡ true) ⊎ (c ≡ d)
taken_running c d s h = elim (Bool-cases (holds d s.running)) [
  | inl p ↦ ground (arith, p, holds-without c d s.running p)
  | inr p ↦ inl (ground (arith, p, h))
]

destroyed-accounted :
    (c d : ℕ) (s : SessionManager)
    → (accounted d s ≡ true) ⊎ (c ≡ d)
    → accounted d (destroy c s) ≡ true
unfolding holds
destroyed-accounted c d s h = ground (arith, h)

guarded :
    (b : Bool) (s t : SessionManager)
    → IsAccounted s
    → IsAccounted t
    → IsAccounted (if b then s else t)
guarded true s t k k' = k
guarded false s t k k' = k'

lock-IsAccounted :
    (c : ℕ) (o : StartOutcome) (s : SessionManager) → IsAccounted s → IsAccounted (with_lock c o s)
unfolding with_lock
lock-IsAccounted c o s k =
    let s1 = record s { pending = without c s.pending } in
    guarded (holds c s.pending) _ s
      (guarded (is_session_active s) (destroy c s1) (started c o s1)
        (λ d l. destroyed-accounted c d s1 (taken_pending c d s (k d l)))
        (λ d l.
          started-IsAccounted c o s1 d
            (taken_pending c d s (k d (subst (λ n. d < n) (created-started c o s1) l)))))
      k

cleans-IsAccounted :
    (c : ℕ) (ok : Bool) (s : SessionManager)
    → IsAccounted s
    → IsAccounted (cleanup_active_session c ok s)
unfolding cleanup_active_session
cleans-IsAccounted c ok s k =
    let s0 = record s { running = without c s.running; cleaning = c ∷ s.cleaning } in
    let s1 = destroy c s0 in
    let k1 =
      λ (d : ℕ) (l : d < s.created). destroyed-accounted c d s0 (taken_running c d s (k d l)) in
    guarded (holds c s.running) _ s (guarded ok (record s1 { active_session = none }) s1 k1 k1) k

terminate-IsAccounted : (s : SessionManager) → IsAccounted s → IsAccounted (terminate s)
unfolding terminate
terminate-IsAccounted s k = elim (Option-cases s.active_session) [
  | inl h ↦ rw h k
  | inr (a, h) ↦ rw h k
]

steps-IsAccounted :
    (is : List SessionInput) (s : SessionManager) → IsAccounted s → IsAccounted (session_steps is s)
unfolding session_steps session_step end_thread
steps-IsAccounted [] s k = k
steps-IsAccounted (new_session ∷ is) s k = steps-IsAccounted is _ (begin-IsAccounted s k)
steps-IsAccounted (criteria_answered met creates ∷ is) s k =
    steps-IsAccounted is _ (criteria-IsAccounted met creates s k)
steps-IsAccounted (lock_taken c o ∷ is) s k = steps-IsAccounted is _ (lock-IsAccounted c o s k)
steps-IsAccounted (runner_cleans c ok ∷ is) s k =
    steps-IsAccounted is _ (cleans-IsAccounted c ok s k)
steps-IsAccounted (runner_ends c ∷ is) s k = steps-IsAccounted is _ k
steps-IsAccounted (terminate_session ∷ is) s k = steps-IsAccounted is _ (terminate-IsAccounted s k)

-- However calls of new_session, cleanups, ends of threads and terminations interleave, from the start on: a context
-- that was created, is not held by a call and is not used by a running session was given to destroy_session.
pub no_context_leaks :
    (is : List SessionInput) (c : ℕ)
    → c < (session_steps is no_sessions).created
    → holds c (session_steps is no_sessions).pending ≡ false
    → holds c (session_steps is no_sessions).running ≡ false
    → holds c (session_steps is no_sessions).destroyed ≡ true
no_context_leaks is c l p v =
    ground (arith, p, v, steps-IsAccounted is no_sessions (λ d h. absurd (omega (arith, h))) c l)
