-- ===== src/Sessions/Manager.antt =====
-- session/session_manager.py, with the parts of session/runner.py and session/resource_manager.py that it
-- uses. A context is known by its number in the order of creation, and so is the handle made for it. A
-- call of new_session is cut where it awaits its criteria and where it takes the lock again.
pub mod Contexts
pub mod Exclusion
pub mod Overlap
use animacharacter_dev_src.Prelude.{
  ℕ, zero, suc, ◌==◌, Bool, true, false, ◌&&◌, Option, none, some, List, [], ◌∷◌, if◌then◌else◌,
}

-- `waiting` calls of new_session wait for the criteria; `pending` are the contexts that calls have made
-- and hold before they take the lock; `running` are those whose runner thread has not called
-- `_cleanup_active_session`; `cleaning` are those whose thread has, and goes on with the cleanup
-- callbacks after it; `destroyed` are those that destroy_session was called on, the latest call first.
pub record SessionManager : Type 0 where
  pub active_session : Option ℕ
  pub waiting : ℕ
  pub pending : List ℕ
  pub running : List ℕ
  pub cleaning : List ℕ
  pub stop_requested : List ℕ
  pub destroyed : List ℕ
  pub created : ℕ

-- What SessionRunner.start and the first half second of the thread come to.
pub data StartOutcome : Type 0 where
  start_raises ends_at_once cleans_unseen runs_on : StartOutcome

pub data SessionInput : Type 0 where
  new_session : SessionInput
  criteria_answered : Bool → Bool → SessionInput
  lock_taken : ℕ → StartOutcome → SessionInput
  runner_cleans : ℕ → Bool → SessionInput
  runner_ends : ℕ → SessionInput
  terminate_session : SessionInput

abbrev pub no_sessions : SessionManager
no_sessions = record {
  active_session = none;
  waiting = 0;
  pending = [];
  running = [];
  cleaning = [];
  stop_requested = [];
  destroyed = [];
  created = 0;
}

unfoldable pub holds : ℕ → List ℕ → Bool
holds c [] = false
holds c (d ∷ ds) = if d == c then true else holds c ds

unfoldable pub without : ℕ → List ℕ → List ℕ
without c [] = []
without c (d ∷ ds) = let rest = without c ds in if d == c then rest else d ∷ rest

-- is_session_active
unfoldable pub is_session_active : SessionManager → Bool
is_session_active s = elim s.active_session [ none ↦ false | some _ ↦ true ]

-- new_session up to its await: the call goes on only if no session is active
unfoldable pub begin_new : SessionManager → SessionManager
begin_new s = if is_session_active s then s else record s { waiting = suc s.waiting }

abbrev pub context_made : Bool → SessionManager → SessionManager
context_made true s = record s { pending = s.created ∷ s.pending; created = suc s.created }
context_made false s = s

abbrev pub answered : ℕ → Bool → SessionManager → SessionManager
answered zero made s = s
answered (suc n) made s = context_made made (record s { waiting = n })

-- new_session from the criteria's answer on: create_session makes a context or fails
unfoldable pub after_criteria : Bool → Bool → SessionManager → SessionManager
after_criteria met creates s = answered s.waiting (met && creates) s

-- destroy_session
abbrev pub destroy : ℕ → SessionManager → SessionManager
destroy c s = record s { destroyed = c ∷ s.destroyed }

-- A thread that ends within the half second has run the cleanup, which destroys the context, before
-- new_session destroys it for the failed start; no session is active then. One that is alive when it is
-- tested, and runs the cleanup before its handle is made the active session's, has run it, too.
abbrev pub started : ℕ → StartOutcome → SessionManager → SessionManager
started c start_raises s = destroy c s
started c ends_at_once s = destroy c (destroy c s)
started c cleans_unseen s = record (destroy c s) {
  active_session = some c;
  cleaning = c ∷ s.cleaning;
}
started c runs_on s = record s { running = c ∷ s.running; active_session = some c }

-- new_session from where it takes the lock again, holding a context
unfoldable pub with_lock : ℕ → StartOutcome → SessionManager → SessionManager
with_lock c outcome s =
    if holds c s.pending
    then (let s1 = record s { pending = without c s.pending } in
        if is_session_active s then destroy c s1 else started c outcome s1)
    else s

-- `_cleanup_active_session` in the thread of a session, after its runner and the cleanup callbacks
-- that were added before; `ok` is the success of destroy_session. The thread lives on.
unfoldable pub cleanup_active_session : ℕ → Bool → SessionManager → SessionManager
cleanup_active_session c ok s =
    if holds c s.running
    then (let s1 =
          destroy c (record s { running = without c s.running; cleaning = c ∷ s.cleaning }) in
        if ok then record s1 { active_session = none } else s1)
    else s

-- The end of `_run_session_wrapper`, after the cleanup callbacks that were added later.
unfoldable pub end_thread : ℕ → SessionManager → SessionManager
end_thread c s = record s { cleaning = without c s.cleaning }

-- terminate_session up to its join
unfoldable pub terminate : SessionManager → SessionManager
terminate s = elim s.active_session [
  | none ↦ s
  | some c ↦ record s { active_session = none; stop_requested = c ∷ s.stop_requested }
]

unfoldable pub session_step : SessionInput → SessionManager → SessionManager
session_step new_session s = begin_new s
session_step (criteria_answered met creates) s = after_criteria met creates s
session_step (lock_taken c outcome) s = with_lock c outcome s
session_step (runner_cleans c ok) s = cleanup_active_session c ok s
session_step (runner_ends c) s = end_thread c s
session_step terminate_session s = terminate s

unfoldable pub session_steps : List SessionInput → SessionManager → SessionManager
session_steps [] s = s
session_steps (i ∷ is) s = session_steps is (session_step i s)
