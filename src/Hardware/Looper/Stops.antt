-- ===== src/Hardware/Looper/Stops.antt =====
-- hardware_mng/looper/looper_util.py: stopping and counting loops.
use animacharacter_dev_src.Prelude.{
  suc, ◌+◌, ◌≡◌, refl, ◌∙◌, ap, true, false, not, ◌&&◌, nat_key, Option, none, some, List, [], ◌∷◌,
  length, Bool-cases, inl, inr, arith,
}
use animacharacter_dev_src.Prelude.Dict.{values}
use animacharacter_dev_src.Hardware.Looper.{
  LoopDescriptor, LoopSupervisor, JobOutcome, returned, crashed, LoopAction, pause, stop, continue,
  Point, at_test, at_wait, in_job, gone, is_running, loop_step, loop_steps, after_job, Signal, emit,
  obey, caught, step_at, end_iteration, request_loop_stop, stop_and_join, status, count_loops,
}

module _ {F : Type 0} where
  -- A loop that was told to stop.
  abbrev Stopping : LoopDescriptor F → Type 0
  Stopping l = (l.run ≡ false) × (l.wait ≡ true)

  still :
      (p : Option Point) (o : JobOutcome) (l : LoopDescriptor F)
      → l.thread ≡ p
      → is_running l ≡ false
      → is_running (loop_step o l) ≡ false
  unfolding loop_step is_running
  still none o l t h = rw t refl
  still (some gone) o l t h = rw t refl
  still (some at_test) o l t h = absurd (cc (rw t at h))
  still (some at_wait) o l t h = absurd (cc (rw t at h))
  still (some in_job) o l t h = absurd (cc (rw t at h))

  steps_still :
      (os : List JobOutcome) (l : LoopDescriptor F)
      → is_running l ≡ false
      → is_running (loop_steps os l) ≡ false
  unfolding loop_steps
  steps_still [] l h = h
  steps_still (o ∷ os) l h = steps_still os (loop_step o l) (still l.thread o l refl h)

  emitted_run : (x : Option Signal) (l : LoopDescriptor F) → (emit x l).run ≡ l.run
  emitted_run none l = refl
  emitted_run (some s) l = elim (Bool-cases l.has_signal_handler) [
    | inl h ↦ rw h refl
    | inr h ↦ rw h refl
  ]

  obeyed_run : (a : LoopAction) (l : LoopDescriptor F) → l.run ≡ false → (obey a l).run ≡ false
  obeyed_run pause l h = h
  obeyed_run stop l h = refl
  obeyed_run continue l h = h

  caught_run : (l : LoopDescriptor F) → (caught l).run ≡ l.run
  caught_run l = elim (Bool-cases l.has_exception_cb) [ inl h ↦ rw h refl | inr h ↦ rw h refl ]

  ended : (l : LoopDescriptor F) → l.run ≡ false → is_running (end_iteration l) ≡ false
  unfolding is_running
  ended l h = rw h refl

  job_ends :
      (o : JobOutcome) (l : LoopDescriptor F) → l.run ≡ false → is_running (after_job o l) ≡ false
  unfolding after_job
  job_ends (returned none) l h = ended l h
  job_ends (returned (some r)) l h =
      ended (emit r.signal (obey r.action l))
        (emitted_run r.signal (obey r.action l) ∙ obeyed_run r.action l h)
  job_ends crashed l h = ended (caught l) (caught_run l ∙ h)

  -- A thread that is told to stop ends in two steps.
  two_steps :
      (p : Option Point) (o1 o2 : JobOutcome) (l : LoopDescriptor F)
      → l.thread ≡ p
      → Stopping l
      → is_running (loop_step o2 (loop_step o1 l)) ≡ false
  unfolding loop_step is_running
  two_steps none o1 o2 l t s =
      still (loop_step o1 l).thread o2 (loop_step o1 l) refl (still none o1 l t (rw t refl))
  two_steps (some gone) o1 o2 l t s =
      still (loop_step o1 l).thread o2 (loop_step o1 l) refl (still (some gone) o1 l t (rw t refl))
  two_steps (some at_test) o1 o2 l t (r, w) = rw (t, r) refl
  two_steps (some at_wait) o1 o2 l t (r, w) = rw (t, w) (job_ends o2 _ r)
  two_steps (some in_job) o1 o2 l t (r, w) =
      still (loop_step o1 l).thread o2 (loop_step o1 l) refl
        (ap is_running (ap (λ p. step_at p o1 l) t) ∙ job_ends o1 l r)

  -- However a loop's thread stands, and whatever its job does then: once the loop was told to stop, the
  -- thread ends within two of its own steps, and stop_loop reports success if the join lasts so long.
  pub stop_and_join-stops :
      (o1 o2 : JobOutcome) (os : List JobOutcome) (l : LoopDescriptor F)
      → ((stop_and_join (o1 ∷ o2 ∷ os) l).1 ≡ true)
        × (is_running (stop_and_join (o1 ∷ o2 ∷ os) l).0 ≡ false)
  unfolding stop_and_join request_loop_stop loop_steps
  stop_and_join-stops o1 o2 os l = elim (Bool-cases (is_running l)) [
    | inl h ↦ rw h (
        let n =
          steps_still os _
            (two_steps l.thread o1 o2 (record l { run = false; wait = true }) refl (refl, refl)) in
        (ap not n, n))
    | inr h ↦ rw h (let n = steps_still (o1 ∷ o2 ∷ os) l h in (ap not n, n))
  ]

  -- A thread that is blocked in a paused loop runs the job once more when the loop is stopped.
  pub stop_runs_paused_job :
      (o : JobOutcome) (l : LoopDescriptor F)
      → l.thread ≡ some at_wait
      → l.wait ≡ false
      → (stop_and_join (o ∷ []) l).0.jobs_run ≡ suc l.jobs_run
  unfolding stop_and_join request_loop_stop loop_steps loop_step is_running
  stop_runs_paused_job o l t w = rw t refl

module _ {F : Type 0} where
  count-split :
      (ls : List (LoopDescriptor F))
      → count_loops (λ l. is_running l && l.wait) ls
          + count_loops (λ l. is_running l && not l.wait) ls
        ≡ count_loops is_running ls
  unfolding count_loops
  count-split [] = omega arith
  count-split (l ∷ ls) = ground (arith, count-split ls)

  count-stopped :
      (ls : List (LoopDescriptor F))
      → count_loops is_running ls + count_loops (λ l. not (is_running l)) ls ≡ length ls
  unfolding count_loops
  count-stopped [] = omega arith
  count-stopped (l ∷ ls) = ground (arith, count-stopped ls)

  -- The status counts every loop of the pool once: those that run, those that are paused while their
  -- thread is alive, and as stopped exactly those whose thread is not alive.
  pub status-partition :
      (s : LoopSupervisor F)
      → ((status s).1 + (status s).2 + (status s).3 ≡ (status s).0)
        × ((status s).3 ≡ count_loops (λ l. not (is_running l)) (values s.loop_pool))
  unfolding status
  status-partition s = (
    omega (arith, count-split (values s.loop_pool), count-stopped (values s.loop_pool)),
    omega (arith, count-split (values s.loop_pool), count-stopped (values s.loop_pool)),
  )
