-- ===== src/Orchestration/Heartbeats/Timeouts.antt =====
-- orchestration/heartbeats/__init__.py: the reports of the listener and the heartbeats it received.
use animacharacter_dev_src.Prelude.{
  ℕ, ◌+◌, ◌≤◌, ◌≡◌, refl, false, not, ◌&&◌, ◌||◌, String, String-discrete, string_key, Float,
  Option, none, some, List, [], ◌∷◌, ◌++◌, if◌then◌else◌, ite, arith, ap,
}
use animacharacter_dev_src.Prelude.Dict.{Dict, get}
use animacharacter_dev_src.Prelude.Dict.Laws.{get-put, IsDict, put-IsDict}
use animacharacter_dev_src.Orchestration.Heartbeats.{
  Heartbeat, HbEntry, HeartbeatListener, HbInput, beat, check, no_heartbeats, heartbeat_received,
  is_overdue, check_entries, check_heartbeats, listen,
}

-- How often a name stands in a list.
abbrev pub count : String → List String → ℕ
count n [] = 0
count n (x ∷ xs) = ite (String-discrete x n) 1 0 + count n xs

count-append : (n : String) (xs ys : List String) → count n (xs ++ ys) ≡ count n xs + count n ys
count-append n [] ys = omega arith
count-append n (x ∷ xs) ys = omega (arith, count-append n xs ys)

module _ {F : Type 0} where
  -- How many heartbeats with a name are among some inputs.
  abbrev pub beats : String → List (F × HbInput F) → ℕ
  beats n [] = 0
  beats n ((now, beat hb) ∷ is) = ite (String-discrete hb.name n) 1 0 + beats n is
  beats n ((now, check) ∷ is) = beats n is

  -- 1 for an entry whose deadline has not been reported
  abbrev pending : Option (HbEntry F) → ℕ
  pending none = 0
  pending (some e) = if e.reported then 0 else 1

module _ {F : Type 0} ⦃o : Float F⦄ where
  -- The entry after a check at `now`.
  abbrev pub checked : F → Option (HbEntry F) → Option (HbEntry F)
  checked now none = none
  checked now (some e) = some (record e { reported = e.reported || o.lt_f e.deadline now })

  abbrev overdue : F → Option (HbEntry F) → ℕ
  overdue now none = 0
  overdue now (some e) = if is_overdue now e then 1 else 0

  get-check_entries :
      (now : F) (d : Dict String (HbEntry F)) (n : String)
      → get (check_entries now d).0 n ≡ checked now (get d n)
  unfolding check_entries get is_overdue
  get-check_entries now [] n = refl
  get-check_entries now ((m, e) ∷ d) n = ground (arith, get-check_entries now d n)

  check_entries-IsDict :
      (now : F) (d : Dict String (HbEntry F)) → IsDict d → IsDict (check_entries now d).0
  unfolding check_entries
  check_entries-IsDict now [] u = tt
  check_entries-IsDict now ((m, e) ∷ d) u =
      ground (arith, get-check_entries now d m, check_entries-IsDict now d u.1)

  count-check_entries :
      (now : F) (d : Dict String (HbEntry F)) (n : String)
      → IsDict d
      → count n (check_entries now d).1 ≡ overdue now (get d n)
  unfolding check_entries get
  count-check_entries now [] n u = refl
  count-check_entries now ((m, e) ∷ d) n u = ground (arith, count-check_entries now d n u.1)

  -- A check at `now` of a table with no name twice marks exactly the entries whose deadline lies before
  -- `now` as reported, keeps every deadline, and reports a name once if its entry was unreported and
  -- overdue, and not at all otherwise.
  pub check_heartbeats_exact :
      (now : F) (l : HeartbeatListener F) (n : String)
      → IsDict l.heartbeats
      → (get (check_heartbeats now l).heartbeats n ≡ checked now (get l.heartbeats n))
        × (count n (check_heartbeats now l).reports
            ≡ count n l.reports + elim (get l.heartbeats n) [
              | none ↦ 0
              | some e ↦ if not e.reported && o.lt_f e.deadline now then 1 else 0
            ])
  unfolding check_heartbeats is_overdue
  check_heartbeats_exact now l n u = (
    get-check_entries now l.heartbeats n,
    rw (count-append, count-check_entries now l.heartbeats n u),
  )

  overdue-pending :
      (now : F) (x : Option (HbEntry F)) → overdue now x + pending (checked now x) ≤ pending x
  unfolding is_overdue
  overdue-pending now none = omega arith
  overdue-pending now (some e) = ground arith

  pending-received :
      (now : F) (hb : Heartbeat F) (l : HeartbeatListener F) (n : String)
      → pending (get (heartbeat_received now hb l).heartbeats n)
        ≤ pending (get l.heartbeats n) + ite (String-discrete hb.name n) 1 0
  unfolding heartbeat_received
  pending-received now hb l n = ground (
    arith,
    get-put l.heartbeats hb.name n
        (record { deadline = o.add_f now hb.next_within; reported = false }),
  )

  received-IsDict :
      (now : F) (hb : Heartbeat F) (l : HeartbeatListener F)
      → IsDict l.heartbeats
      → IsDict (heartbeat_received now hb l).heartbeats
  unfolding heartbeat_received
  received-IsDict now hb l u = put-IsDict l.heartbeats hb.name _ u

  reports-received :
      (now : F) (hb : Heartbeat F) (l : HeartbeatListener F)
      → (heartbeat_received now hb l).reports ≡ l.reports
  unfolding heartbeat_received
  reports-received now hb l = refl

  pending-check :
      (now : F) (l : HeartbeatListener F) (n : String)
      → IsDict l.heartbeats
      → count n (check_heartbeats now l).reports
          + pending (get (check_heartbeats now l).heartbeats n)
        ≤ count n l.reports + pending (get l.heartbeats n)
  unfolding check_heartbeats
  pending-check now l n u =
      rw
        (
          count-append,
          count-check_entries now l.heartbeats n u,
          get-check_entries now l.heartbeats n,
        )
        (omega (arith, overdue-pending now (get l.heartbeats n)))

  checked-IsDict :
      (now : F) (l : HeartbeatListener F)
      → IsDict l.heartbeats
      → IsDict (check_heartbeats now l).heartbeats
  unfolding check_heartbeats
  checked-IsDict now l u = check_entries-IsDict now l.heartbeats u

  reports-listen :
      (is : List (F × HbInput F)) (l : HeartbeatListener F) (n : String)
      → IsDict l.heartbeats
      → count n (listen is l).reports
        ≤ count n l.reports + pending (get l.heartbeats n) + beats n is
  unfolding listen
  reports-listen [] l n u = omega arith
  reports-listen ((now, beat hb) ∷ is) l n u = omega (
    arith,
    reports-listen is (heartbeat_received now hb l) n (received-IsDict now hb l u),
    pending-received now hb l n,
    ap (count n) (reports-received now hb l),
  )
  reports-listen ((now, check) ∷ is) l n u = omega (
    arith,
    reports-listen is (check_heartbeats now l) n (checked-IsDict now l u),
    pending-check now l n u,
  )

  -- Whatever heartbeats and checks come, at whatever times: a listener that starts empty reports a
  -- name at most as often as it has received a heartbeat from it.
  pub reports-le-beats :
      (is : List (F × HbInput F)) (n : String)
      → count n (listen is no_heartbeats).reports ≤ beats n is
  unfolding get
  reports-le-beats is n = omega (arith, reports-listen is no_heartbeats n tt)
