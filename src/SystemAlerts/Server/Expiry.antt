-- ===== src/SystemAlerts/Server/Expiry.antt =====
-- The two tables of system_alerts/server.py, and its expiry timer.
use animacharacter_dev_src.Prelude.{
  ◌≡◌, refl, ◌⊎◌, Bool, true, false, not, ◌&&◌, Float, none, some, List, [], ◌∷◌, Result, ok,
  raised, Exc, arith, if◌then◌else◌, inl, inr, Option-cases, Bool-cases, ℤ, ℤ-discrete, int_key,
  ite,
}
use animacharacter_dev_src.Prelude.Dict.{Dict, get, put, remove, has}
use animacharacter_dev_src.Prelude.Dict.Laws.{
  get-put, get-remove, IsDict, put-IsDict, remove-IsDict,
}
use animacharacter_dev_src.SystemAlerts.Alert.{Alert, AlertActionType, raise, clear}
use animacharacter_dev_src.SystemAlerts.Transport.{decode_action_message}
use animacharacter_dev_src.SystemAlerts.Server.{
  Server, Input, requested, raised_locally, cleared_locally, timer, waiting, waited, announce,
  apply_change, raise_alert, clear_alert, handle_request, clear_all, expired_alerts, expire_alerts,
  is_expired, wait_begin, wait_end, serve, serve_all, same_as, after_request,
}

module _ {F : Type 0} where
  -- Every alert stands under its own code.
  abbrev pub IsKeyed : Dict ℤ (Alert F) → Type 0
  IsKeyed [] = Unit
  IsKeyed ((code, a) ∷ d) = (a.code ≡ code) × IsKeyed d

  put-IsKeyed : (d : Dict ℤ (Alert F)) (a : Alert F) → IsKeyed d → IsKeyed (put d a.code a)
  unfolding put
  put-IsKeyed [] a h = (refl, tt)
  put-IsKeyed ((j, b) ∷ d) a h = ground (arith, put-IsKeyed d a h.1)

  remove-IsKeyed : (d : Dict ℤ (Alert F)) (k : ℤ) → IsKeyed d → IsKeyed (remove d k)
  unfolding remove
  remove-IsKeyed [] k h = tt
  remove-IsKeyed ((j, b) ∷ d) k h = ground (arith, remove-IsKeyed d k h.1)

  code_of_get :
      (d : Dict ℤ (Alert F)) (k : ℤ) (a : Alert F) → IsKeyed d → get d k ≡ some a → a.code ≡ k
  unfolding get
  code_of_get [] k a h e = cc
  code_of_get ((j, b) ∷ d) k a h e = ground (arith, code_of_get d k a h.1)

  -- The active alerts stand once each under their codes, and exactly they have a starting time.
  pub record IsWellFormed (s : Server F) : Type 0 where
    pub unique : IsDict s.active_alerts
    pub keyed : IsKeyed s.active_alerts
    pub timed : (k : ℤ) → has s.alert_started_at k ≡ has s.active_alerts k

  announce-IsWellFormed :
      (action : AlertActionType) (a : Alert F) (s : Server F)
      → IsWellFormed s
      → IsWellFormed (announce action a s)
  unfolding announce
  announce-IsWellFormed action a s w = elim (Bool-cases s.has_callback) [
    | inl h ↦ record { unique = rw h w.unique; keyed = rw h w.keyed; timed = rw h w.timed }
    | inr h ↦ record { unique = rw h w.unique; keyed = rw h w.keyed; timed = rw h w.timed }
  ]

  put-IsWellFormed :
      (now : F) (a : Alert F) (s : Server F)
      → IsWellFormed s
      → IsWellFormed (record s {
        active_alerts = put s.active_alerts a.code a;
        alert_started_at = put s.alert_started_at a.code now;
      })
  put-IsWellFormed now a s w = record {
    unique = put-IsDict s.active_alerts a.code a w.unique;
    keyed = put-IsKeyed s.active_alerts a w.keyed;
    timed = λ k. ground (
      arith,
      w.timed k,
      get-put s.active_alerts a.code k a,
      get-put s.alert_started_at a.code k now,
    );
  }

  remove-IsWellFormed :
      (k : ℤ) (s : Server F)
      → IsWellFormed s
      → IsWellFormed (record s {
        active_alerts = remove s.active_alerts k;
        alert_started_at = remove s.alert_started_at k;
      })
  remove-IsWellFormed k s w = record {
    unique = remove-IsDict s.active_alerts k w.unique;
    keyed = remove-IsKeyed s.active_alerts k w.keyed;
    timed = λ j.
        ground
          (arith, w.timed j, get-remove s.active_alerts k j, get-remove s.alert_started_at k j);
  }

module _ {F : Type 0} ⦃o : Float F⦄ where
  change-IsWellFormed :
      (now : F) (action : AlertActionType) (a : Alert F) (s : Server F)
      → IsWellFormed s
      → IsWellFormed (apply_change now action a s).0
  unfolding apply_change
  change-IsWellFormed now raise a s w = elim (Bool-cases (same_as a (get s.active_alerts a.code))) [
    | inl h ↦ rw h (put-IsWellFormed now a s w)
    | inr h ↦ rw h (announce-IsWellFormed raise a _ (put-IsWellFormed now a s w))
  ]
  change-IsWellFormed now clear a s w = elim (Bool-cases (has s.active_alerts a.code)) [
    | inl h ↦ rw h (announce-IsWellFormed clear a _ (remove-IsWellFormed a.code s w))
    | inr h ↦ rw h w
  ]

  clear_alert-IsWellFormed :
      (now : F) (code : ℤ) (s : Server F) → IsWellFormed s → IsWellFormed (clear_alert now code s)
  unfolding clear_alert
  clear_alert-IsWellFormed now code s w = elim (Option-cases (get s.active_alerts code)) [
    | inl h ↦ rw (h, clear_alert) w
    | inr (a, h) ↦ rw (h, clear_alert) (change-IsWellFormed now clear a s w)
  ]

  clear_all-IsWellFormed :
      (now : F) (alerts : List (Alert F)) (s : Server F)
      → IsWellFormed s
      → IsWellFormed (clear_all now alerts s)
  unfolding clear_all
  clear_all-IsWellFormed now [] s w = w
  clear_all-IsWellFormed now (a ∷ alerts) s w =
      clear_all-IsWellFormed now alerts (clear_alert now a.code s)
        (clear_alert-IsWellFormed now a.code s w)

  request-IsWellFormed :
      (now : F) (r : Result Exc (AlertActionType × Alert F)) (s : Server F)
      → IsWellFormed s
      → IsWellFormed (
          after_request s (elim r [
            | ok (action, alert) ↦ ok (apply_change now action alert s).0
            | raised x ↦ raised x
          ]))
  request-IsWellFormed now (ok (action, alert)) s w = change-IsWellFormed now action alert s w
  request-IsWellFormed now (raised x) s w = w

  serve-IsWellFormed : (i : F × Input F) (s : Server F) → IsWellFormed s → IsWellFormed (serve i s)
  unfolding serve handle_request raise_alert expire_alerts wait_begin wait_end
  serve-IsWellFormed (now, requested msg) s w =
      request-IsWellFormed now (decode_action_message msg) s w
  serve-IsWellFormed (now, raised_locally a) s w = change-IsWellFormed now raise a s w
  serve-IsWellFormed (now, cleared_locally code) s w = clear_alert-IsWellFormed now code s w
  serve-IsWellFormed (now, timer) s w =
      clear_all-IsWellFormed now (expired_alerts now s s.active_alerts) s w
  serve-IsWellFormed (now, waiting) s w = record {
    unique = w.unique;
    keyed = w.keyed;
    timed = w.timed;
  }
  serve-IsWellFormed (now, waited i) s w = record {
    unique = w.unique;
    keyed = w.keyed;
    timed = w.timed;
  }

  -- Every sequence of requests, local raises and clears, expiries and waits keeps the tables of the
  -- server well formed: no code twice, each alert under its code, a starting time for exactly the
  -- active codes.
  pub serve_all-IsWellFormed :
      (inputs : List (F × Input F)) (s : Server F)
      → IsWellFormed s
      → IsWellFormed (serve_all inputs s)
  unfolding serve_all
  serve_all-IsWellFormed [] s w = w
  serve_all-IsWellFormed (i ∷ inputs) s w =
      serve_all-IsWellFormed inputs (serve i s) (serve-IsWellFormed i s w)

  table-clear :
      (now : F) (a : Alert F) (s : Server F)
      → (apply_change now clear a s).0.active_alerts
        ≡ (if has s.active_alerts a.code then remove s.active_alerts a.code else s.active_alerts)
  unfolding apply_change announce
  table-clear now a s = ground arith

  get-clear_alert :
      (now : F) (code k : ℤ) (s : Server F)
      → IsWellFormed s
      → get (clear_alert now code s).active_alerts k
        ≡ ite (ℤ-discrete code k) none (get s.active_alerts k)
  unfolding clear_alert
  get-clear_alert now code k s w = elim (Option-cases (get s.active_alerts code)) [
    | inl h ↦ rw (h, clear_alert) (ground arith)
    | inr (a, h) ↦
        rw (h, clear_alert, table-clear now a s, code_of_get s.active_alerts code a w.keyed h)
          (ground (arith, get-remove s.active_alerts code k))
  ]

  -- the code is that of an alert of the list
  has_code : ℤ → List (Alert F) → Bool
  has_code k [] = false
  has_code k (a ∷ alerts) = ite (ℤ-discrete a.code k) true (has_code k alerts)

  get-clear_all :
      (now : F) (alerts : List (Alert F)) (k : ℤ) (s : Server F)
      → IsWellFormed s
      → get (clear_all now alerts s).active_alerts k
        ≡ (if has_code k alerts then none else get s.active_alerts k)
  unfolding clear_all has_code
  get-clear_all now [] k s w = refl
  get-clear_all now (a ∷ alerts) k s w = ground (
    arith,
    get-clear_all now alerts k (clear_alert now a.code s) (clear_alert-IsWellFormed now a.code s w),
    get-clear_alert now a.code k s w,
  )

  has_code-expired :
      (now : F) (k : ℤ) (s : Server F) (d : Dict ℤ (Alert F))
      → IsDict d
      → IsKeyed d
      → has_code k (expired_alerts now s d)
        ≡ elim (get d k) [ none ↦ false | some a ↦ is_expired now s k a ]
  unfolding has_code expired_alerts get
  has_code-expired now k s [] u h = refl
  has_code-expired now k s ((j, a) ∷ d) u h = ground (arith, has_code-expired now k s d u.1 h.1)

  get-expire_alerts :
      (now : F) (k : ℤ) (s : Server F)
      → IsWellFormed s
      → get (expire_alerts now s).active_alerts k ≡ (
          if elim (get s.active_alerts k) [ none ↦ false | some a ↦ is_expired now s k a ]
          then none
          else get s.active_alerts k)
  unfolding expire_alerts
  get-expire_alerts now k s w = rw (
    get-clear_all now (expired_alerts now s s.active_alerts) k s w,
    has_code-expired now k s s.active_alerts w.unique w.keyed,
  )

  -- In a well-formed server every active alert has a starting time, and when the expiry timer fires the
  -- alert is removed exactly if its time to live is not infinite and at most the time since then.
  -- Alerts under other codes are not touched, and no alert is added.
  pub expire_alerts_exact :
      (now : F) (k : ℤ) (s : Server F)
      → IsWellFormed s
      → ((get s.active_alerts k ≡ none) × (get (expire_alerts now s).active_alerts k ≡ none))
        ⊎ ((a : Alert F) × (started : F) × (get s.active_alerts k ≡ some a)
            × (get s.alert_started_at k ≡ some started)
            × (get (expire_alerts now s).active_alerts k ≡ (
                if not (o.eq_f a.ttl o.inf) && o.le_f a.ttl (o.sub_f now started)
                then none
                else some a)))
  unfolding is_expired
  expire_alerts_exact now k s w = elim (Option-cases (get s.active_alerts k)) [
    | inl p ↦ inl (p, rw (get-expire_alerts now k s w, p))
    | inr (a, p) ↦ elim (Option-cases (get s.alert_started_at k)) [
      | inl q ↦ absurd (ground (arith, w.timed k))
      | inr (t, q) ↦ inr (a, t, p, q, rw (get-expire_alerts now k s w, p, q))
    ]
  ]
