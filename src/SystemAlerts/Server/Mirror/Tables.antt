-- ===== src/SystemAlerts/Server/Mirror/Tables.antt =====
-- Tables of alerts of system_alerts/server.py and client.py that agree.
use animacharacter_dev_src.Prelude.{
  ◌≡◌, refl, Bool, true, ◌&&◌, equal, Key, string_key, Float, Option, some, [], ◌∷◌, arith, inl,
  inr, ◌⊎◌, ℤ, int_key,
}
use animacharacter_dev_src.Prelude.Dict.{Dict, get, put, remove}
use mathlib.Core.Logic.{ite}
use animacharacter_dev_src.SystemAlerts.Alert.{Alert, alert_eq}
use animacharacter_dev_src.SystemAlerts.Transport.{Fits}
use animacharacter_dev_src.SystemAlerts.Server.{same_as}

equal_trans :
    {K : Type 0} ⦃e : Key K⦄ (x y z : K) → equal x y ≡ true → equal y z ≡ true → equal x z ≡ true
equal_trans x y z h k = ground (arith, h, k)

both :
    {a b c p q r : Bool}
    → (a ≡ true → b ≡ true → c ≡ true)
    → (p ≡ true → q ≡ true → r ≡ true)
    → (a && p) ≡ true
    → (b && q) ≡ true
    → (c && r) ≡ true
both f g h k = ground (arith, f, g, h, k)

-- Two tests of the same decision.
by_ite :
    {A : Type 0} {C D : Type 0} (R : C → D → Type 0) (same : Dec A) (x y : C) (v w : D)
    → R x v
    → R y w
    → R (ite same x y) (ite same v w)
by_ite R (yes _) x y v w h k = h
by_ite R (no _) x y v w h k = k

module _ {F : Type 0} where
  abbrev pub AreFit : Dict ℤ (Alert F) → Type 0
  AreFit [] = Unit
  AreFit ((k, a) ∷ d) = Fits a × AreFit d

  pub put-AreFit :
      (d : Dict ℤ (Alert F)) (k : ℤ) (a : Alert F) → Fits a → AreFit d → AreFit (put d k a)
  unfolding put
  put-AreFit [] k a fits h = (fits, tt)
  put-AreFit ((j, b) ∷ d) k a fits h =
      by_ite (λ x (y : Unit). AreFit x) (int_key.same j k) _ _ tt tt (fits, h.1)
        (h.0, put-AreFit d k a fits h.1)

  pub remove-AreFit : (d : Dict ℤ (Alert F)) (k : ℤ) → AreFit d → AreFit (remove d k)
  unfolding remove
  remove-AreFit [] k h = tt
  remove-AreFit ((j, b) ∷ d) k h =
      by_ite (λ x (y : Unit). AreFit x) (int_key.same j k) _ _ tt tt (remove-AreFit d k h.1)
        (h.0, remove-AreFit d k h.1)

  pub get-AreFit :
      (d : Dict ℤ (Alert F)) (k : ℤ) (a : Alert F) → AreFit d → get d k ≡ some a → Fits a
  unfolding get
  get-AreFit [] k a h q = absurd (cc q)
  get-AreFit ((j, b) ∷ d) k a h q = ground (arith, h.0, get-AreFit d k a h.1)

module _ {F : Type 0} ⦃o : Float F⦄ where
  -- the same alert, or alerts that compare equal
  abbrev pub Same : Alert F → Alert F → Type 0
  Same a b = (a ≡ b) ⊎ (alert_eq a b ≡ true)

  -- The same codes in the same order, with the same alerts.
  abbrev pub AreSame : Dict ℤ (Alert F) → Dict ℤ (Alert F) → Type 0
  AreSame [] [] = Unit
  AreSame [] (y ∷ e) = ⊥
  AreSame (x ∷ d) [] = ⊥
  AreSame ((j, a) ∷ d) ((k, b) ∷ e) = (j ≡ k) × Same a b × AreSame d e

  pub put-AreSame :
      (d e : Dict ℤ (Alert F)) (k : ℤ) (a : Alert F) → AreSame d e → AreSame (put d k a) (put e k a)
  unfolding put
  put-AreSame [] [] k a h = (refl, inl refl, tt)
  put-AreSame [] (y ∷ e) k a h = absurd h
  put-AreSame (x ∷ d) [] k a h = absurd h
  put-AreSame ((j, b) ∷ d) ((i, c) ∷ e) k a h = rw h.0 (
      by_ite AreSame (int_key.same i k) _ _ _ _ (refl, inl refl, h.2)
        (refl, h.1, put-AreSame d e k a h.2))

  pub remove-AreSame :
      (d e : Dict ℤ (Alert F)) (k : ℤ) → AreSame d e → AreSame (remove d k) (remove e k)
  unfolding remove
  remove-AreSame [] [] k h = tt
  remove-AreSame [] (y ∷ e) k h = absurd h
  remove-AreSame (x ∷ d) [] k h = absurd h
  remove-AreSame ((j, b) ∷ d) ((i, c) ∷ e) k h = rw h.0 (
      by_ite AreSame (int_key.same i k) _ _ _ _ (remove-AreSame d e k h.2)
        (refl, h.1, remove-AreSame d e k h.2))

module _ {F : Type 0} ⦃o : Float F⦄
    (eq_trans : (x y z : F) → o.eq_f x y ≡ true → o.eq_f y z ≡ true → o.eq_f x z ≡ true) where
  alert_eq_trans :
      (a b c : Alert F) → alert_eq a b ≡ true → alert_eq b c ≡ true → alert_eq a c ≡ true
  unfolding alert_eq
  alert_eq_trans a b c =
      both
        (both
          (both
            (both
              (both
                (both (equal_trans ⦃e = int_key⦄ a.level b.level c.level)
                  (equal_trans ⦃e = string_key⦄ a.src b.src c.src))
                (equal_trans ⦃e = int_key⦄ a.code b.code c.code))
              (eq_trans a.ttl b.ttl c.ttl))
            (equal_trans ⦃e = int_key⦄ a.subcode b.subcode c.subcode))
          (equal_trans ⦃e = string_key⦄ a.brief b.brief c.brief))
        (equal_trans ⦃e = string_key⦄ a.description b.description c.description)

  Same-trans : (a b c : Alert F) → Same a b → alert_eq b c ≡ true → Same a c
  Same-trans a b c (inl h) k = inr (rw h k)
  Same-trans a b c (inr h) k = inr (alert_eq_trans a b c h k)

  -- The test of one entry: it is the code's, or the code is looked for in the rest.
  placed :
      {A : Type 0} (same : Dec A) {i : ℤ} (j : ℤ) (b c a : Alert F) (d e e' : Dict ℤ (Alert F))
      (found : Option (Alert F))
      → AreSame ((j, b) ∷ d) ((i, c) ∷ e)
      → (same_as a found ≡ true → AreSame d e')
      → same_as a (ite same (some c) found) ≡ true
      → AreSame ((j, b) ∷ d) (ite same ((i, a) ∷ e) ((i, c) ∷ e'))
  placed (yes _) j b c a d e e' found h later q = (h.0, Same-trans b c a h.1 q, h.2)
  placed (no _) j b c a d e e' found h later q = (h.0, h.1, later q)

  -- An alert that compares equal to the one there takes its place.
  pub put-AreSame_quiet :
      (d e : Dict ℤ (Alert F)) (k : ℤ) (a : Alert F)
      → AreSame d e
      → same_as a (get e k) ≡ true
      → AreSame d (put e k a)
  unfolding put get
  put-AreSame_quiet [] [] k a h q = absurd (cc q)
  put-AreSame_quiet [] (y ∷ e) k a h q = absurd h
  put-AreSame_quiet (x ∷ d) [] k a h q = absurd h
  put-AreSame_quiet ((j, b) ∷ d) ((i, c) ∷ e) k a h q =
      placed (int_key.same i k) j b c a d e _ _ h (put-AreSame_quiet d e k a h.2) q
