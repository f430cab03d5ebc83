-- ===== src/Prelude/Bytes.antt =====
-- Python's bytes: a list of numbers below 256, slices of it, and integers as big-endian bytes.
use Prim.Native.Nat.{ℕ, zero, suc, ◌+◌, ◌-◌, ◌*◌, ◌/◌, ◌%◌, ◌^◌, ◌<◌, ◌≤◌}
use mathlib.Core.Path.{◌≡◌, refl, ap, sym, ◌∙◌}
use mathlib.Core.List.{List, [], ◌∷◌, ◌++◌, append-nil, append_assoc}
use mathlib.Core.Logic.{◌⊎◌, inl, inr}
use mathlib.Core.Bool.{Bool, true, false, ◌&&◌}
use native.Mathlib.Omega.{arith}
use native.Mathlib.Nat.{mul-le-mul_right, pow-suc}
use animacharacter_dev_src.Prelude.Lists.{length, take, drop, All, length-append}
use animacharacter_dev_src.Prelude.Outcomes.{Result, ok, raised, Exc, overflow_error, ok-inj}
use animacharacter_dev_src.Prelude.Tests.{Bool-cases, ltb, ◌==◌, if◌then◌else◌}

abbrev pub Bytes : Type 0
Bytes = List ℕ

abbrev pub IsBytes : Bytes → Type 0
IsBytes = All (λ b. b < 256)

-- data[:-n] and data[-n:], for 0 < n
abbrev pub take_back : ℕ → Bytes → Bytes
take_back n bs = take (length bs - n) bs

abbrev pub drop_back : ℕ → Bytes → Bytes
drop_back n bs = drop (length bs - n) bs

-- the `size` low bytes of a number, the highest first
unfoldable pub big_endian : ℕ → ℕ → Bytes
big_endian zero n = []
big_endian (suc size) n = big_endian size (n / 256) ++ n % 256 ∷ []

-- n.to_bytes(size, "big")
unfoldable pub to_bytes : ℕ → ℕ → Result Exc Bytes
to_bytes size n = if ltb n (256 ^ size) then ok (big_endian size n) else raised overflow_error

unfoldable pub from_bytes_after : ℕ → Bytes → ℕ
from_bytes_after acc [] = acc
from_bytes_after acc (b ∷ bs) = from_bytes_after (acc * 256 + b) bs

-- int.from_bytes(bs, "big")
unfoldable pub from_bytes : Bytes → ℕ
from_bytes bs = from_bytes_after 0 bs

pub length-big_endian : (size n : ℕ) → length (big_endian size n) ≡ size
unfolding big_endian
length-big_endian zero n = refl
length-big_endian (suc size) n = omega (
  arith,
  length-append (big_endian size (n / 256)) (n % 256 ∷ []),
  length-big_endian size (n / 256),
)

from_bytes_after-append :
    (acc : ℕ) (xs ys : Bytes)
    → from_bytes_after acc (xs ++ ys) ≡ from_bytes_after (from_bytes_after acc xs) ys
unfolding from_bytes_after
from_bytes_after-append acc [] ys = refl
from_bytes_after-append acc (x ∷ xs) ys = from_bytes_after-append (acc * 256 + x) xs ys

pub from_bytes-big_endian : (size n : ℕ) → n < 256 ^ size → from_bytes (big_endian size n) ≡ n
unfolding big_endian from_bytes from_bytes_after
from_bytes-big_endian zero n h = omega arith
from_bytes-big_endian (suc size) n h =
    from_bytes_after-append 0 (big_endian size (n / 256)) (n % 256 ∷ [])
    ∙ omega (arith, from_bytes-big_endian size (n / 256) (omega arith))

low_byte : (b k acc : ℕ) → b < 256 → big_endian (suc k) (acc * 256 + b) ≡ big_endian k acc ++ b ∷ []
unfolding big_endian
low_byte b k acc h = λ i. big_endian k (higher i) ++ lower i ∷ []
  where
    higher : (acc * 256 + b) / 256 ≡ acc
    higher = omega (arith, h)

    lower : (acc * 256 + b) % 256 ≡ b
    lower = omega (arith, h)

-- Writing at full length a number read from bytes gives them back.
big_endian-from_bytes_after :
    (bs : Bytes) (k acc size : ℕ)
    → IsBytes bs
    → size ≡ length bs + k
    → big_endian size (from_bytes_after acc bs) ≡ big_endian k acc ++ bs
unfolding from_bytes_after
big_endian-from_bytes_after [] k acc size h fits =
    rw (cong_size fits) (sym (append-nil (big_endian k acc)))
  where
    cong_size : size ≡ 0 + k → size ≡ k
    cong_size e = omega (arith, e)
big_endian-from_bytes_after (b ∷ bs) k acc size h fits =
    big_endian-from_bytes_after bs (suc k) (acc * 256 + b) size h.1 (omega (arith, fits))
    ∙ ap (λ d. d ++ bs) (low_byte b k acc h.0)
    ∙ append_assoc (big_endian k acc) (b ∷ []) bs

pub big_endian-from_bytes : (bs : Bytes) → IsBytes bs → big_endian (length bs) (from_bytes bs) ≡ bs
unfolding from_bytes big_endian
big_endian-from_bytes bs h = big_endian-from_bytes_after bs 0 0 (length bs) h (omega arith)

from_bytes_after_bound :
    (bs : Bytes) (acc : ℕ) → IsBytes bs → from_bytes_after acc bs < (acc + 1) * 256 ^ length bs
unfolding from_bytes_after
from_bytes_after_bound [] acc h = omega arith
from_bytes_after_bound (b ∷ bs) acc h =
    next_digit (from_bytes_after (acc * 256 + b) bs) h.0
      (from_bytes_after_bound bs (acc * 256 + b) h.1)
  where
    next_digit :
        (x : ℕ)
        → b < 256
        → x < (acc * 256 + b + 1) * 256 ^ length bs
        → x < (acc + 1) * 256 ^ suc (length bs)
    next_digit x e g =
        rw (pow-suc 256 (length bs)) omega (arith, g, mul-le-mul_right (256 ^ length bs) (below e))
      where
        below : b < 256 → acc * 256 + b + 1 ≤ (acc + 1) * 256
        below e = omega (arith, e)

pub from_bytes_bound : (bs : Bytes) → IsBytes bs → from_bytes bs < 256 ^ length bs
unfolding from_bytes
from_bytes_bound bs h = omega (arith, from_bytes_after_bound bs 0 h)

pub to_bytes-cases :
    (size n : ℕ)
    → ((256 ^ size ≤ n) × (to_bytes size n ≡ raised overflow_error))
      ⊎ ((n < 256 ^ size) × (to_bytes size n ≡ ok (big_endian size n)))
unfolding to_bytes
to_bytes-cases size n = elim (Bool-cases (ltb n (256 ^ size))) [
  | inl h ↦ inr ground (arith, h)
  | inr h ↦ inl ground (arith, h)
]

-- to_bytes gives back the bytes that a number was read from.
pub to_bytes-from_bytes :
    (size : ℕ) (bs : Bytes) → IsBytes bs → size ≡ length bs → to_bytes size (from_bytes bs) ≡ ok bs
unfolding to_bytes
to_bytes-from_bytes size bs h fits =
    rw fits (ground (arith, from_bytes_bound bs h, big_endian-from_bytes bs h))

-- What to_bytes returns has the size asked for and is read back.
pub to_bytes_reads :
    (size n : ℕ) (bs : Bytes) → to_bytes size n ≡ ok bs → (length bs ≡ size) × (from_bytes bs ≡ n)
to_bytes_reads size n bs h = elim (to_bytes-cases size n) [
  | inl (_, q) ↦ absurd (ground (arith, h, q))
  | inr (fits, q) ↦
      rw (sym (ok-inj (sym q ∙ h))) (length-big_endian size n, from_bytes-big_endian size n fits)
]

-- a == b on bytes
unfoldable pub same_bytes : Bytes → Bytes → Bool
same_bytes [] [] = true
same_bytes [] (c ∷ cs) = false
same_bytes (b ∷ bs) [] = false
same_bytes (b ∷ bs) (c ∷ cs) = (b == c) && same_bytes bs cs

pub same_bytes_sound : (bs cs : Bytes) → same_bytes bs cs ≡ true → bs ≡ cs
unfolding same_bytes
same_bytes_sound [] [] h = refl
same_bytes_sound [] (c ∷ cs) h = ground (arith, h)
same_bytes_sound (b ∷ bs) [] h = ground (arith, h)
same_bytes_sound (b ∷ bs) (c ∷ cs) h = ground (arith, h, same_bytes_sound bs cs)

pub same_bytes_refl : (bs : Bytes) → same_bytes bs bs ≡ true
unfolding same_bytes
same_bytes_refl [] = refl
same_bytes_refl (b ∷ bs) = ground (arith, same_bytes_refl bs)
