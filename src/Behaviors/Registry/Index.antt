-- ===== src/Behaviors/Registry/Index.antt =====
-- behavior_engine/registry.py: the groups and the entries side by side.
use animacharacter_dev_src.Prelude.{
  Exc, sym, ◌≡◌, refl, ◌∙◌, inl, inr, Bool, true, false, ◌&&◌, ◌||◌, String, string_key, equal,
  Option, none, some, List, [], ◌∷◌, Result, ok, raised, arith, Bool-cases, Option-cases,
}
use animacharacter_dev_src.Prelude.Dict.{Dict, get, has, put}
use animacharacter_dev_src.Prelude.Dict.Laws.{get-put}
use animacharacter_dev_src.Behaviors.Registry.{
  BehaviorEntry, BehaviorRegistry, is_in, members, add_name, add_to_groups, insert, sorted,
  register, get_entries, by_group, set_borrowed, borrow, release,
}
use animacharacter_dev_src.Behaviors.Registry.Calls.{
  register_taken, register_fresh, get_entry_found, borrow_taken, borrow_free, release_found,
  borrow_missing,
}

in-add_name : (n m : String) (s : List String) → is_in m (add_name n s) ≡ (equal n m || is_in m s)
unfolding is_in add_name
in-add_name n m s = ground (arith)

in-add_to_groups :
    (n m g : String) (gs : List String) (d : Dict String (List String))
    → is_in m (members (add_to_groups n gs d) g)
      ≡ (is_in m (members d g) || (equal n m && is_in g gs))
unfolding is_in add_to_groups
in-add_to_groups n m g [] d = ground arith
in-add_to_groups n m g (h ∷ gs) d = ground (
  arith,
  in-add_to_groups n m g gs (put d h (add_name n (members d h))),
  in-add_name n m (members d h),
  get-put d h g (add_name n (members d h)),
)

abbrev pub lists : {B M : Type 0} → String → Option (BehaviorEntry B M) → Bool
lists g none = false
lists g (some e) = is_in g e.groups

-- A name is among the members of a group exactly if its entry lists the group.
abbrev pub IsIndexed : {B M : Type 0} → BehaviorRegistry B M → Type 0
IsIndexed r = (n g : String) → is_in n (members r.groups g) ≡ lists g (get r.entries n)

-- What can be asked of a registry.
pub data RegistryInput (B M : Type 0) : Type 0 where
  registering : String → B → List String → M → RegistryInput B M
  borrowing : String → RegistryInput B M
  releasing : String → RegistryInput B M

module _ {B M : Type 0} where
  abbrev pub or_same :
      BehaviorRegistry B M → Result Exc (BehaviorRegistry B M) → BehaviorRegistry B M
  or_same r (ok r') = r'
  or_same r (raised x) = r

  -- One call; a call that raises changes nothing.
  unfoldable pub ask : RegistryInput B M → BehaviorRegistry B M → BehaviorRegistry B M
  ask (registering name b groups m) r = or_same r (register name b groups m r)
  ask (borrowing name) r = or_same r (borrow name r)
  ask (releasing name) r = or_same r (release name r)

  unfoldable pub ask_all : List (RegistryInput B M) → BehaviorRegistry B M → BehaviorRegistry B M
  ask_all [] r = r
  ask_all (i ∷ is) r = ask_all is (ask i r)

  register-IsIndexed :
      (name : String) (b : B) (groups : List String) (m : M) (r : BehaviorRegistry B M)
      → IsIndexed r
      → IsIndexed (or_same r (register name b groups m r))
  unfolding is_in
  register-IsIndexed name b groups m r k = elim (Option-cases (get r.entries name)) [
    | inr (e, h) ↦ rw (register_taken name b groups m r e h) k
    | inl h ↦ rw (register_fresh name b groups m r h) (λ n g. ground (
      arith,
      h,
      k n g,
      in-add_to_groups name n g groups r.groups,
      get-put r.entries name n
          (record { name = name; behavior = b; groups = groups; metadata = m; borrowed = false }),
    ))
  ]

  borrowed-IsIndexed :
      (v : Bool) (e : BehaviorEntry B M) (name : String) (r : BehaviorRegistry B M)
      → get r.entries name ≡ some e
      → IsIndexed r
      → IsIndexed (set_borrowed v e name r)
  borrowed-IsIndexed v e name r h k n g =
      ground (arith, h, k n g, get-put r.entries name n (record e { borrowed = v }))

  borrow-IsIndexed :
      (name : String) (r : BehaviorRegistry B M)
      → IsIndexed r
      → IsIndexed (or_same r (borrow name r))
  borrow-IsIndexed name r k = elim (Option-cases (get r.entries name)) [
    | inl h ↦ rw (borrow_missing name r h).0 k
    | inr (e, h) ↦ elim (Bool-cases e.borrowed) [
      | inl b ↦ rw (borrow_taken name r e h b) k
      | inr b ↦ rw (borrow_free name r e h b) (borrowed-IsIndexed true e name r h k)
    ]
  ]

  release-IsIndexed :
      (name : String) (r : BehaviorRegistry B M)
      → IsIndexed r
      → IsIndexed (or_same r (release name r))
  release-IsIndexed name r k = elim (Option-cases (get r.entries name)) [
    | inl h ↦ rw (borrow_missing name r h).1 k
    | inr (e, h) ↦ rw (release_found name r e h) (borrowed-IsIndexed false e name r h k)
  ]

  -- Whatever is registered, borrowed and released, errors included: a name is among the members of a group
  -- exactly if the entry under the name lists the group.
  pub ask_all-IsIndexed :
      (is : List (RegistryInput B M)) (r : BehaviorRegistry B M)
      → IsIndexed r
      → IsIndexed (ask_all is r)
  unfolding ask_all ask
  ask_all-IsIndexed [] r k = k
  ask_all-IsIndexed (registering name b groups m ∷ is) r k =
      ask_all-IsIndexed is _ (register-IsIndexed name b groups m r k)
  ask_all-IsIndexed (borrowing name ∷ is) r k = ask_all-IsIndexed is _ (borrow-IsIndexed name r k)
  ask_all-IsIndexed (releasing name ∷ is) r k = ask_all-IsIndexed is _ (release-IsIndexed name r k)

in-insert : (n m : String) (s : List String) → is_in m (insert n s) ≡ (equal n m || is_in m s)
unfolding is_in insert
in-insert n m [] = ground arith
in-insert n m (x ∷ s) = ground (arith, in-insert n m s)

in-sorted : (m : String) (s : List String) → is_in m (sorted s) ≡ is_in m s
unfolding is_in sorted
in-sorted m [] = refl
in-sorted m (x ∷ s) = ground (arith, in-sorted m s, in-insert x m (sorted s))

module _ {B M : Type 0} where
  get_entries-total :
      (r : BehaviorRegistry B M) (ns : List String)
      → ((n : String) → is_in n ns ≡ true → has r.entries n ≡ true)
      → (es : List (BehaviorEntry B M)) × (get_entries r ns ≡ ok es)
  unfolding get_entries is_in
  get_entries-total r [] k = ([], refl)
  get_entries-total r (n ∷ ns) k =
      let (es, h) = get_entries-total r ns (λ m i. k m (ground (arith, i))) in
      elim (Option-cases (get r.entries n)) [
        | inl g ↦ absurd (ground (arith, g, k n))
        | inr (e, g) ↦ (e ∷ es, rw (get_entry_found r n e g, h) refl)
      ]

  has_listed :
      (g : String) (e : Option (BehaviorEntry B M))
      → lists g e ≡ true
      → elim e [ none ↦ false | some _ ↦ true ] ≡ true
  has_listed g none h = h
  has_listed g (some e) h = refl

  -- In a registry whose groups agree with its entries, by_group raises for no group.
  pub by_group_total :
      (r : BehaviorRegistry B M) (g : String)
      → IsIndexed r
      → (es : List (BehaviorEntry B M)) × (by_group r g ≡ ok es)
  unfolding by_group
  by_group_total r g k = get_entries-total r (sorted (members r.groups g)) (λ n i.
      has_listed g (get r.entries n) (sym (k n g) ∙ sym (in-sorted n (members r.groups g)) ∙ i))
