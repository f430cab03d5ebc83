-- ===== src/Behaviors/Registry/Calls.antt =====
-- behavior_engine/registry.py: each call, on each branch, and borrowing.
use animacharacter_dev_src.Prelude.{
  sym, ◌≡◌, refl, ◌∙◌, inl, inr, true, false, String, string_key, none, some, List, ok, raised,
  runtime_error, key_error, ok-inj, ap, arith, Bool-cases, Option-cases,
}
use animacharacter_dev_src.Prelude.Dict.{get, put}
use animacharacter_dev_src.Prelude.Dict.Laws.{get-put_self}
use animacharacter_dev_src.Behaviors.Registry.{
  BehaviorEntry, BehaviorRegistry, add_to_groups, register, get_entry, set_borrowed, borrow,
  release,
}

module _ {B M : Type 0} where
  pub register_taken :
      (name : String) (b : B) (groups : List String) (m : M) (r : BehaviorRegistry B M)
      (e : BehaviorEntry B M)
      → get r.entries name ≡ some e
      → register name b groups m r ≡ raised key_error
  unfolding register
  register_taken name b groups m r e h = ground (arith, h)

  pub register_fresh :
      (name : String) (b : B) (groups : List String) (m : M) (r : BehaviorRegistry B M)
      → get r.entries name ≡ none
      → register name b groups m r
        ≡ ok (record {
          entries = put r.entries name (record {
            name = name;
            behavior = b;
            groups = groups;
            metadata = m;
            borrowed = false;
          });
          groups = add_to_groups name groups r.groups;
        })
  unfolding register
  register_fresh name b groups m r h = ground (arith, h)

  pub get_entry_found :
      (r : BehaviorRegistry B M) (name : String) (e : BehaviorEntry B M)
      → get r.entries name ≡ some e
      → get_entry r name ≡ ok e
  unfolding get_entry
  get_entry_found r name e h = ground (arith, h)

  pub borrow_taken :
      (name : String) (r : BehaviorRegistry B M) (e : BehaviorEntry B M)
      → get r.entries name ≡ some e
      → e.borrowed ≡ true
      → borrow name r ≡ raised runtime_error
  unfolding borrow
  borrow_taken name r e h b = rw (get_entry_found r name e h, b) refl

  pub borrow_free :
      (name : String) (r : BehaviorRegistry B M) (e : BehaviorEntry B M)
      → get r.entries name ≡ some e
      → e.borrowed ≡ false
      → borrow name r ≡ ok (set_borrowed true e name r)
  unfolding borrow
  borrow_free name r e h b = rw (get_entry_found r name e h, b) refl

  pub release_found :
      (name : String) (r : BehaviorRegistry B M) (e : BehaviorEntry B M)
      → get r.entries name ≡ some e
      → release name r ≡ ok (set_borrowed false e name r)
  unfolding release
  release_found name r e h = rw (get_entry_found r name e h) refl

  pub borrow_missing :
      (name : String) (r : BehaviorRegistry B M)
      → get r.entries name ≡ none
      → (borrow name r ≡ raised key_error) × (release name r ≡ raised key_error)
  unfolding borrow release get_entry
  borrow_missing name r h = (ground (arith, h), ground (arith, h))

  borrow_parts :
      (name : String) (r r' : BehaviorRegistry B M)
      → borrow name r ≡ ok r'
      → (e : BehaviorEntry B M) × (get r.entries name ≡ some e) × (r' ≡ set_borrowed true e name r)
  borrow_parts name r r' h = elim (Option-cases (get r.entries name)) [
    | inl g ↦ absurd (cc (h, (borrow_missing name r g).0))
    | inr (e, g) ↦ elim (Bool-cases e.borrowed) [
      | inl b ↦ absurd (cc (h, borrow_taken name r e g b))
      | inr b ↦ (e, g, ok-inj (sym h ∙ borrow_free name r e g b))
    ]
  ]

  -- After a behaviour was borrowed, borrowing it again at once raises RuntimeError, and releasing it
  -- succeeds and lets it be borrowed again.
  pub borrow_exclusive :
      (name : String) (r r' : BehaviorRegistry B M)
      → borrow name r ≡ ok r'
      → (borrow name r' ≡ raised runtime_error)
        × ((r'' : BehaviorRegistry B M) × (s : BehaviorRegistry B M) × (release name r' ≡ ok r'')
            × (borrow name r'' ≡ ok s))
  borrow_exclusive name r r' h =
      let (e, g, same) = borrow_parts name r r' h in
      let e' = record e { borrowed = true } in
      let g' = ap (λ x. get x.entries name) same ∙ get-put_self r.entries name e' in
      let r'' = set_borrowed false e' name r' in
      let g'' = get-put_self r'.entries name (record e' { borrowed = false }) in
      (
        borrow_taken name r' e' g' refl,
        (
          r'',
          set_borrowed true (record e' { borrowed = false }) name r'',
          release_found name r' e' g',
          borrow_free name r'' (record e' { borrowed = false }) g'' refl,
        ),
      )
