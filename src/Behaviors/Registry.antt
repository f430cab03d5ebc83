-- ===== src/Behaviors/Registry.antt =====
-- behavior_engine/registry.py. `B` is the type of behaviours and `M` that of metadata. An entry is an
-- object that callers share, so that a change of it shows in the registry: the entry lives in the table.
pub mod Calls
pub mod Index
use Prim.Native.Char.{Char, code}
use animacharacter_dev_src.Prelude.{
  ltb, Bool, true, false, String, string_key, equal, Option, none, some, List, [], ◌∷◌, Result, ok,
  raised, ◌>>=◌, Exc, runtime_error, key_error, if◌then◌else◌,
}
use animacharacter_dev_src.Prelude.Dict.{Dict, get, has, put, values}

pub record BehaviorEntry (B M : Type 0) : Type 0 where
  pub name : String
  pub behavior : B
  pub groups : List String
  pub metadata : M
  pub borrowed : Bool

-- a set of names is a list that is only asked for membership and sorted
pub record BehaviorRegistry (B M : Type 0) : Type 0 where
  pub entries : Dict String (BehaviorEntry B M)
  pub groups : Dict String (List String)

unfoldable pub is_in : String → List String → Bool
is_in n [] = false
is_in n (m ∷ ms) = if equal m n then true else is_in n ms

abbrev pub or_empty : Option (List String) → List String
or_empty none = []
or_empty (some s) = s

-- `_groups.get(group, [])`
abbrev pub members : Dict String (List String) → String → List String
members d group = or_empty (get d group)

-- set.add
unfoldable pub add_name : String → List String → List String
add_name n s = if is_in n s then s else n ∷ s

-- the loop over the groups of a new entry
unfoldable pub add_to_groups :
    String → List String → Dict String (List String) → Dict String (List String)
add_to_groups n [] d = d
add_to_groups n (group ∷ groups) d =
    add_to_groups n groups (put d group (add_name n (members d group)))

-- a < b on strings, by code points
unfoldable pub string_lt : String → String → Bool
string_lt String.[] String.[] = false
string_lt String.[] (String.◌∷◌ d t) = true
string_lt (String.◌∷◌ c s) String.[] = false
string_lt (String.◌∷◌ c s) (String.◌∷◌ d t) =
    let rest = string_lt s t in
    if ltb (code c) (code d) then true else if ltb (code d) (code c) then false else rest

unfoldable pub insert : String → List String → List String
insert n [] = n ∷ []
insert n (m ∷ ms) = let rest = insert n ms in if string_lt m n then m ∷ rest else n ∷ m ∷ ms

-- sorted, of a set
unfoldable pub sorted : List String → List String
sorted [] = []
sorted (n ∷ ns) = insert n (sorted ns)

module _ {B M : Type 0} where
  abbrev pub empty_registry : BehaviorRegistry B M
  empty_registry = record { entries = []; groups = [] }

  unfoldable pub register :
      String → B → List String → M → BehaviorRegistry B M → Result Exc (BehaviorRegistry B M)
  register name behavior groups metadata r =
      if has r.entries name
      then raised key_error
      else ok (record {
        entries = put r.entries name (record {
          name = name;
          behavior = behavior;
          groups = groups;
          metadata = metadata;
          borrowed = false;
        });
        groups = add_to_groups name groups r.groups;
      })

  -- `_entries[name]`, which `get` returns
  unfoldable pub get_entry : BehaviorRegistry B M → String → Result Exc (BehaviorEntry B M)
  get_entry r name = elim (get r.entries name) [ none ↦ raised key_error | some e ↦ ok e ]

  unfoldable pub get_entries :
      BehaviorRegistry B M → List String → Result Exc (List (BehaviorEntry B M))
  get_entries r [] = ok []
  get_entries r (n ∷ ns) = do e ← get_entry r n; es ← get_entries r ns; ok (e ∷ es)

  unfoldable pub by_group : BehaviorRegistry B M → String → Result Exc (List (BehaviorEntry B M))
  by_group r group = get_entries r (sorted (members r.groups group))

  abbrev pub set_borrowed :
      Bool → BehaviorEntry B M → String → BehaviorRegistry B M → BehaviorRegistry B M
  set_borrowed b e name r = record r { entries = put r.entries name (record e { borrowed = b }) }

  unfoldable pub borrow : String → BehaviorRegistry B M → Result Exc (BehaviorRegistry B M)
  borrow name r = do
    e ← get_entry r name
    if e.borrowed then raised runtime_error else ok (set_borrowed true e name r)

  unfoldable pub release : String → BehaviorRegistry B M → Result Exc (BehaviorRegistry B M)
  release name r = do e ← get_entry r name; ok (set_borrowed false e name r)
