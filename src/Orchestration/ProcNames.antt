-- ===== src/Orchestration/ProcNames.antt =====
-- system_commons/proc_names.py and exit_codes.py: the domain in a process's name, and the text for
-- an exit code. `show` is Python's formatting of an int.
use Prim.Native.Char.{Char, code}
use Prim.Native.String.{◌++◌ as ◌+s◌}
use animacharacter_dev_src.Prelude.{
  ◌==◌, String, ℤ, pos, int_key, Option, none, some, List, [], ◌∷◌, if◌then◌else◌,
}
use animacharacter_dev_src.Prelude.Dict.{Dict, get}

abbrev pub domain_core : String
domain_core = "core"

abbrev cons_word : Char → List String → List String
cons_word c [] = (String.◌∷◌ c "") ∷ []
cons_word c (w ∷ ws) = (String.◌∷◌ c w) ∷ ws

-- name.split(':')
unfoldable pub split_colon : String → List String
split_colon String.[] = "" ∷ []
split_colon (String.◌∷◌ c s) =
    let rest = split_colon s in if code c == b':' then "" ∷ rest else cons_word c rest

abbrev domain_of_words : List String → Option String
domain_of_words (domain ∷ id ∷ []) = some domain
domain_of_words _ = none

unfoldable pub get_domain_from_proc_name : String → Option String
get_domain_from_proc_name name = domain_of_words (split_colon name)

abbrev pub exit_causes : Dict ℤ String
exit_causes =
    (pos 19, "no hardware configuration files were specified")
    ∷ (pos 20, "the hardware configuration could not be loaded")
    ∷ (pos 21, "no hardware configuration was selected")
    ∷ (pos 22, "the selected hardware configuration is unknown or invalid")
    ∷ (pos 30, "the hardware manager databus failed during shutdown")
    ∷ (pos 31, "one or more hardware controllers failed to load")
    ∷ (pos 40, "a hardware controller reported a fatal error")
    ∷ []

abbrev cause_or : String → Option String → String
cause_or d none = d
cause_or d (some c) = c

unfoldable pub get_cause : (ℤ → String) → ℤ → String
get_cause show exit_code =
    cause_or ("unknown_exit_code (" +s (show exit_code +s ")")) (get exit_causes exit_code)
