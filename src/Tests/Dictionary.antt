-- ===== src/Tests/Dictionary.antt =====
-- Dictionaries with two headers.
use mathlib.Core.List.{Perm}
use netdisk4tc.Base.{
  ℕ, ◌+◌, ◌≡◌, refl, true, false, Bool, Option, none, some, List, [], ◌∷◌, ◌++◌, if◌then◌else◌,
  length, Str, codes, eq_str, Run, ok,
}
use netdisk4tc.Dictionary.{
  dict_ok, dict_miss, DictEntry, Dictionary, Release, all_succeed, release_value, find_entry,
  dict_set_element_s, dict_get_element_s, dict_exists, dict_remove_element, dict_destroy,
  dict_initialize,
}
use netdisk4tc.Dictionary.Invariant.{IsDictionary, dict_set_element_s-IsDictionary}
use netdisk4tc.Dictionary.Lookup.{dict_get_element_s-set_absent, dict_get_element_s-set_present}
use netdisk4tc.Dictionary.Ownership.{
  Command, set, remove, run_commands, stored, released, held, freed_keys, freed_nodes, keys,
  released-run_commands, dict_destroy_lem,
}
use netdisk4tc.Dictionary.Remove.{dict_remove_element_lem}

abbrev entry : Str → Str → DictEntry Str (Unit {0})
entry k v = record { key = k; size = length v + 1; value = some v; destroyer = none }

abbrev host : Str
host = codes "Host"

abbrev agent : Str
agent = codes "Agent"

abbrev two : Dictionary Str (Unit {0})
two = record { first = entry host (codes "a") ∷ entry agent (codes "b") ∷ []; length = 2 }

two-IsDictionary : IsDictionary two
unfolding find_entry eq_str
two-IsDictionary = record { counted = refl; distinct = (refl, (refl, tt)) }

-- The value goes to `Agent`, the last entry.
set_host :
    dict_set_element_s two host (codes "new") 4 none all_succeed
    ≡ ok (
      dict_ok,
      record { first = entry host (codes "a") ∷ entry agent (codes "new") ∷ []; length = 2 },
      release_value (entry agent (codes "b")) ∷ [],
    )
unfolding dict_set_element_s eq_str
set_host = refl

has_host : dict_exists two host ≡ true
unfolding dict_exists eq_str
has_host = refl

has_no_date : dict_exists two (codes "Date") ≡ false
unfolding dict_exists eq_str
has_no_date = refl

dict_get_element_s-set_absent_example :
    (d' : Dictionary Str (Unit {0})) × (dict_set_element_s two
        (codes "Date")
        (codes "d")
        2
        none
        all_succeed
      ≡ ok (dict_ok, d', []))
    × (d'.length ≡ 3)
    × (dict_get_element_s d' host none ≡ (
        if eq_str host (codes "Date")
        then (dict_ok, some (codes "d"))
        else dict_get_element_s two host none))
dict_get_element_s-set_absent_example =
    dict_get_element_s-set_absent two (codes "Date") (codes "d") 2 none host none has_no_date

dict_get_element_s-set_present_example :
    (d' : Dictionary Str (Unit {0})) × (dict_set_element_s two host (codes "new") 4 none all_succeed
      ≡ ok (dict_ok, d', release_value (entry agent (codes "b")) ∷ []))
    × (d'.length ≡ 2)
    × (dict_get_element_s d' host none ≡ (
        if eq_str host agent
        then (dict_ok, some (codes "new"))
        else dict_get_element_s two host none))
dict_get_element_s-set_present_example =
    dict_get_element_s-set_present two host (codes "new") 4 none (entry host (codes "a") ∷ [])
      (entry agent (codes "b")) host none two-IsDictionary refl has_host

dict_set_element_s-IsDictionary_example :
    IsDictionary
      (record { first = entry host (codes "a") ∷ entry agent (codes "new") ∷ []; length = 2 })
dict_set_element_s-IsDictionary_example =
    dict_set_element_s-IsDictionary two host (codes "new") 4 none all_succeed set_host
      two-IsDictionary

dict_remove_element_lem_example :
    ((dict_remove_element two host).0 ≡ (if dict_exists two host then dict_ok else dict_miss))
    × (dict_get_element_s (dict_remove_element two host).1 agent none
        ≡ (if eq_str agent host then (dict_miss, none) else dict_get_element_s two agent none))
    × IsDictionary (dict_remove_element two host).1
dict_remove_element_lem_example = dict_remove_element_lem two host agent none two-IsDictionary

-- Enumerators that collect keys.
abbrev collect : Str → Option Str → ℕ → List Str → Run (Bool × List Str)
collect k v n ks = ok (true, ks ++ (k ∷ []))

abbrev first_only : Str → Option Str → ℕ → List Str → Run (Bool × List Str)
first_only k v n ks = ok (eq_str k agent, ks ++ (k ∷ []))

stops_at_host : first_only host (some (codes "a")) 2 [] ≡ ok (false, host ∷ [])
unfolding eq_str
stops_at_host = refl

abbrev commands : List (Command Str (Unit {0}))
commands =
    set host (codes "a") 2 none
    ∷ set agent (codes "b") 2 none
    ∷ set host (codes "c") 2 none
    ∷ remove agent
    ∷ []

released-run_commands_example :
    (out : List (Release Str (Unit {0}))) × (run_commands dict_initialize commands ≡ ok out)
    × Perm (released out) (stored commands)
released-run_commands_example = released-run_commands commands

dict_destroy_lem_example :
    (released (dict_destroy two) ≡ held two.first)
    × (freed_keys (dict_destroy two) ≡ keys two.first)
    × (freed_nodes (dict_destroy two) ≡ [])
dict_destroy_lem_example = dict_destroy_lem two
