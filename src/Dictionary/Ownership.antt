-- ===== src/Dictionary/Ownership.antt =====
-- Who frees what: over a dictionary's life each stored value is released exactly once, and so is
-- each key.
use mathlib.Core.List.{Perm, perm_append_singleton, perm_append_comm}
use netdisk4tc.Dictionary.Chain.{last-of_find_entry}
use mathlib.Core.Option.{some-injective}
use mathlib.Core.List.Perm
use mathlib.Core.Path.{subst}
use netdisk4tc.Base.{
  ℕ, ◌+◌, ◌-◌, ◌≡◌, refl, ap, ◌∙◌, sym, inl, inr, Option, none, some, List, [], ◌∷◌, ◌++◌,
  append_assoc, append-nil, Option-cases, Bool-cases, Str, eq_str, Run, ok, ◌>>=◌,
}
use netdisk4tc.Dictionary.{
  DictEntry, Dictionary, Release, free_key, free_value, destroy, free_node, all_succeed,
  release_with, release_value, find_entry, dict_initialize, dict_set_element_s, dict_remove_element,
  dict_destroy, destroy_loop,
}
use netdisk4tc.Dictionary.Insert.{new_entry, set_value, set-absent, set-present}
use netdisk4tc.Dictionary.Remove.{erase, remove-erase}

module _ {A : Type 0} where
  overwritten-balanced :
      (a b : A) (es : List A) → Perm (a ∷ (es ++ (b ∷ []))) (b ∷ (es ++ (a ∷ [])))
  overwritten-balanced a b es =
      Perm.trans (Perm.cons a (perm_append_singleton b es))
        (Perm.trans (Perm.swap b a es) (Perm.cons b (Perm.symm (perm_append_singleton a es))))

  commute : (xs ys zs : List A) → Perm ((xs ++ ys) ++ zs) (ys ++ (xs ++ zs))
  commute xs ys zs = rw (← append_assoc) (Perm.append_right zs (perm_append_comm xs ys))

-- The calls of a client, whose allocations all succeed.
pub data Command (V D : Type 0) : Type 0 where
  set : Str → V → ℕ → Option D → Command V D
  remove : Str → Command V D

module _ {V D : Type 0} where
  abbrev pub run_command : Dictionary V D → Command V D → Run (Dictionary V D × List (Release V D))
  run_command d (set k v n f) = do
    (_, d', out) ← dict_set_element_s d k v n f all_succeed
    ok (d', out)
  run_command d (remove k) = let (_, d', out) = dict_remove_element d k in ok (d', out)

  -- The commands in order, and `dict_destroy` at the end. The result is all that was released.
  abbrev pub run_commands : Dictionary V D → List (Command V D) → Run (List (Release V D))
  run_commands d [] = ok (dict_destroy d)
  run_commands d (c ∷ cs) = do
    (d', out) ← run_command d c
    later ← run_commands d' cs
    ok (out ++ later)

  -- The values that the commands store, in order.
  abbrev pub stored : List (Command V D) → List (Option V)
  stored [] = []
  stored (set _ v _ _ ∷ cs) = some v ∷ stored cs
  stored (remove _ ∷ cs) = stored cs

  -- The values among the releases.
  abbrev pub released : List (Release V D) → List (Option V)
  released [] = []
  released (free_key _ ∷ out) = released out
  released (free_value v ∷ out) = v ∷ released out
  released (destroy _ v ∷ out) = v ∷ released out
  released (free_node _ ∷ out) = released out

  abbrev pub held : List (DictEntry V D) → List (Option V)
  held [] = []
  held (e ∷ es) = e.value ∷ held es

  held-append : (es fs : List (DictEntry V D)) → held (es ++ fs) ≡ held es ++ held fs
  held-append [] fs = refl
  held-append (e ∷ es) fs = ap (◌∷◌ e.value) (held-append es fs)

  pub released-append :
      (xs ys : List (Release V D)) → released (xs ++ ys) ≡ released xs ++ released ys
  released-append [] ys = refl
  released-append (free_key _ ∷ xs) ys = released-append xs ys
  released-append (free_value v ∷ xs) ys = ap (◌∷◌ v) (released-append xs ys)
  released-append (destroy _ v ∷ xs) ys = ap (◌∷◌ v) (released-append xs ys)
  released-append (free_node _ ∷ xs) ys = released-append xs ys

  released-release_with :
      (f : Option D) (v : Option V) (out : List (Release V D))
      → released (release_with f v ∷ out) ≡ v ∷ released out
  released-release_with none v out = refl
  released-release_with (some d) v out = refl

  pub released-destroy_loop : (es : List (DictEntry V D)) → released (destroy_loop es) ≡ held es
  unfolding destroy_loop
  released-destroy_loop [] = refl
  released-destroy_loop (e ∷ es) =
      released-release_with e.destroyer e.value (destroy_loop es)
      ∙ ap (◌∷◌ e.value) (released-destroy_loop es)

  held-erase :
      (k : Str) (es : List (DictEntry V D)) {e : DictEntry V D}
      → find_entry k es ≡ some e
      → Perm (e.value ∷ held (erase k es)) (held es)
  unfolding find_entry
  held-erase k [] h = cc
  held-erase k (x ∷ es) {e} h = elim (Bool-cases (eq_str k x.key)) [
    | inl hit ↦ rw (hit, some-injective x e (rw hit at h)) (Perm.refl (e.value ∷ held es))
    | inr miss ↦ rw miss (
        Perm.trans (Perm.swap x.value e.value (held (erase k es)))
          (Perm.cons x.value (held-erase k es (rw miss at h))))
  ]

  abbrev Balanced : Dictionary V D → List (Option V) → Dictionary V D → List (Release V D) → Type 0
  Balanced d new d' out = Perm (released out ++ held d'.first) (new ++ held d.first)

  set-Balanced :
      (d : Dictionary V D) (k : Str) (v : V) (n : ℕ) (f : Option D)
      → (d' : Dictionary V D) × (out : List (Release V D)) × (run_command d (set k v n f)
          ≡ ok (d', out))
        × Balanced d (some v ∷ []) d' out
  set-Balanced d k v n f = elim (Option-cases (find_entry k d.first)) [
    | inl new ↦ (
      record { first = d.first ++ (new_entry k v n f ∷ []); length = d.length + 1 },
      [],
      rw (set-absent d k v n f all_succeed new),
      rw held-append (perm_append_singleton (some v) (held d.first)),
    )
    | inr (e, hit) ↦
        let (es, last, split) = last-of_find_entry k d.first hit in
        (
          record d { first = es ++ (set_value last v n ∷ []) },
          release_value last ∷ [],
          rw (set-present d k v n f all_succeed es last split hit),
          rw (released-release_with, split, held-append, held-append)
              (overwritten-balanced last.value (some v) (held es)),
        )
  ]

  remove-Balanced :
      (d : Dictionary V D) (k : Str)
      → (d' : Dictionary V D) × (out : List (Release V D)) × (run_command d (remove k)
          ≡ ok (d', out))
        × Balanced d [] d' out
  remove-Balanced d k = elim (Option-cases (find_entry k d.first)) [
    | inl e ↦ (d, [], rw (remove-erase, e), Perm.refl (held d.first))
    | inr (e, hit) ↦ (
      record { first = erase k d.first; length = d.length - 1 },
      free_key e.key ∷ release_value e ∷ free_node e.key ∷ [],
      rw (remove-erase, hit),
      subst (λ x. Perm (x ++ held (erase k d.first)) (held d.first))
          (sym (released-release_with e.destroyer e.value (free_node e.key ∷ [])))
          (held-erase k d.first hit),
    )
  ]

  command-Balanced :
      (d : Dictionary V D) (c : Command V D)
      → (d' : Dictionary V D) × (out : List (Release V D)) × (run_command d c ≡ ok (d', out))
        × Balanced d (stored (c ∷ [])) d' out
  command-Balanced d (set k v n f) = set-Balanced d k v n f
  command-Balanced d (remove k) = remove-Balanced d k

  stored-cons :
      (c : Command V D) (cs : List (Command V D)) → stored (c ∷ cs) ≡ stored (c ∷ []) ++ stored cs
  stored-cons (set _ _ _ _) cs = refl
  stored-cons (remove _) cs = refl

  -- From a dictionary `d` on, what is released is what `d` holds and what is stored later.
  run_commands-balanced :
      (cs : List (Command V D)) (d : Dictionary V D)
      → (out : List (Release V D)) × (run_commands d cs ≡ ok out)
        × Perm (released out) (held d.first ++ stored cs)
  unfolding dict_destroy
  run_commands-balanced [] d =
      (dict_destroy d, refl, rw (released-destroy_loop, append-nil) (Perm.refl (held d.first)))
  run_commands-balanced (c ∷ cs) d =
      let (d', out, ran, step) = command-Balanced d c in
      let (later, rest, all) = run_commands-balanced cs d' in
      (
        out ++ later,
        rw (ran, rest),
        rw (released-append, stored-cons)
            (Perm.trans (Perm.append_left (released out) all) (
              rw (← append_assoc) (
                Perm.trans (Perm.append_right (stored cs) step)
                  (commute (stored (c ∷ [])) (held d.first) (stored cs))))),
      )

  -- Whatever sequence of sets and removes a client makes on a new dictionary, as long as every
  -- allocation succeeds: no call faults, and with the `dict_destroy` at the end each stored value has
  -- been released exactly once.
  pub released-run_commands :
      (cs : List (Command V D))
      → (out : List (Release V D)) × (run_commands dict_initialize cs ≡ ok out)
        × Perm (released out) (stored cs)
  unfolding dict_initialize
  released-run_commands cs = run_commands-balanced cs dict_initialize

  abbrev pub freed_keys : List (Release V D) → List Str
  freed_keys [] = []
  freed_keys (free_key k ∷ out) = k ∷ freed_keys out
  freed_keys (_ ∷ out) = freed_keys out

  abbrev pub freed_nodes : List (Release V D) → List Str
  freed_nodes [] = []
  freed_nodes (free_node k ∷ out) = k ∷ freed_nodes out
  freed_nodes (_ ∷ out) = freed_nodes out

  abbrev pub keys : List (DictEntry V D) → List Str
  keys [] = []
  keys (e ∷ es) = e.key ∷ keys es

  freed-release_with :
      (f : Option D) (v : Option V) (out : List (Release V D))
      → (freed_keys (release_with f v ∷ out) ≡ freed_keys out)
        × (freed_nodes (release_with f v ∷ out) ≡ freed_nodes out)
  freed-release_with none v out = (refl, refl)
  freed-release_with (some f) v out = (refl, refl)

  freed-destroy_loop :
      (es : List (DictEntry V D))
      → (freed_keys (destroy_loop es) ≡ keys es) × (freed_nodes (destroy_loop es) ≡ [])
  unfolding destroy_loop
  freed-destroy_loop [] = (refl, refl)
  freed-destroy_loop (e ∷ es) =
      let (ks, ns) = freed-destroy_loop es in
      let (k, n) = freed-release_with e.destroyer e.value (destroy_loop es) in
      (ap (◌∷◌ e.key) (k ∙ ks), n ∙ ns)

  -- `dict_destroy` releases the value and the key of each entry once, in the order of the chain,
  -- and frees the block of no entry.
  pub dict_destroy_lem :
      (d : Dictionary V D)
      → (released (dict_destroy d) ≡ held d.first)
        × (freed_keys (dict_destroy d) ≡ keys d.first)
        × (freed_nodes (dict_destroy d) ≡ [])
  unfolding dict_destroy
  dict_destroy_lem d = (
    released-destroy_loop d.first,
    (freed-destroy_loop d.first).0,
    (freed-destroy_loop d.first).1,
  )
