-- ===== src/Lang/Variables/Scope.antt =====
-- Reading a local after writing one.
use shahi_n_kernel.Prelude.Find.{
  find-set_other, find-append_other, find-set, change-found, find-append, find_index-some,
  find_index-none, find_index, change, same_name_sound, find, same_name,
}
use shahi_n_kernel.Lang.Expression.{and_then}
use shahi_n_kernel.Lang.Variables.Locals.{
  doubled, a_local, Local, vm_locals_grow, set_local_value, vm_find_local, Vm,
  bytecode_vm_set_local, named_local, bytecode_vm_get_local,
}
use shahi_n_kernel.Lang.Value.{Value, Floats}
use mathlib.Core.Option
use shahi_n_kernel.Prelude.{
  length-set, ◌*◌, zero, suc, ◌==◌, ◌<◌, length-append, ◌≤◌, sym, ◌∙◌, set, ◌+◌, inr, length, leb,
  inl, Bool-cases, arith, Option-cases, if◌then◌else◌, ◌++◌, ◌≡◌, List, refl, none, some, Option, ℕ,
  [], ◌∷◌, true, false,
}

-- The loop ends at `needed` or above.
doubled-enough :
    (fuel needed nc : ℕ) → 0 < nc → needed ≤ nc + fuel → needed ≤ doubled fuel needed nc
unfolding doubled
doubled-enough zero needed nc positive h = omega arith
doubled-enough (suc fuel) needed nc positive h =
    let more = doubled-enough fuel needed (nc * 2) (omega arith) (omega arith) in
    ground (arith, more)

module _ (fs : Floats) where
  -- What a lookup finds is the value of the first local of the name.
  get_local-find :
      (vm : Vm fs) (name : List ℕ)
      → bytecode_vm_get_local fs vm name
        ≡ Option.map (λ (l : Local fs). l.local_value) (find (named_local fs name) vm.locals)
  unfolding bytecode_vm_get_local vm_find_local and_then
  get_local-find vm name = elim (Option-cases (find_index (named_local fs name) vm.locals)) [
    | inl n ↦ rw (n, find_index-none (named_local fs name) vm.locals n) refl
    | inr (i, e) ↦
        let (l, at_i, named_so, found) = find_index-some (named_local fs name) vm.locals i e in
        rw (e, at_i, found) refl
  ]

  -- A local keeps its name when it gets a value.
  named-set_local_value :
      (x : List ℕ) (v : Value fs) (l : Local fs)
      → named_local fs x (set_local_value fs v l) ≡ named_local fs x l
  unfolding named_local set_local_value
  named-set_local_value x v l = refl

  apart_local :
      (name x : List ℕ)
      → same_name name x ≡ false
      → (l : Local fs) → named_local fs name l ≡ true
      → named_local fs x l ≡ false
  unfolding named_local
  apart_local name x h l t =
      let same = same_name_sound l.local_name name (ground (arith, t)) in
      let differs : same_name l.local_name x ≡ false = rw same h in ground (arith, differs)

  set_local-found :
      (vm : Vm fs) (name : List ℕ) (v : Value fs) (i : ℕ)
      → vm_find_local fs vm name ≡ some i
      → (bytecode_vm_set_local fs vm name v).locals ≡ change vm.locals i (set_local_value fs v)
  unfolding bytecode_vm_set_local
  set_local-found vm name v i e = rw (bytecode_vm_set_local, e) refl

  set_local-missing :
      (vm : Vm fs) (name : List ℕ) (v : Value fs)
      → vm_find_local fs vm name ≡ none
      → (bytecode_vm_set_local fs vm name v).locals ≡ vm.locals ++ a_local fs name v ∷ []
  unfolding bytecode_vm_set_local vm_locals_grow
  set_local-missing vm name v e = elim (Bool-cases (leb (length vm.locals + 1) vm.local_capacity)) [
    | inl t ↦ rw (bytecode_vm_set_local, e, t) refl
    | inr f ↦ rw (bytecode_vm_set_local, e, f) refl
  ]

  abbrev value_in : List (Local fs) → List ℕ → Option (Value fs)
  value_in ls x = Option.map (λ (l : Local fs). l.local_value) (find (named_local fs x) ls)

  named-a_local :
      (name x : List ℕ) (v : Value fs) → named_local fs x (a_local fs name v) ≡ same_name name x
  unfolding named_local a_local
  named-a_local name x v = refl

  value_in-set :
      (ls : List (Local fs)) (i : ℕ) (l : Local fs) (name x : List ℕ) (v : Value fs)
      → find_index (named_local fs name) ls ≡ some i
      → named_local fs name l ≡ true
      → value_in (set ls i (set_local_value fs v l)) x
        ≡ (if same_name name x then some v else value_in ls x)
  unfolding set_local_value
  value_in-set ls i l name x v e t = elim (Bool-cases (same_name name x)) [
    | inl q ↦
        let same = same_name_sound name x q in
        let kept = named-set_local_value x v l ∙ rw (sym same) t in
        rw (q, find-set (named_local fs x) ls i (set_local_value fs v l) (rw (sym same) e) kept)
          refl
    | inr f ↦
        rw
          (
            f,
            find-set_other (named_local fs name) (named_local fs x) ls i (set_local_value fs v l) e
                (apart_local name x f) (named-set_local_value name v l ∙ t),
          )
          refl
  ]

  value_in-append :
      (ls : List (Local fs)) (name x : List ℕ) (v : Value fs)
      → find (named_local fs name) ls ≡ none
      → value_in (ls ++ a_local fs name v ∷ []) x
        ≡ (if same_name name x then some v else value_in ls x)
  unfolding a_local
  value_in-append ls name x v n = elim (Bool-cases (same_name name x)) [
    | inl q ↦
        let same = same_name_sound name x q in
        rw
          (
            q,
            find-append (named_local fs x) ls (a_local fs name v) (named-a_local name x v ∙ q)
                (rw (sym same) n),
          )
          refl
    | inr f ↦
        rw
          (
            f,
            find-append_other (named_local fs x) ls (a_local fs name v)
                (named-a_local name x v ∙ f),
          )
          refl
  ]

  value_in-set_local :
      (vm : Vm fs) (name x : List ℕ) (v : Value fs)
      → value_in (bytecode_vm_set_local fs vm name v).locals x
        ≡ (if same_name name x then some v else value_in vm.locals x)
  unfolding vm_find_local
  value_in-set_local vm name x v = elim (Option-cases (vm_find_local fs vm name)) [
    | inl n ↦
        rw (set_local-missing vm name v n)
          (value_in-append vm.locals name x v (find_index-none (named_local fs name) vm.locals n))
    | inr (i, e) ↦
        let (l, at_i, t, found) = find_index-some (named_local fs name) vm.locals i e in
        rw (set_local-found vm name v i e, change-found vm.locals i (set_local_value fs v) l at_i)
          (value_in-set vm.locals i l name x v e t)
  ]

  -- The memory of the table holds its locals.
  abbrev pub HasRoom : Vm fs → Type 0
  HasRoom vm = length vm.locals ≤ vm.local_capacity

  set_local-HasRoom :
      (vm : Vm fs) (name : List ℕ) (v : Value fs)
      → HasRoom vm
      → HasRoom (bytecode_vm_set_local fs vm name v)
  unfolding bytecode_vm_set_local vm_locals_grow vm_find_local
  set_local-HasRoom vm name v h = elim (Option-cases (vm_find_local fs vm name)) [
    | inl n ↦ elim (Bool-cases (leb (length vm.locals + 1) vm.local_capacity)) [
      | inl t ↦
          rw (bytecode_vm_set_local, n, t)
            (ground (arith, length-append vm.locals (a_local fs name v ∷ [])))
      | inr f ↦
          let first : ℕ = if vm.local_capacity == 0 then 16 else vm.local_capacity * 2 in
          let grown =
            doubled-enough (length vm.locals + 1) (length vm.locals + 1) first (ground arith)
              (ground arith) in
          rw (bytecode_vm_set_local, n, f)
            (ground (arith, grown, length-append vm.locals (a_local fs name v ∷ [])))
    ]
    | inr (i, e) ↦
        let (l, at_i, t, found) = find_index-some (named_local fs name) vm.locals i e in
        rw
          (
            bytecode_vm_set_local,
            e,
            change-found vm.locals i (set_local_value fs v) l at_i,
            length-set vm.locals i (set_local_value fs v l),
          )
          h
  ]

  -- Take a table whose memory holds its locals. After a local is set, it reads as what it was set
  -- to, and every other name as before, whether the local was there or not; and the memory of the
  -- table, which grows when it is full, holds the locals again.
  pub bytecode_vm_get_local-bytecode_vm_set_local :
      (vm : Vm fs) (name : List ℕ) (v : Value fs) (x : List ℕ)
      → HasRoom vm
      → let vm' = bytecode_vm_set_local fs vm name v in
        (bytecode_vm_get_local fs vm' x
          ≡ (if same_name name x then some v else bytecode_vm_get_local fs vm x))
        × HasRoom vm'
  bytecode_vm_get_local-bytecode_vm_set_local vm name v x room = (
    rw (get_local-find (bytecode_vm_set_local fs vm name v) x, get_local-find vm x)
        (value_in-set_local vm name x v),
    set_local-HasRoom vm name v room,
  )
