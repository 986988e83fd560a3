-- ===== src/Lang/Variables/Store.antt =====
-- The abstract store behind the table of variables: names to a value and a type.
use shahi_n_kernel.Prelude.Find.{
  same_name_self, find-set_other, find-append_other, find-set, find-append, same_name_sound,
  find_index, same_name, find,
}
use shahi_n_kernel.Lang.Variables.{named, Variable}
use shahi_n_kernel.Lang.Value.{ValueType, Value, Floats}
use mathlib.Core.Option
use shahi_n_kernel.Prelude.{
  inr, ◌∙◌, inl, Bool-cases, sym, set, ◌++◌, arith, ◌≡◌, if◌then◌else◌, List, refl, none, some,
  Option, ℕ, [], ◌∷◌, true, false,
}

module _ (fs : Floats) where
  abbrev pub Cell : Type 0
  Cell = Value fs × ValueType

  abbrev pub Store : Type 0
  Store = List ℕ → Option Cell

  abbrev pub update : Store → List ℕ → Cell → Store
  update store name cell x = if same_name name x then some cell else store x

  abbrev pub cell_of : Variable fs → Cell
  cell_of slot = (slot.value, slot.declared_type)

  -- A variable that is used, with its name, value and type.
  abbrev pub slot : List ℕ → Cell → Variable fs
  slot name cell = record { name = name; value = cell.0; declared_type = cell.1; used = true }

  abbrev pub view_of : List (Variable fs) → Store
  view_of vs x = Option.map cell_of (find (named fs x) vs)

  named-slot : (name x : List ℕ) (cell : Cell) → named fs x (slot name cell) ≡ same_name name x
  unfolding named
  named-slot name x cell = refl

  -- What the first variable of a name is like.
  pub found_slot :
      (name : List ℕ) (v : Variable fs) → named fs name v ≡ true → v ≡ slot name (cell_of v)
  unfolding named
  found_slot name v h =
      let used : v.used ≡ true = ground (arith, h) in
      let same = same_name_sound v.name name (ground (arith, h)) in rw (sym used, sym same) refl

  other_name :
      (name x : List ℕ)
      → same_name name x ≡ false
      → (v : Variable fs) → named fs name v ≡ true
      → named fs x v ≡ false
  other_name name x h v t = rw (found_slot name v t) (rw (named-slot name x (cell_of v)) h)

  -- A slot behind the others, where none has its name.
  pub view_of-append :
      (vs : List (Variable fs)) (name : List ℕ) (cell : Cell)
      → find (named fs name) vs ≡ none
      → (x : List ℕ) → view_of (vs ++ slot name cell ∷ []) x ≡ update (view_of vs) name cell x
  view_of-append vs name cell h x = elim (Bool-cases (same_name name x)) [
    | inl t ↦
        let same = same_name_sound name x t in
        rw
          (
            t,
            find-append (named fs x) vs (slot name cell) (named-slot name x cell ∙ t)
                (rw (sym same) h),
          )
          refl
    | inr f ↦
        rw (f, find-append_other (named fs x) vs (slot name cell) (named-slot name x cell ∙ f)) refl
  ]

  -- A slot in the place of the first of its name.
  pub view_of-set :
      (vs : List (Variable fs)) (i : ℕ) (name : List ℕ) (cell : Cell)
      → find_index (named fs name) vs ≡ some i
      → (x : List ℕ) → view_of (set vs i (slot name cell)) x ≡ update (view_of vs) name cell x
  view_of-set vs i name cell h x = elim (Bool-cases (same_name name x)) [
    | inl t ↦
        let same = same_name_sound name x t in
        rw
          (
            t,
            find-set (named fs x) vs i (slot name cell) (rw (sym same) h)
                (named-slot name x cell ∙ t),
          )
          refl
    | inr f ↦
        rw
          (
            f,
            find-set_other (named fs name) (named fs x) vs i (slot name cell) h
                (other_name name x f) (named-slot name name cell ∙ same_name_self name),
          )
          refl
  ]
