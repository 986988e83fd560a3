-- ===== src/Lang/Variables/Runs.antt =====
-- Declarations and assignments in sequence, and what is read after them.
use shahi_n_kernel.Prelude.Find.{find_index-some, find_index-none, find_index}
use shahi_n_kernel.Lang.Expression.{and_then}
use shahi_n_kernel.Lang.Variables.Refines.{
  set_slot-assigned, assigned, declared, declare-declared, outcome,
}
use shahi_n_kernel.Lang.Variables.Readings.{reading_of, is_builtin_variable, Devices}
use shahi_n_kernel.Lang.Variables.{
  local_of, read_global, named, converted, variable_get_value, find_variable, variable_set_value,
  global_value, variable_declare, Context,
}
use shahi_n_kernel.Lang.Variables.Store.{Cell, view_of, Store}
use shahi_n_kernel.Lang.Value.{unknown_type, ◌is◌, Value, ValueType, Floats}
use mathlib.Core.Option
use shahi_n_kernel.Prelude.{
  ◌∙◌, ap, inr, inl, Bool-cases, ◌||◌, Option-cases, ◌==◌, ◌&&◌, length, if◌then◌else◌, not, ◌≡◌,
  Bool, List, refl, none, ℕ, [], ◌∷◌, false,
}

module _ (fs : Floats) where
  pub data Command : Type 0 where
    declare : List ℕ → ValueType → Value fs → Command
    assign : List ℕ → Value fs → Command

  -- A name that a variable may have.
  unfoldable pub is_plain : List ℕ → Bool
  is_plain name = not ((length name == 0) || is_builtin_variable name)

  -- What a command does to the store, and whether it succeeds.
  unfoldable pub command_spec : Store fs → Command → Bool × Store fs
  command_spec store (declare name t v) =
      if is_plain name && not (t is unknown_type)
      then declared fs store name t (converted fs t v)
      else (false, store)
  command_spec store (assign name v) =
      if is_plain name then assigned fs store name v else (false, store)

  unfoldable pub run_spec : List Command → Store fs → List Bool × Store fs
  run_spec [] store = ([], store)
  run_spec (c ∷ cs) store =
      let (ok, store') = command_spec store c in
      let (oks, last) = run_spec cs store' in (ok ∷ oks, last)

  module _ (M : Type 0) where
    unfoldable pub execute : Command → Context fs M → Bool × Context fs M
    execute (declare name t v) ctx = variable_declare fs M name t v ctx
    execute (assign name v) ctx = variable_set_value fs M name v ctx

    unfoldable pub run : List Command → Context fs M → List Bool × Context fs M
    run [] ctx = ([], ctx)
    run (c ∷ cs) ctx =
        let (ok, ctx') = execute c ctx in let (oks, last) = run cs ctx' in (ok ∷ oks, last)

    execute-command :
        (c : Command) (ctx : Context fs M)
        → outcome fs M (execute c ctx) ≡ command_spec (view_of fs ctx.variables) c
    unfolding execute command_spec variable_declare variable_set_value is_plain
    execute-command (declare name t v) ctx =
        let done = declare-declared fs M ctx name t (converted fs t v) in
        elim (Bool-cases ((length name == 0) || is_builtin_variable name)) [
          | inl a ↦ rw a refl
          | inr a ↦ elim (Bool-cases (t is unknown_type)) [
            | inl u ↦ rw (a, u) refl
            | inr k ↦ rw (a, k) done
          ]
        ]
    execute-command (assign name v) ctx =
        let done = set_slot-assigned fs M ctx name v in
        elim (Bool-cases ((length name == 0) || is_builtin_variable name)) [
          | inl a ↦ rw a refl
          | inr a ↦ rw a done
        ]

    abbrev pub outcomes : List Bool × Context fs M → List Bool × Store fs
    outcomes (oks, ctx) = (oks, view_of fs ctx.variables)

    -- Any sequence of declarations and assignments gives the answers that the abstract store gives,
    -- and leaves every name with the value and the type that it has there.
    pub run-run_spec :
        (cs : List Command) (ctx : Context fs M)
        → outcomes (run cs ctx) ≡ run_spec cs (view_of fs ctx.variables)
    unfolding run run_spec
    run-run_spec [] ctx = refl
    run-run_spec (c ∷ cs) ctx =
        let first = execute-command c ctx in
        let more = run-run_spec cs (execute c ctx).1 in
        ap (λ (q : List Bool × Store fs). ((execute c ctx).0 ∷ q.0, q.1)) more
        ∙ ap (λ (r : Bool × Store fs). (r.0 ∷ (run_spec cs r.1).0, (run_spec cs r.1).1)) first

    global_value-view :
        (name : List ℕ) (ctx : Context fs M)
        → global_value fs M name ctx
          ≡ Option.map (λ (c : Cell fs). c.0) (view_of fs ctx.variables name)
    unfolding global_value find_variable and_then
    global_value-view name ctx = elim (Option-cases (find_index (named fs name) ctx.variables)) [
      | inl n ↦ rw (n, find_index-none (named fs name) ctx.variables n) refl
      | inr (i, e) ↦
          let (v, at_i, named_so, found) = find_index-some (named fs name) ctx.variables i e in
          rw (e, at_i, found) refl
    ]

  variable_get_value-global :
      (dev : Devices) (ctx : Context fs dev.Machine) (name : List ℕ)
      → local_of fs dev.Machine name ctx ≡ none
      → reading_of name ≡ none
      → variable_get_value fs dev name ctx ≡ (global_value fs dev.Machine name ctx, ctx)
  unfolding variable_get_value read_global
  variable_get_value-global dev ctx name l h = rw (variable_get_value, l) (rw (read_global, h) refl)

  -- After a sequence of declarations and assignments, a name that no local has and that is no reading
  -- of the machine is read as the value that the abstract store has for it then.
  pub variable_get_value-run :
      (dev : Devices) (cs : List Command) (ctx : Context fs dev.Machine) (name : List ℕ)
      → local_of fs dev.Machine name (run dev.Machine cs ctx).1 ≡ none
      → reading_of name ≡ none
      → (variable_get_value fs dev name (run dev.Machine cs ctx).1).0
        ≡ Option.map (λ (c : Cell fs). c.0) ((run_spec cs (view_of fs ctx.variables)).1 name)
  variable_get_value-run dev cs ctx name l h =
      rw (variable_get_value-global dev (run dev.Machine cs ctx).1 name l h) (
        global_value-view dev.Machine name (run dev.Machine cs ctx).1
        ∙ ap (λ (r : List Bool × Store fs). Option.map (λ (c : Cell fs). c.0) (r.1 name))
            (run-run_spec dev.Machine cs ctx))
