-- ===== src/Go/Setup.antt =====
-- What New makes of a configuration in the packages: the fields of a Component that a Start only reads.
-- Loggers are left out.
use samsara_components.Prelude.{
  String, ◌≡◌, ◌∙◌, refl, sym, ap, List, [], ◌∷◌, ◌++◌, map, append-nil, append_assoc,
}
use samsara_components.Go.Options.{add_option, apply_all}

-- `opts` are the options of the driver, which AddOption adds.
pub record Setup (C O : Type 0) : Type 0 where
  pub cfg : C
  pub name : String
  pub opts : List O

module _ {C O : Type 0} where
  unfoldable pub with_name : String → Setup C O → Setup C O
  with_name name s = record s { name = name }

  -- New; `name` is the package's.
  unfoldable pub new_setup : (name : String) → C → List (Setup C O → Setup C O) → Setup C O
  unfolding apply_all
  new_setup name cfg opts = apply_all opts (record { cfg = cfg; name = name; opts = [] })

  -- AddOption
  unfoldable pub add : O → Setup C O → Setup C O
  unfolding add_option
  add opt s = record s { opts = add_option opt s.opts }

  -- A list of calls of AddOption.
  abbrev pub add_all : List O → Setup C O → Setup C O
  add_all [] s = s
  add_all (opt ∷ opts) s = add_all opts (add opt s)

  named :
      (names : List String) (s : Setup C O)
      → let s' = apply_all (map with_name names) s in (s'.cfg ≡ s.cfg) × (s'.opts ≡ s.opts)
  unfolding apply_all with_name
  named [] s = (refl, refl)
  named (name ∷ names) s = named names (with_name name s)

  added :
      (opts : List O) (s : Setup C O)
      → ((add_all opts s).cfg ≡ s.cfg) × ((add_all opts s).opts ≡ s.opts ++ opts)
  unfolding add
  added [] s = (refl, sym (append-nil s.opts))
  added (opt ∷ opts) s =
      let (c, o) = added opts (add opt s) in (c, o ∙ append_assoc s.opts (opt ∷ []) opts)

  -- Whatever names a component is given, it keeps its configuration, and a Start finds the options that
  -- AddOption was called with, in order.
  pub add_all-new_setup :
      (name : String) (cfg : C) (names : List String) (opts : List O)
      → let s = add_all opts (new_setup name cfg (map with_name names)) in
        (s.cfg ≡ cfg) × (s.opts ≡ opts)
  unfolding new_setup
  add_all-new_setup name cfg names opts =
      let (c, o) = named names (record { cfg = cfg; name = name; opts = [] }) in
      let (c', o') =
        added opts
          (apply_all (map with_name names) (record { cfg = cfg; name = name; opts = [] })) in
      (c' ∙ c, o' ∙ ap (λ l. l ++ opts) o)
