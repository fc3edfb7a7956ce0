-- ===== src/Go/Options.antt =====
-- The options of a driver that callers add to a component: functions that change its settings, kept in
-- the order in which they were added and applied in that order by every Start.
use samsara_components.Prelude.{
  ◌≡◌, refl, sym, List, [], ◌∷◌, ◌++◌, Option, none, or_else, or_else_assoc, or_else-none,
}

-- `c.opts = append(c.opts, opt)`
unfoldable pub add_option : {A : Type 0} → A → List A → List A
add_option opt opts = opts ++ opt ∷ []

module _ {A : Type 0} where
  -- `for _, opt := range c.driverOptions() { opt(cfg) }`
  unfoldable pub apply_all : List (A → A) → A → A
  apply_all [] a = a
  apply_all (opt ∷ opts) a = apply_all opts (opt a)

  -- The option that was added last is applied last, to what the others have made of the settings.
  pub apply_all-add_option :
      (opt : A → A) (opts : List (A → A)) (a : A)
      → apply_all (add_option opt opts) a ≡ opt (apply_all opts a)
  unfolding apply_all add_option
  apply_all-add_option opt [] a = refl
  apply_all-add_option opt (o ∷ opts) a =
      unfold apply_all add_option in apply_all-add_option opt opts (o a)

module _ {A B : Type 0} (f : A → Option B) where
  -- Of a list of settings that are applied in order: what is in effect at the end.
  abbrev pub in_effect : List A → Option B
  in_effect [] = none
  in_effect (x ∷ xs) = or_else (in_effect xs) (f x)

  pub in_effect-append :
      (xs ys : List A) → in_effect (xs ++ ys) ≡ or_else (in_effect ys) (in_effect xs)
  in_effect-append [] ys = sym (or_else-none (in_effect ys))
  in_effect-append (x ∷ xs) ys =
      rw (in_effect-append xs ys) (or_else_assoc (in_effect ys) (in_effect xs) (f x))
