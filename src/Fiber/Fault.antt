-- ===== src/Fiber/Fault.antt =====
-- fiber/errors.go: the status of the response to a handler's error.
use samsara_components.Prelude.{
  ℕ, String, ◌≡◌, refl, List, [], ◌∷◌, ◌++◌, Option, none, some, ℤ, pos, inl, inr, Option-cases,
  or_else,
}

mutual
  -- An error, known by its number, with the errors that it unwraps to.
  pub data Tree : Type 0 where
    node : (error : ℕ) → Forest → Tree

  pub data Forest : Type 0 where
    nil : Forest
    cons : Tree → Forest → Forest

-- Of an error: its code if it is a `*gf.Error`, the answer of its StatusCode if it is an HTTPStatuser; and
-- its text. No error has a method As of its own.
pub record Kinds : Type 0 where
  pub fiber_code : ℕ → Option ℤ
  pub status_code : ℕ → Option ℤ
  pub text : ℕ → String

pub record Response : Type 0 where
  pub status : ℤ
  pub error : String

unfoldable mutual
  -- `errors.As`: an error before its causes, and each cause with its own before the next.
  pub errors_as : (ℕ → Option ℤ) → Tree → Option ℤ
  errors_as kind (node e causes) = or_else (kind e) (any_as kind causes)

  pub any_as : (ℕ → Option ℤ) → Forest → Option ℤ
  any_as kind nil = none
  any_as kind (cons cause causes) = or_else (errors_as kind cause) (any_as kind causes)

abbrev pub error_of : Tree → ℕ
error_of (node e causes) = e

abbrev pub status_of : (fiber_code status_code : Option ℤ) → ℤ
status_of (some code) status = code
status_of none (some code) = code
status_of none none = pos 500

unfoldable pub default_error_handler : Kinds → Tree → Response
unfolding errors_as
default_error_handler k err = record {
  status = status_of (errors_as k.fiber_code err) (errors_as k.status_code err);
  error = k.text (error_of err);
}

unfoldable mutual
  -- The errors of a tree: each before its causes.
  pub errors : Tree → List ℕ
  errors (node e causes) = e ∷ errors_in causes

  pub errors_in : Forest → List ℕ
  errors_in nil = []
  errors_in (cons cause causes) = errors cause ++ errors_in causes

abbrev pub first : (ℕ → Option ℤ) → List ℕ → Option ℤ
first kind [] = none
first kind (e ∷ es) = or_else (kind e) (first kind es)

first-append :
    (kind : ℕ → Option ℤ) (xs ys : List ℕ)
    → first kind (xs ++ ys) ≡ or_else (first kind xs) (first kind ys)
first-append kind [] ys = refl
first-append kind (x ∷ xs) ys = elim (Option-cases (kind x)) [
  | inl e ↦ rw e (first-append kind xs ys)
  | inr (c, e) ↦ rw e refl
]

mutual
  unfolding errors_as any_as errors errors_in

  errors_as-first : (kind : ℕ → Option ℤ) (e : Tree) → errors_as kind e ≡ first kind (errors e)
  errors_as-first kind (node e causes) = rw (any_as-first kind causes) refl

  any_as-first : (kind : ℕ → Option ℤ) (es : Forest) → any_as kind es ≡ first kind (errors_in es)
  any_as-first kind nil = refl
  any_as-first kind (cons cause causes) =
      rw
        (
          errors_as-first kind cause,
          any_as-first kind causes,
          first-append kind (errors cause) (errors_in causes),
        )
        refl

-- Take the errors of a tree with each error before its causes, and these from left to right. The status of the
-- response is the code of the first that is one of Fiber's own; if there is none, that of the first
-- which knows its status; and 500 if there is neither. The body is the text of the whole error.
pub default_error_handler_lem :
    (k : Kinds) (err : Tree)
    → let r = default_error_handler k err in
      ((code : ℤ) → first k.fiber_code (errors err) ≡ some code → r.status ≡ code)
      × ((code : ℤ)
          → first k.fiber_code (errors err) ≡ none
          → first k.status_code (errors err) ≡ some code
          → r.status ≡ code)
      × (first k.fiber_code (errors err) ≡ none
          → first k.status_code (errors err) ≡ none
          → r.status ≡ pos 500)
      × (r.error ≡ k.text (error_of err))
unfolding default_error_handler
default_error_handler_lem k err =
    rw (errors_as-first k.fiber_code err, errors_as-first k.status_code err)
      (λ code f. rw f refl, λ code f s. rw (f, s) refl, λ f s. rw (f, s) refl, refl)
