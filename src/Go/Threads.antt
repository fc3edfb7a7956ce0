-- ===== src/Go/Threads.antt =====
-- Families that threads, channels and handles index: a goroutine, a channel or a handle is a number.
use samsara_components.Prelude.{ℕ, suc, Bool, ◌&&◌, ◌==◌, List, [], ◌∷◌, if◌then◌else◌}

-- A family with its entry at `i` replaced.
abbrev pub set_at : {A : Type 0} → ℕ → A → (ℕ → A) → ℕ → A
set_at i a f = λ j. if i == j then a else f j

-- How many actions of a kind the schedule gives to a thread.
abbrev pub turns : {A : Type 0} → (A → Bool) → ℕ → List (ℕ × A) → ℕ
turns p j [] = 0
turns p j ((i, a) ∷ ms) = let rest = turns p j ms in if i == j && p a then suc rest else rest
