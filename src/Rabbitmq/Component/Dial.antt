-- ===== src/Rabbitmq/Component/Dial.antt =====
-- The dial of Start in rabbitmq/rabbitmq.go, which is raced against the context and a timer, and the opening
-- of the channel.
use samsara_components.Prelude.{
  ℕ, String, Bool, true, false, ◌≡◌, ◌↔◌, List, [], ◌∷◌, ◌⊎◌, inl, inr, count, arith, refl,
}
use samsara_components.Go.Errors.{Error, newf, errorf}

-- Which case the select of Start takes.
pub data Winner : Type 0 where
  ctx_done timed_out dialled : Winner

-- What becomes of connections: the dial makes one, and it is closed.
pub data Call : Type 0 where
  made closed : (conn : ℕ) → Call

pub data Outcome : Type 0 where
  failed : Error → Outcome
  cancelled : Outcome
  opened : (conn ch : ℕ) → Outcome

-- The goroutine that drains the dial, and closes the connection that it makes.
abbrev pub drained : Error ⊎ ℕ → List Call
drained (inl e) = []
drained (inr conn) = made conn ∷ closed conn ∷ []

-- What the dial makes, where nobody receives its result.
abbrev pub abandoned : Error ⊎ ℕ → List Call
abandoned (inl e) = []
abandoned (inr conn) = made conn ∷ []

-- `timeout` is the text of the connect timeout, `channel` what `conn.Channel` answers.
module _ (timeout : String) (channel : (conn : ℕ) → Error ⊎ ℕ) where
  abbrev pub after_channel : (conn : ℕ) → Error ⊎ ℕ → List Call × Outcome
  after_channel conn (inl e) =
      (made conn ∷ closed conn ∷ [], failed (errorf "rabbitmq: open channel failed: %w" [] e))
  after_channel conn (inr ch) = (made conn ∷ [], opened conn ch)

  abbrev pub after_dial : Error ⊎ ℕ → List Call × Outcome
  after_dial (inl e) = ([], failed (errorf "rabbitmq: dial failed: %w" [] e))
  after_dial (inr conn) = after_channel conn (channel conn)

  -- `dial` is what the dial comes to, be it before Start has gone on or after.
  unfoldable pub race_dial : Winner → (dial : Error ⊎ ℕ) → List Call × Outcome
  race_dial ctx_done dial = (drained dial, cancelled)
  race_dial timed_out dial =
      (abandoned dial, failed (newf "rabbitmq: dial timed out after %s" (timeout ∷ [])))
  race_dial dialled dial = after_dial dial

abbrev pub is_made : Call → Bool
is_made (made conn) = true
is_made _ = false

abbrev pub is_closed : Call → Bool
is_closed (closed conn) = true
is_closed _ = false

-- Every connection that was made has been closed, but for the one that Start goes on with.
abbrev pub IsTidy : List Call × Outcome → Type 0
IsTidy (calls, opened conn ch) = calls ≡ made conn ∷ []
IsTidy (calls, _) = count is_made calls ≡ count is_closed calls

abbrev pub Late : Winner → Error ⊎ ℕ → Type 0
Late timed_out (inr conn) = Unit
Late _ _ = ⊥

channel-IsTidy :
    (timeout : String) (channel : (conn : ℕ) → Error ⊎ ℕ) (conn : ℕ) (r : Error ⊎ ℕ)
    → IsTidy (after_channel timeout channel conn r)
channel-IsTidy timeout channel conn (inl e) = refl
channel-IsTidy timeout channel conn (inr ch) = refl

-- The dial leaks no connection, whichever case the select takes, except in one: if the timer fires first
-- and the dial succeeds after all, nobody closes its connection.
pub race_dial-IsTidy_iff :
    (timeout : String) (channel : (conn : ℕ) → Error ⊎ ℕ) (w : Winner) (dial : Error ⊎ ℕ)
    → IsTidy (race_dial timeout channel w dial) ↔ ¬ Late w dial
unfolding race_dial
race_dial-IsTidy_iff timeout channel ctx_done (inl e) = (λ h l. l, λ h. refl)
race_dial-IsTidy_iff timeout channel ctx_done (inr conn) = (λ h l. l, λ h. refl)
race_dial-IsTidy_iff timeout channel timed_out (inl e) = (λ h l. l, λ h. refl)
race_dial-IsTidy_iff timeout channel timed_out (inr conn) = (λ h l. omega arith, λ h. absurd (h tt))
race_dial-IsTidy_iff timeout channel dialled (inl e) = (λ h l. l, λ h. refl)
race_dial-IsTidy_iff timeout channel dialled (inr conn) =
    (λ h l. l, λ h. channel-IsTidy timeout channel conn (channel conn))
