-- ===== src/S3/Lifecycle/Together.antt =====
-- The handles of package s3 come and go together.
use mathlib.Core.Option
use mathlib.Core.Path.{subst}
use samsara_components.Prelude.{
  ℕ, Bool, false, ◌≡◌, refl, List, [], ◌∷◌, Option, none, some, ◌⊎◌, inl, inr, arith,
}
use samsara_components.Go.Errors.{Error}
use samsara_components.Runner.{Action, call_stop, step}
use samsara_components.S3.Connect.{
  Options, Library, Live, new_engine, after_load, start, Agrees, start-health,
}
use samsara_components.S3.Config.{Config}
use samsara_components.S3.Probe.{Server, health}
use samsara_components.S3.Lifecycle.Signals.{run-calm}
use samsara_components.S3.Lifecycle.{
  Pc, idle, connecting, serving, testing, signalling, World, start_store, start_wait, new, dispatch,
  move, run,
}

abbrev pub no_handles : Live
no_handles = record { client = none; presigner = none; engine = none }

-- No handle is set, or they are those that the Start of one thread came to.
abbrev pub AreOf : (ℕ → Error ⊎ Live) → Live → Type 0
AreOf connect live = (live ≡ no_handles) ⊎ ((i : ℕ) × (connect i ≡ inr live))

module _ (connect : ℕ → Error ⊎ Live) where
  store-AreOf :
      (w : World) (i s : ℕ) (r : Error ⊎ Live)
      → connect i ≡ r
      → AreOf connect w.live
      → AreOf connect (start_store w i s r).live
  unfolding start_store
  store-AreOf w i s (inl e) c h = h
  store-AreOf w i s (inr live) c h = inr (i, c)

  wait_live : (w : World) (i s : ℕ) (d : Bool) → (start_wait w i s d).live ≡ w.live
  unfolding start_wait
  wait_live w i s d = ground arith

  move-AreOf :
      (w : World) (i : ℕ) (p : Pc) (a : Action)
      → AreOf connect w.live
      → AreOf connect (dispatch connect p a w i).live
  unfolding dispatch
  move-AreOf w i idle call_stop h = inl refl
  move-AreOf w i (connecting s) (step d) h = store-AreOf w i s (connect i) refl h
  move-AreOf w i (serving s) (step d) h = rw (wait_live w i s d) h
  move-AreOf w i (testing ch) (step d) h = h
  move-AreOf w i (signalling ch) (step d) h = h
  move-AreOf w i _ _ h = h

  run-AreOf :
      (w : World) (ms : List (ℕ × Action))
      → AreOf connect w.live
      → AreOf connect (run connect w ms).live
  unfolding run move
  run-AreOf w [] h = h
  run-AreOf w ((i, a) ∷ ms) h = run-AreOf (move connect w (i, a)) ms (move-AreOf w i (w.pc i) a h)

-- The presigner and the engine are made for the client, and the client passes the test of Health.
abbrev pub IsWhole : Config → Server → Live → Type 0
IsWhole c s live =
    (health s c live.client ≡ none)
    × (live.presigner ≡ live.client)
    × (live.engine ≡ Option.map (λ client. new_engine client c) live.client)

module _ {Rest : Type 0} (l : Library Rest) (c : Config)
    (opts : List (Options Rest → Options Rest)) where
  from_health :
      (s : Server) (live : Live) (h : Option Error) (r : Error ⊎ Live)
      → Agrees l s c opts h r
      → r ≡ inr live
      → IsWhole c s live
  from_health s live (some e) r (e', wrapped, same) made = absurd cc
  from_health s live none r (mine, ok, p, q, t) made =
      let same : mine ≡ live = cc in subst (λ m. IsWhole c s m) same (p, q, t)

  from_load :
      (s : Server) (live : Live) (r : Error ⊎ ℕ)
      → l.load c.region c.key_id c.secret ≡ r
      → start l s c opts ≡ inr live
      → after_load l s c opts r ≡ inr live
      → IsWhole c s live
  from_load s live (inl e) loaded made h = absurd cc
  from_load s live (inr aws) loaded made h =
      from_health s live _ (start l s c opts) (start-health l s c opts aws loaded) made

  start-IsWhole : (s : Server) (live : Live) → start l s c opts ≡ inr live → IsWhole c s live
  unfolding start
  start-IsWhole s live made = from_load s live _ refl made made

-- `opts` is what driverOptions returns to the Start of each thread.
module _ {Rest : Type 0} (l : Library Rest) (c : Config) where
  -- After any interleaving of calls of Start and Stop, the client, the presigner and the engine that the
  -- component hands out are all nil; or they are made for one client, on which Health was nil when the
  -- Start that stored them looked at the server. And no stop channel has been closed twice.
  pub run-together :
      (opts : ℕ → List (Options Rest → Options Rest)) (s : ℕ → Server) (ms : List (ℕ × Action))
      → let w = run (λ i. start l (s i) c (opts i)) new ms in
        ((w.live ≡ no_handles) ⊎ ((i : ℕ) × IsWhole c (s i) w.live)) × (w.panicked ≡ false)
  unfolding new
  run-together opts s ms =
      let connect = λ (i : ℕ). start l (s i) c (opts i) in
      (
        elim (run-AreOf connect new ms (inl refl)) [
          | inl e ↦ inl e
          | inr (i, made) ↦ inr (i, start-IsWhole l c (opts i) (s i) _ made)
        ],
        run-calm connect ms,
      )
