-- ===== src/Prometheus/Lifecycle/Failure.antt =====
-- What a server of package prometheus that ends by itself leaves behind.
use samsara_components.Prelude.{
  ℕ, Bool, true, false, ◌≡◌, ◌∙◌, refl, arith, List, [], ◌∷◌, none, some, if◌then◌else◌,
}
use samsara_components.Prometheus.Lifecycle.{
  Pc, serving, returned, failed, World, Action, call_start, call_stop, served, move, run, health,
}

abbrev pub is_call : Action → Bool
is_call (call_start bound) = true
is_call call_stop = true
is_call _ = false

-- No thread calls Start or Stop; those that run go on.
abbrev pub HasNoCall : List (ℕ × Action) → Type 0
HasNoCall [] = Unit {0}
HasNoCall ((i, a) ∷ ms) = (is_call a ≡ false) × HasNoCall ms

abbrev pub end_of : (has_failed : Bool) → Pc
end_of has_failed = if has_failed then failed else returned

server_stays :
    (w : World) (i : ℕ) (a : Action) → is_call a ≡ false → (move w (i, a)).server ≡ w.server
unfolding move
server_stays w i a h = ground arith

end_stays :
    (w : World) (i j : ℕ) (a : Action) (b : Bool)
    → w.pc i ≡ end_of b
    → (move w (j, a)).pc i ≡ end_of b
unfolding move
end_stays w i j a b h = ground arith

module _ (i : ℕ) (b : Bool) where
  run_stays :
      (w : World) (ms : List (ℕ × Action))
      → HasNoCall ms
      → w.pc i ≡ end_of b
      → ((run w ms).pc i ≡ end_of b) × ((run w ms).server ≡ w.server)
  unfolding run
  run_stays w [] h e = (e, refl)
  run_stays w ((j, a) ∷ ms) (h, hs) e =
      let (p, s) = run_stays (move w (j, a)) ms hs (end_stays w i j a b e) in
      (p, s ∙ server_stays w j a h)

ends_so :
    (w : World) (i s ch : ℕ) (has_failed : Bool)
    → w.pc i ≡ serving s ch
    → (move w (i, served has_failed)).pc i ≡ end_of has_failed
unfolding move
ends_so w i s ch has_failed e = ground (arith, e)

of_server : (w : World) (s : ℕ) → w.server ≡ some s → health w ≡ none
unfolding health
of_server w s e = rw e refl

-- When the serving goroutine of a Start that waits ends by itself, with an error or without one, the Start
-- ends with it. But as long as Start and Stop are not called again, whatever steps the other threads
-- take, Health of a component that had this server set returns nil.
pub served-health :
    (w : World) (i s ch : ℕ) (has_failed : Bool) (ms : List (ℕ × Action))
    → w.pc i ≡ serving s ch
    → w.server ≡ some s
    → HasNoCall ms
    → ((run (move w (i, served has_failed)) ms).pc i ≡ end_of has_failed)
      × (health (run (move w (i, served has_failed)) ms) ≡ none)
served-health w i s ch has_failed ms e set h =
    let w' = move w (i, served has_failed) in
    let (p, q) = run_stays i has_failed w' ms h (ends_so w i s ch has_failed e) in
    (p, of_server (run w' ms) s (q ∙ server_stays w i (served has_failed) refl ∙ set))
