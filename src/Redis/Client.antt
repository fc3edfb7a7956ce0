-- ===== src/Redis/Client.antt =====
-- The KV operations of redis/client.go. go-redis is a record of the commands that they send: what each
-- returns is the server's to say.
pub mod Iterate
pub mod Results
use samsara_components.Prelude.{
  ℕ, zero, suc, String, Bool, true, false, ◌≡◌, List, [], ◌∷◌, ◌++◌, Option, none, some, ℤ, pos,
  ◌==◌, if◌then◌else◌,
}
use samsara_components.Go.Errors.{Error, sentinel, errorf, redis_nil, errors_is}
use samsara_components.Go.Report.{Sink, Observed}
use samsara_components.Redis.Observe.{observe, observe_err}

abbrev pub scan_batch_size : ℕ
scan_batch_size = 100

-- Values are left to the library; `V` is what it can encode. A reply is a value and an error, as in Go.
-- `scan` may answer differently each time: `round` counts the calls of one iteration.
pub record Driver (V : Type 0) : Type 0 where
  pub set : (client : ℕ) (key : String) (value : V) (ttl : ℤ) → Option Error
  pub set_args_nx : (client : ℕ) (key : String) (value : V) (ttl : ℤ) → Option Error
  pub get : (client : ℕ) (key : String) → String × Option Error
  pub del : (client : ℕ) (keys : List String) → ℤ × Option Error
  pub exists : (client : ℕ) (keys : List String) → ℤ × Option Error
  pub incr : (client : ℕ) (key : String) → ℤ × Option Error
  pub expire : (client : ℕ) (key : String) (ttl : ℤ) → Bool × Option Error
  pub ttl : (client : ℕ) (key : String) → ℤ × Option Error
  pub scan :
      (client round cursor : ℕ) (pattern : String) (count : ℕ) → List String × ℕ × Option Error

abbrev pub err_nil : Error
err_nil = sentinel redis_nil

-- `if err != nil { return zero, wrap(err) }; return v, nil`
abbrev pub wrapped : {T : Type 0} → T → (Error → Error) → T × Option Error → T × Option Error
wrapped empty wrap (v, none) = (v, none)
wrapped empty wrap (v, some e) = (empty, some (wrap e))

abbrev pub wrap_err : (Error → Error) → Option Error → Option Error
wrap_err wrap none = none
wrap_err wrap (some e) = some (wrap e)

-- The reply of `SET … NX`: nil means that the key exists.
abbrev pub nx_result : String → Option Error → Bool × Option Error
nx_result key none = (true, none)
nx_result key (some e) =
    if errors_is e redis_nil
    then (false, none)
    else (false, some (errorf "redis setnx %q: %w" (key ∷ []) e))

abbrev pub get_result : String → String × Option Error → String × Option Error
get_result key (v, none) = (v, none)
get_result key (v, some e) =
    if errors_is e redis_nil
    then ("", some err_nil)
    else ("", some (errorf "redis get %q: %w" (key ∷ []) e))

module _ {V : Type 0} (r : Driver V) (sink : Sink) (client : Option ℕ) (elapsed : ℤ) where
  unfoldable pub set : String → V → ℤ → Observed (Unit {0})
  unfolding observe_err
  set key value ttl =
      observe_err sink client "redis.set" elapsed
        λ h. wrap_err (errorf "redis set %q: %w" (key ∷ [])) (r.set h key value ttl)

  unfoldable pub set_nx : String → V → ℤ → Observed Bool
  unfolding observe errors_is
  set_nx key value ttl =
      observe sink client "redis.setnx" elapsed false
        λ h. nx_result key (r.set_args_nx h key value ttl)

  unfoldable pub get : String → Observed String
  unfolding observe errors_is
  get key = observe sink client "redis.get" elapsed "" λ h. get_result key (r.get h key)

  unfoldable pub del : List String → Observed ℤ
  unfolding observe
  del keys =
      observe sink client "redis.del" elapsed (pos 0)
        λ h. wrapped (pos 0) (errorf "redis del: %w" []) (r.del h keys)

  unfoldable pub exists : List String → Observed ℤ
  unfolding observe
  exists keys =
      observe sink client "redis.exists" elapsed (pos 0)
        λ h. wrapped (pos 0) (errorf "redis exists: %w" []) (r.exists h keys)

  unfoldable pub incr : String → Observed ℤ
  unfolding observe
  incr key =
      observe sink client "redis.incr" elapsed (pos 0)
        λ h. wrapped (pos 0) (errorf "redis incr %q: %w" (key ∷ [])) (r.incr h key)

  unfoldable pub expire : String → ℤ → Observed Bool
  unfolding observe
  expire key ttl =
      observe sink client "redis.expire" elapsed false
        λ h. wrapped false (errorf "redis expire %q: %w" (key ∷ [])) (r.expire h key ttl)

  unfoldable pub ttl : String → Observed ℤ
  unfolding observe
  ttl key =
      observe sink client "redis.ttl" elapsed (pos 0)
        λ h. wrapped (pos 0) (errorf "redis ttl %q: %w" (key ∷ [])) (r.ttl h key)

-- What an iteration makes of the replies: the keys, or the keys handed out, and the error.
abbrev pub Outcome : Type 0
Outcome = List String × Option Error

-- One round of the loop of Scan, from the server's reply on; `again` is the next round.
abbrev pub scan_page :
    String
    → (keys : List String) → (ℕ → List String → Option Outcome)
    → List String × ℕ × Option Error
    → Option Outcome
scan_page pattern keys again (batch, next, some e) =
    some ([], some (errorf "redis scan %q: %w" (pattern ∷ []) e))
scan_page pattern keys again (batch, next, none) =
    if next == 0 then some (keys ++ batch, none) else again next (keys ++ batch)

module _ {V : Type 0} (r : Driver V) (client : ℕ) (pattern : String) where
  -- The loop of Scan, on fuel: `none` means that the fuel ran out.
  unfoldable pub scan_loop : (fuel round cursor : ℕ) (keys : List String) → Option Outcome
  scan_loop zero round cursor keys = none
  scan_loop (suc fuel) round cursor keys =
      scan_page pattern keys (scan_loop fuel (suc round))
        (r.scan client round cursor pattern scan_batch_size)

-- The callback of ScanFunc, whose answer may depend on the keys that it has seen.
abbrev pub Callback : Type 0
Callback = List String → String → Option Error

-- `for _, key := range batch { if err := fn(key); err != nil { return err } }`, with the keys that the
-- callback has been handed.
unfoldable pub visit : Callback → (seen keys : List String) → Outcome
visit fn seen [] = (seen, none)
visit fn seen (key ∷ keys) =
    let rest = visit fn (seen ++ key ∷ []) keys in
    elim (fn seen key) [ some e ↦ (seen ++ key ∷ [], some e) | none ↦ rest ]

-- What follows the callbacks of one round of ScanFunc.
abbrev pub func_turn : (next : ℕ) → (ℕ → List String → Option Outcome) → Outcome → Option Outcome
func_turn next again (seen, some e) = some (seen, some e)
func_turn next again (seen, none) = if next == 0 then some (seen, none) else again next seen

-- One round of the loop of ScanFunc, from the server's reply on.
abbrev pub func_page :
    String
    → Callback
    → (seen : List String) → (ℕ → List String → Option Outcome)
    → List String × ℕ × Option Error
    → Option Outcome
func_page pattern fn seen again (batch, next, some e) =
    some (seen, some (errorf "redis scanfunc %q: %w" (pattern ∷ []) e))
func_page pattern fn seen again (batch, next, none) = func_turn next again (visit fn seen batch)

module _ {V : Type 0} (r : Driver V) (client : ℕ) (pattern : String) (fn : Callback) where
  -- The loop of ScanFunc, on fuel.
  unfoldable pub scan_func_loop : (fuel round cursor : ℕ) (seen : List String) → Option Outcome
  unfolding visit
  scan_func_loop zero round cursor seen = none
  scan_func_loop (suc fuel) round cursor seen =
      func_page pattern fn seen (scan_func_loop fuel (suc round))
        (r.scan client round cursor pattern scan_batch_size)

-- What a loop on fuel comes to, observed on the live client.
abbrev pub observe_loop :
    {T : Type 0}
    → Sink
    → (client : ℕ) → String
    → (elapsed : ℤ) → (empty : T) → Option (T × Option Error)
    → Option (Observed T)
observe_loop sink client op elapsed empty none = none
observe_loop sink client op elapsed empty (some result) =
    some (observe sink (some client) op elapsed empty (λ h. result))

module _ {V : Type 0} (r : Driver V) (sink : Sink) (elapsed : ℤ) (fuel : ℕ) where
  unfoldable pub scan : (client : Option ℕ) (pattern : String) → Option (Observed (List String))
  scan none pattern = some (observe sink none "redis.scan" elapsed [] (λ h. ([], none)))
  scan (some client) pattern =
      observe_loop sink client "redis.scan" elapsed [] (scan_loop r client pattern fuel 0 0 [])

  -- With the keys that the callback has been handed.
  unfoldable pub scan_func :
      (client : Option ℕ) (pattern : String) → Callback → Option (Observed (List String))
  scan_func none pattern fn = some (observe sink none "redis.scanfunc" elapsed [] (λ h. ([], none)))
  scan_func (some client) pattern fn =
      observe_loop sink client "redis.scanfunc" elapsed []
        (scan_func_loop r client pattern fn fuel 0 0 [])
