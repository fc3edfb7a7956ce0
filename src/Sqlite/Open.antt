-- ===== src/Sqlite/Open.antt =====
-- sqlite/sqlite.go: what Start does up to ready, and Health.
use samsara_components.Prelude.{
  ℕ, String, Bool, true, false, not, ◌&&◌, ◌≡◌, refl, List, [], ◌∷◌, ◌++◌, Option, none, some,
  arith, ℤ, pos, negsuc, str_eq, if◌then◌else◌, ◌⊎◌, ◌↔◌, inl, inr, count, count-append, ◌==◌,
}
use samsara_components.Go.Setup.{Setup, new_setup}
use samsara_components.Go.Errors.{Error, errorf, newf}
use samsara_components.Go.Format.{itoa}
use samsara_components.Sqlite.Config.{
  Config, Texts, path, in_memory, journal_mode, max_open_conns, dsn,
}

-- What New makes; its options are those of the component, not of the driver.
unfoldable pub new : Config → List (Setup Config ⊥ → Setup Config ⊥) → Setup Config ⊥
unfolding new_setup
new = new_setup "sqlite"

-- The file system and the driver, as they answer while Start runs.
pub record Host : Type 0 where
  pub dir : String → String
  pub mkdir : (dir : String) → Option Error
  pub open_db : (dsn : String) → Error ⊎ ℕ
  pub ping : (db : ℕ) → Option Error
  pub journal : (db : ℕ) → String × Option Error
  pub select_one : (db : ℕ) → ℤ × Option Error

pub data Call : Type 0 where
  made_dir : (dir : String) → Call
  opened : (db : ℕ) → Call
  limited : (db : ℕ) (conns : ℤ) → Call
  pinged : (db : ℕ) → Call
  asked_journal : (db : ℕ) → Call
  closed : (db : ℕ) → Call

abbrev pub Started : Type 0
Started = List Call × (Error ⊎ ℕ)

unfoldable pub verify_journal_mode : Texts → Config → String × Option Error → Option Error
verify_journal_mode t c (got, some e) = some (errorf "sqlite: read journal_mode: %w" [] e)
verify_journal_mode t c (got, none) =
    if t.equal_fold got (journal_mode t c)
    then none
    else if in_memory c
    then none
    else some (
        newf
          "sqlite: journal_mode is %q but %q was requested; WAL is unavailable on this filesystem (network mounts do not support it)"
          (got ∷ journal_mode t c ∷ []))

-- The directory of the database file, which Start creates.
unfoldable pub ensure_dir : Host → Config → List Call × Option Error
ensure_dir h c =
    let dir = h.dir (path c) in
    if in_memory c
    then ([], none)
    else if not (str_eq dir "") && not (str_eq dir ".")
    then (
      made_dir dir ∷ [],
      elim (h.mkdir dir) [
        | none ↦ none
        | some e ↦ some (errorf "sqlite: create data directory %q: %w" (dir ∷ []) e)
      ],
    )
    else ([], none)

-- After the journal mode is read: a handle that fails the check is closed.
abbrev pub after_journal : (db : ℕ) → List Call → Option Error → Started
after_journal db calls (some e) = (calls ++ closed db ∷ [], inl e)
after_journal db calls none = (calls, inr db)

abbrev pub after_ping : Texts → Config → Host → (db : ℕ) → List Call → Option Error → Started
after_ping t c h db calls (some e) =
    (calls ++ closed db ∷ [], inl (errorf "sqlite: ping %q: %w" (path c ∷ []) e))
after_ping t c h db calls none =
    after_journal db (calls ++ asked_journal db ∷ []) (verify_journal_mode t c (h.journal db))

abbrev pub after_open : Texts → Config → Host → List Call → Error ⊎ ℕ → Started
after_open t c h calls (inl e) = (calls, inl (errorf "sqlite: open %q: %w" (path c ∷ []) e))
after_open t c h calls (inr db) =
    after_ping t c h db (calls ++ opened db ∷ limited db (max_open_conns c) ∷ pinged db ∷ [])
      (h.ping db)

abbrev pub after_dir : Texts → Config → Host → List Call × Option Error → Started
after_dir t c h (calls, some e) = (calls, inl e)
after_dir t c h (calls, none) = after_open t c h calls (h.open_db (dsn t c))

-- Start up to ready: the calls that it makes, and its error or the handle that it stores.
unfoldable pub open_database : Texts → Config → Host → Started
open_database t c h = after_dir t c h (ensure_dir h c)

abbrev pub is_one : ℤ → Bool
is_one (pos n) = n == 1
is_one (negsuc n) = false

abbrev pub health_result : ℤ × Option Error → Option Error
health_result (one, some e) = some (errorf "sqlite: health query: %w" [] e)
health_result (one, none) =
    if is_one one
    then none
    else some (newf "sqlite: health query returned %d, want 1" (itoa one ∷ []))

unfoldable pub health : Host → (db : Option ℕ) → Option Error
health h none = some (newf "sqlite: not initialised" [])
health h (some db) = health_result (h.select_one db)

abbrev pub is_opened : Call → Bool
is_opened (opened db) = true
is_opened _ = false

abbrev pub is_closed : Call → Bool
is_closed (closed db) = true
is_closed _ = false

-- The handles that the calls opened and closed.
abbrev pub handles : List Call → ℕ × ℕ
handles calls = (count is_opened calls, count is_closed calls)

-- The answers that let Start reach ready with this handle.
abbrev pub IsUsable : Texts → Config → Host → ℕ → Type 0
IsUsable t c h db =
    ((ensure_dir h c).1 ≡ none)
    × (h.open_db (dsn t c) ≡ inr db)
    × (h.ping db ≡ none)
    × ((h.journal db).1 ≡ none)
    × ((t.equal_fold (h.journal db).0 (journal_mode t c) ≡ true) ⊎ (in_memory c ≡ true))

-- What a run of Start leaves, in terms of its outcome.
abbrev pub Outcome : Texts → Config → Host → Started → Type 0
Outcome t c h (calls, inl e) =
    ((count is_opened calls) ≡ (count is_closed calls)) × ((db : ℕ) → ¬ IsUsable t c h db)
Outcome t c h (calls, inr db) =
    ((count is_opened calls) ≡ 1) × ((count is_closed calls) ≡ 0) × IsUsable t c h db

closed_again :
    (db : ℕ) (calls : List Call)
    → count is_opened calls ≡ 1
    → count is_closed calls ≡ 0
    → count is_opened (calls ++ closed db ∷ []) ≡ count is_closed (calls ++ closed db ∷ [])
closed_again db calls o k = omega (
  arith,
  count-append is_opened calls (closed db ∷ []),
  count-append is_closed calls (closed db ∷ []),
)

module _ (t : Texts) (c : Config) (h : Host) where
  verify_iff :
      (r : String × Option Error)
      → (verify_journal_mode t c r ≡ none)
        ↔ ((r.1 ≡ none) × ((t.equal_fold r.0 (journal_mode t c) ≡ true) ⊎ (in_memory c ≡ true)))
  unfolding verify_journal_mode
  verify_iff (got, some e) = (λ p. cc, λ p. cc)
  verify_iff (got, none) = (λ p. (refl, ground arith), λ (p, u). ground arith)

  ensure_dir_lem :
      (count is_opened (ensure_dir h c).0 ≡ 0) × (count is_closed (ensure_dir h c).0 ≡ 0)
  unfolding ensure_dir
  ensure_dir_lem = (ground arith, ground arith)

  from_journal :
      (db : ℕ) (calls : List Call)
      → count is_opened calls ≡ 1
      → count is_closed calls ≡ 0
      → (ensure_dir h c).1 ≡ none
      → h.open_db (dsn t c) ≡ inr db
      → h.ping db ≡ none
      → (r : Option Error) → verify_journal_mode t c (h.journal db) ≡ r
      → Outcome t c h (after_journal db calls r)
  from_journal db calls o k d p g none v =
      let (j, u) = (verify_iff (h.journal db)).0 v in (o, k, (d, p, g, j, u))
  from_journal db calls o k d p g (some e) v = (
    closed_again db calls o k,
    λ db' (d', p', g', j', u). let v' = (verify_iff (h.journal db')).1 (j', u) in cc,
  )

  from_ping :
      (db : ℕ) (calls : List Call)
      → count is_opened calls ≡ 1
      → count is_closed calls ≡ 0
      → (ensure_dir h c).1 ≡ none
      → h.open_db (dsn t c) ≡ inr db
      → (r : Option Error) → h.ping db ≡ r
      → Outcome t c h (after_ping t c h db calls r)
  from_ping db calls o k d p none g =
      from_journal db (calls ++ asked_journal db ∷ []) (rw (count-append, o) refl)
        (rw (count-append, k) refl) d p g (verify_journal_mode t c (h.journal db)) refl
  from_ping db calls o k d p (some e) g = (closed_again db calls o k, λ db' (d', p', g', j', u). cc)

  from_open :
      (calls : List Call)
      → count is_opened calls ≡ 0
      → count is_closed calls ≡ 0
      → (ensure_dir h c).1 ≡ none
      → (r : Error ⊎ ℕ) → h.open_db (dsn t c) ≡ r
      → Outcome t c h (after_open t c h calls r)
  from_open calls o k d (inr db) p =
      from_ping db _ (rw (count-append, o) refl) (rw (count-append, k) refl) d p (h.ping db) refl
  from_open calls o k d (inl e) p = (omega (arith, o, k), λ db' (d', p', g', j', u). cc)

  from_dir :
      (r : List Call × Option Error)
      → ensure_dir h c ≡ r
      → count is_opened r.0 ≡ 0
      → count is_closed r.0 ≡ 0
      → Outcome t c h (after_dir t c h r)
  from_dir (calls, none) d o k = from_open calls o k (rw d refl) (h.open_db (dsn t c)) refl
  from_dir (calls, some e) d o k = (omega (arith, o, k), λ db (d', p', g', j', u). cc)

-- Start reaches ready if and only if the directory, the handle and the ping are had without an error and
-- the journal mode reads as the one asked for, up to case, or the database is in memory. It then holds
-- the one handle that it opened, which it has not closed. Where it fails, every handle that it opened has
-- been closed again.
pub open_database_lem : (t : Texts) (c : Config) (h : Host) → Outcome t c h (open_database t c h)
unfolding open_database
open_database_lem t c h =
    from_dir t c h (ensure_dir h c) refl (ensure_dir_lem t c h).0 (ensure_dir_lem t c h).1
