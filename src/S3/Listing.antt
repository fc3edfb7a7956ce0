-- ===== src/S3/Listing.antt =====
-- The listing of s3/operations.go ends when the server's does, and what deleteByPrefix makes of it.
use mathlib.Core.List.{flatten, append-nil, append_assoc}
use samsara_components.Prelude.{
  ℕ, zero, suc, ◌≤◌, ◌+◌, String, Bool, true, false, ◌≡◌, ◌≢◌, map, refl, ap, ◌∙◌, List, [], ◌∷◌,
  ◌++◌, Option, none, some, arith, length, str_eq,
}
use samsara_components.Go.Errors.{Error, errorf}
use samsara_components.S3.Objects.{
  Client, Page, page_keys, is_last, Keys, list_loop, list_keys, delete_result, delete_listed,
  delete_by_prefix,
}

-- The keys that the objects of a page have.
abbrev pub key_of : Option String → List String
key_of none = []
key_of (some key) = key ∷ []

abbrev pub keys_of : Page → List String
keys_of page = flatten (map key_of page.contents)

page_keys_all : (os : List (Option String)) → page_keys os ≡ flatten (map key_of os)
unfolding page_keys flatten
page_keys_all [] = refl
page_keys_all (none ∷ os) = page_keys_all os
page_keys_all (some key ∷ os) = ap (λ l. key ∷ l) (page_keys_all os)

last_page : (t : Option Bool) → t ≢ some true → is_last t ≡ true
last_page none n = refl
last_page (some false) n = refl
last_page (some true) n = absurd (n refl)

module _ {Body : Type 0} (s : Client Body) (client : ℕ) (bucket prefix : String) where
  -- A listing of the server from a round and a token on, and the keys of its pages. It ends with a page
  -- that is not marked as truncated, or with an error.
  pub data Listing
      : (round : ℕ) (token : Option String) → List (List String) → Option Error → Type 0 where
    last :
        {round : ℕ} {token : Option String} {page : Page}
        → s.list_objects client round bucket prefix token ≡ (page, none)
        → page.is_truncated ≢ some true
        → Listing round token (keys_of page ∷ []) none
    fails :
        {round : ℕ} {token : Option String} {page : Page} {e : Error}
        → s.list_objects client round bucket prefix token ≡ (page, some e)
        → Listing round token [] (some e)
    more :
        {round : ℕ} {token : Option String} {page : Page} {pages : List (List String)}
        {end : Option Error}
        → s.list_objects client round bucket prefix token ≡ (page, none)
        → page.is_truncated ≡ some true
        → Listing (suc round) page.next_token pages end
        → Listing round token (keys_of page ∷ pages) end

  -- What listKeys makes of it: all the keys in order, or none and the wrapped error.
  abbrev pub listed : List String → Option Error → Keys
  listed keys none = (keys, none)
  listed keys (some e) = ([], some (errorf "s3 list-keys %q/%q: %w" (bucket ∷ prefix ∷ []) e))

  list_loop_from :
      {round : ℕ} {token : Option String} {pages : List (List String)} {end : Option Error}
      → Listing round token pages end
      → (fuel : ℕ) (keys : List String) → length pages + 1 ≤ fuel
      → list_loop s client bucket prefix fuel round token keys
        ≡ some (listed (keys ++ flatten pages) end)
  unfolding list_loop flatten
  list_loop_from i zero keys h = absurd (omega arith)
  list_loop_from (last {page} e t) (suc fuel) keys h =
      rw (e, last_page page.is_truncated t, page_keys_all page.contents) (rw append-nil refl)
  list_loop_from (fails e) (suc fuel) keys h = rw e refl
  list_loop_from (more {page} {pages} {end} e t i) (suc fuel) keys h =
      rw (e, t, page_keys_all page.contents)
        (list_loop_from i fuel (keys ++ keys_of page) (omega arith)
          ∙ ap (λ l. some (listed l end)) (append_assoc keys (keys_of page) (flatten pages)))

  -- The requests for a deletion that a listing leads to: one, naming all the keys, if there are any.
  abbrev pub requests : List String → Option Error → List (List String)
  requests keys (some e) = []
  requests [] none = []
  requests (key ∷ keys) none = (key ∷ keys) ∷ []

  -- What the server's answer to the request makes of the count.
  abbrev pub attempted : List String → Option Error → ℕ × Option Error
  attempted keys none = (length keys, none)
  attempted keys (some e) =
      (0, some (errorf "s3 delete-by-prefix %q/%q: %w" (bucket ∷ prefix ∷ []) e))

  -- The count and the error that deleteByPrefix returns.
  abbrev pub deletion : List String → Option Error → ℕ × Option Error
  deletion keys (some e) = (
    0,
    some (
        errorf "s3 delete-by-prefix: list: %w" []
          (errorf "s3 list-keys %q/%q: %w" (bucket ∷ prefix ∷ []) e)),
  )
  deletion [] none = (0, none)
  deletion (key ∷ keys) none = attempted (key ∷ keys) (s.delete_objects client bucket (key ∷ keys))

  attempted_lem :
      (keys : List String) (r : Option Error)
      → delete_result s bucket prefix keys r ≡ attempted keys r
  attempted_lem keys none = refl
  attempted_lem keys (some e) = refl

  delete_listed_lem :
      (keys : List String) (end : Option Error)
      → delete_listed s client bucket prefix (listed keys end)
        ≡ (deletion keys end, requests keys end)
  delete_listed_lem keys (some e) = refl
  delete_listed_lem [] none = refl
  delete_listed_lem (key ∷ keys) none =
      ap (λ r. (r, (key ∷ keys) ∷ []))
        (attempted_lem (key ∷ keys) (s.delete_objects client bucket (key ∷ keys)))

-- For a bucket with a name, if the server's listing takes n pages and then ends, well or with an error,
-- then with fuel for n + 1 rounds ListKeys ends: it returns the keys of all the objects of the pages that have one, in order, or no
-- key and the wrapped error. DeleteByPrefix then sends nothing if the listing failed or named no key,
-- and one request that names all the keys otherwise, however many there are; it returns their number if
-- the server takes that request, and zero with the wrapped error in every other case.
pub delete_by_prefix_lem :
    {Body : Type 0} (s : Client Body) (client : ℕ) (bucket prefix : String)
    (pages : List (List String)) (end : Option Error) (fuel : ℕ)
    → str_eq bucket "" ≡ false
    → Listing s client bucket prefix 0 none pages end
    → length pages + 1 ≤ fuel
    → (list_keys s (some client) fuel bucket prefix
        ≡ some (listed s client bucket prefix (flatten pages) end))
      × (delete_by_prefix s (some client) (some client) fuel bucket prefix
          ≡ some (
            deletion s client bucket prefix (flatten pages) end,
            requests s client bucket prefix (flatten pages) end,
          ))
unfolding list_keys delete_by_prefix
delete_by_prefix_lem s client bucket prefix pages end fuel named i h =
    let l = list_loop_from s client bucket prefix i fuel [] h in
    (
      rw named l,
      rw (named, l) (ap some (delete_listed_lem s client bucket prefix (flatten pages) end)),
    )
