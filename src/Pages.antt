-- ===== src/Pages.antt =====
-- The pages of the list calls: PageRequest of the API, the tokens that the services make of offsets,
-- and LIMIT with OFFSET. strconv.Atoi and strconv.Itoa are parameters.
use ai_edge.Prelude.{
  ℕ, zero, suc, String, Option, none, some, List, ◌==◌, ltb, if◌then◌else◌, take, drop,
}
use ai_edge.Prelude.Int.{ℤ, pos, negsuc, ltb_ℤ}
use ai_edge.Store.Schema.{Db}
use ai_edge.Store.Session.{Outcome, done, violates}

pub record PageRequest : Type 0 where
  pub page_size : ℤ
  pub page_token : String

-- A value that is not positive is replaced by the default.
abbrev pub positive_or : ℕ → ℤ → ℤ
positive_or default (negsuc n) = pos default
positive_or default (pos zero) = pos default
positive_or default (pos (suc n)) = pos (suc n)

abbrev pub page_size_of : Option PageRequest → ℤ
page_size_of none = pos 20
page_size_of (some p) = positive_or 20 p.page_size

-- A token that is empty or no number leaves the offset at 0.
abbrev pub offset_of : (String → Option ℤ) → Option PageRequest → ℤ
offset_of atoi none = pos 0
offset_of atoi (some p) =
    if p.page_token == "" then pos 0 else elim (atoi p.page_token) [ none ↦ pos 0 | some v ↦ v ]

-- The token of the page that begins at `next`, if rows are left there.
abbrev pub next_token : (ℤ → String) → ℤ → ℕ → String
next_token itoa next total = if ltb_ℤ next (pos total) then itoa next else ""

-- The limit of a store's list: a value out of range is replaced.
unfoldable pub clamp_limit : ℤ → ℕ
clamp_limit (negsuc n) = 20
clamp_limit (pos zero) = 20
clamp_limit (pos (suc n)) = if ltb 100 (suc n) then 20 else suc n

-- LIMIT and OFFSET; PostgreSQL refuses a negative offset.
abbrev pub page_rows {ℓ} : {A : Type ℓ} → ℕ → ℤ → List A → Db → Outcome (List A)
page_rows limit (negsuc n) rows db = violates "pq: OFFSET must not be negative"
page_rows limit (pos n) rows db = done (take limit (drop n rows)) db

-- A list call of a service that hands its page size to LIMIT; a page size is positive.
abbrev pub size_ℕ : ℤ → ℕ
size_ℕ (pos n) = n
size_ℕ (negsuc n) = 0
