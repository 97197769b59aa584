-- ===== src/Store/Errors.antt =====
-- internal/store/errors.go, and the other errors that the services return.
use ai_edge.Prelude.{ℕ, String, Bool, true, false, ◌||◌, Option, none, some}
use text.Mathlib.Text.{find?}
use ai_edge.Proto.{TaskStatus, Code}

pub data Error : Type 0 where
  err_not_found err_conflict err_already_exists err_permission_denied err_precondition : Error
  -- An error of the database driver, with its text.
  driver : String → Error
  -- fmt.Errorf("text")
  plain : String → Error
  -- fmt.Errorf("text: %w", err)
  wrap : String → Error → Error
  -- fmt.Errorf("%w: text", err)
  detailed : Error → String → Error
  -- *ErrInvalidTransition
  invalid_transition : TaskStatus → TaskStatus → Error
  -- status.Error(code, text)
  grpc : Code → String → Error
  -- status.Errorf(code, "text: %v", err); `errors.Is` does not look through it.
  grpc_of : Code → String → Error → Error
  -- The error of Renew for a certificate that is valid for longer than the threshold.
  renew_not_allowed : (remaining : ℕ) → Error

pub data Result {ℓ} (A : Type ℓ) : Type ℓ where
  ok : A → Result A
  err : Error → Result A

-- strings.Contains
abbrev pub contains : String → String → Bool
contains s part = elim (find? s part) [ none ↦ false | some _ ↦ true ]

-- The argument is the text of `err`, or `none` for nil.
unfoldable pub is_unique_violation : Option String → Bool
is_unique_violation none = false
is_unique_violation (some text) =
    contains text "duplicate key value violates unique constraint" || contains text "23505"

unfoldable pub is_foreign_key_violation : Option String → Bool
is_foreign_key_violation none = false
is_foreign_key_violation (some text) =
    contains text "violates foreign key constraint" || contains text "23503"

-- err.Error() of an error that the driver returned.
abbrev pub driver_text : Error → Option String
driver_text (driver text) = some text
driver_text _ = none

-- The sentinel that `errors.Is` finds: it goes through what `%w` wraps.
unfoldable pub unwrap : Error → Error
unwrap (wrap text e) = unwrap e
unwrap (detailed e text) = unwrap e
unwrap e = e
