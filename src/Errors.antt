-- ===== src/Errors.antt =====
-- src/errors.rs: the SQLSTATE codes, their packing, and the reports of the extension's own errors.
use nabla.Base.{
  ℕ, zero, suc, ◌+◌, ◌-◌, ◌*◌, ◌%◌, ◌^◌, List, [], ◌∷◌, ◌++◌, Option, none, some, ◌==◌, length,
  if◌then◌else◌, Text, codes, concat, decimal,
}
use nabla.Base.Int.{ℤ, pos, negsuc}
pub mod RoundTrip
mod Tests

abbrev pub sqlstate_lagged : Text
sqlstate_lagged = codes "NB001"

abbrev pub sqlstate_stale : Text
sqlstate_stale = codes "NB002"

abbrev pub sqlstate_epoch_changed : Text
sqlstate_epoch_changed = codes "NB003"

abbrev pub sqlstate_unsupported_definition : Text
sqlstate_unsupported_definition = codes "NB004"

abbrev pub sqlstate_failed : Text
sqlstate_failed = codes "NB006"

abbrev pub shapes_hint : Text
shapes_hint = concat (
    codes "Accepted shapes: (1) projection: SELECT expr [AS alias][, ...] FROM table [JOIN ...] "
    ∷ codes
        "[WHERE predicate], where a single table's primary key columns are selected as plain columns; "
    ∷ codes
        "(2) aggregate: SELECT key [AS alias][, ...], count(*) [AS a][, sum(expr) [AS b]]... FROM table "
    ∷ codes "[JOIN ...] [WHERE predicate] GROUP BY key[, ...]. "
    ∷ codes
        "Expressions may only use IMMUTABLE functions and operators over the base tables' columns."
    ∷ [])

-- `((b as i32) - b'0' as i32) & 0x3F`: the difference is a 32-bit word, of which the lowest six bits stay.
unfoldable pub six_bits : ℕ → ℕ
six_bits b = (b + (4294967296 - 48)) % 4294967296 % 64

-- The sum from the character at position `i` on.
unfoldable pub packed : ℕ → List ℕ → ℕ
packed i [] = 0
packed i (b ∷ bs) = six_bits b * 2 ^ (6 * i) + packed (suc i) bs

-- `none` where the assertion fails.
unfoldable pub make_sqlstate : List ℕ → Option ℕ
make_sqlstate code = if length code == 5 then some (packed 0 code) else none

-- What an ERROR carries. It ends the transaction of the session that raises it.
pub record Report : Type 0 where
  pub sqlstate : Text
  pub message : Text
  pub detail : Option Text
  pub hint : Option Text

unfoldable pub raise_sqlstate : Text → Text → Option Text → Option Text → Report
raise_sqlstate code message detail hint = record {
  sqlstate = code;
  message = message;
  detail = detail;
  hint = hint;
}

-- PostgreSQL's code for the condition, a message and a hint.
unfoldable pub raise : Text → Text → Option Text → Report
raise code message hint = raise_sqlstate code message none hint

unfoldable pub unsupported_definition : Text → Report
unsupported_definition reason =
    raise_sqlstate sqlstate_unsupported_definition
      (codes "nabla: unsupported view definition: " ++ reason) none (some shapes_hint)

unfoldable pub lagged : Text → ℕ → Report
lagged name oldest_retained_seq =
    raise_sqlstate sqlstate_lagged
      (concat
        (codes "nabla: subscriber lagged behind retention for view \"" ∷ name ∷ codes "\"" ∷ []))
      (some (codes "oldest retained seq is " ++ decimal oldest_retained_seq))
      (some (codes "resync from the view and continue from nabla.status(...).current_seq"))

-- `reason.unwrap_or("reason not recorded")`.
unfoldable pub recorded : Option Text → Text
recorded none = codes "reason not recorded"
recorded (some reason) = reason

unfoldable pub stale : Text → Option Text → Report
stale name reason =
    raise_sqlstate sqlstate_stale
      (concat (codes "nabla: view \"" ∷ name ∷ codes "\" is stale" ∷ [])) (some (recorded reason))
      (some (concat (codes "run nabla.refresh('" ∷ name ∷ codes "') after fixing the cause" ∷ [])))

-- `{}` of a signed number.
unfoldable pub integer : ℤ → Text
integer (pos n) = decimal n
integer (negsuc n) = b'-' ∷ decimal (suc n)

unfoldable pub epoch_changed : Text → ℤ → ℤ → Report
epoch_changed name from to =
    raise_sqlstate sqlstate_epoch_changed
      (concat (codes "nabla: view \"" ∷ name ∷ codes "\" epoch changed" ∷ []))
      (some (concat (codes "epoch " ∷ integer from ∷ codes " -> " ∷ integer to ∷ [])))
      (some (codes "resync from the view"))

unfoldable pub failed : Text → Option Text → Report
failed name reason =
    raise_sqlstate sqlstate_failed
      (concat (codes "nabla: view \"" ∷ name ∷ codes "\" failed to build" ∷ []))
      (some (recorded reason))
      (some (
        concat (
          codes "fix the cause, then run nabla.refresh('"
          ∷ name
          ∷ codes "') or nabla.drop_view('"
          ∷ name
          ∷ codes "')"
          ∷ [])))

unfoldable pub invalid : Text → Option Text → Report
invalid message hint = raise (codes "22023") message hint

unfoldable pub prerequisite : Text → Option Text → Report
prerequisite message hint = raise (codes "55000") message hint
