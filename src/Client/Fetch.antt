-- ===== src/Client/Fetch.antt =====
-- `fetch` of clients/rust/nabla-client/src/lib.rs: a batch of rows turned into transactions.
use nabla.Base.{
  ℕ, suc, List, [], ◌∷◌, ◌++◌, map, Option, none, some, Bool, true, false, not, ◌&&◌, Text, Result,
  ok, err, ◌>>=◌, length, get_last?, text_eq, codes, ◌==◌, leb, if◌then◌else◌,
}
use nabla.Base.Int.{ℤ}
use nabla.Client.Types.{Op, Delta, Event, ServerRow, ChangeRow, Error, Subscription}

unfoldable pub parse_op : Text → Result Error Op
parse_op t =
    if text_eq t (codes "I")
    then ok Op.insert
    else if text_eq t (codes "D")
    then ok Op.delete
    else err (Error.unknown_op t)

unfoldable pub same_xid : Option ℕ → Option ℕ → Bool
same_xid none none = true
same_xid none (some b) = false
same_xid (some a) none = false
same_xid (some a) (some b) = a == b

-- A group that is not empty: its first row and the others.
abbrev pub Group : Type 0 → Type 0
Group V = ChangeRow V × List (ChangeRow V)

module _ {V : Type 0} where
  -- The rows must carry the numbers from `expected` on.
  unfoldable pub parse_rows : ℕ → List (ServerRow V) → Result Error (List (ChangeRow V))
  parse_rows expected [] = ok []
  parse_rows expected (r ∷ rows) =
      let rest = parse_rows (suc expected) rows in
      if not (r.seq == expected)
      then err (Error.unexpected_seq expected r.seq)
      else (parse_op r.op >>= λ op. rest >>= λ parsed.
          ok (record { seq = r.seq; lsn = r.lsn; xid = r.xid; op = op; row = r.row } ∷ parsed))

  unfoldable pub same_transaction : ChangeRow V → ChangeRow V → Bool
  same_transaction a b = same_xid a.xid b.xid && text_eq a.lsn b.lsn

  abbrev pub rows_of : Group V → List (ChangeRow V)
  rows_of g = g.0 ∷ g.1

  -- The row joins the last group, if it is of the same transaction as that group's first row.
  unfoldable pub add_row : List (Group V) → ChangeRow V → List (Group V)
  add_row [] row = (row, []) ∷ []
  add_row (g ∷ []) row =
      if same_transaction g.0 row then (g.0, g.1 ++ (row ∷ [])) ∷ [] else g ∷ (row, []) ∷ []
  add_row (g ∷ h ∷ groups) row = g ∷ add_row (h ∷ groups) row

  unfoldable pub group_rows : List (Group V) → List (ChangeRow V) → List (Group V)
  group_rows groups [] = groups
  group_rows groups (row ∷ rows) = group_rows (add_row groups row) rows

  -- `groups.pop()`: the groups before the last, and the rows of the last.
  unfoldable pub pop_group : List (Group V) → List (Group V) × List (ChangeRow V)
  pop_group [] = ([], [])
  pop_group (g ∷ []) = ([], rows_of g)
  pop_group (g ∷ h ∷ groups) = let rest = pop_group (h ∷ groups) in (g ∷ rest.0, rest.1)

  unfoldable pub last_seq_of : ChangeRow V → List (ChangeRow V) → ℕ
  last_seq_of row [] = row.seq
  last_seq_of row (r ∷ rows) = last_seq_of r rows

  unfoldable pub delta_of : ChangeRow V → Delta V
  delta_of r = record { seq = r.seq; op = r.op; row = r.row }

  -- The event of a group, with the cursor to adopt when it is handed out.
  unfoldable pub event_of : ℤ → Group V → Event V × Option ℕ
  event_of epoch g = (
    Event.transaction g.0.xid g.0.lsn epoch (map delta_of (rows_of g)),
    some (last_seq_of g.0 g.1),
  )

  -- The last row that is known.
  unfoldable pub after : Subscription V → ℕ
  after sub = elim (get_last? sub.tail) [ none ↦ sub.cursor | some r ↦ r.seq ]

  unfoldable pub hand_over : List (Group V) → Bool → Subscription V → Subscription V
  hand_over groups full sub =
      let kept = if full then pop_group groups else (groups, []) in
      record sub { tail = kept.1; pending = sub.pending ++ map (event_of sub.epoch) kept.0 }

  -- The rows that the server returned after the last known one. `batch` is the size asked for.
  unfoldable pub fetch : ℕ → List (ServerRow V) → Subscription V → Result Error (Subscription V)
  fetch batch rows sub = parse_rows (suc (after sub)) rows >>= λ parsed.
      ok (hand_over (group_rows [] (sub.tail ++ parsed)) (leb batch (length rows)) sub)
