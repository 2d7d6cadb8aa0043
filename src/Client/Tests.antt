-- ===== src/Client/Tests.antt =====
-- Runs of the client, and the theorems at concrete inputs.
use nabla.Base.{
  ℕ, ◌≡◌, refl, List, [], ◌∷◌, All, Option, none, some, true, Text, ok, err, codes, text_eq,
}
use nabla.Base.Int.{pos}
use nabla.Client.Types.{Op, Event, ServerRow, ChangeRow, State, Subscription}
use nabla.Client.Fetch.{
  parse_op, parse_rows, same_xid, same_transaction, add_row, group_rows, pop_group, last_seq_of,
  delta_of, event_of, after, hand_over, fetch,
}
use nabla.Client.Events.{adopt, take_event}
use nabla.Client.Delivery.{Delivers, Starts, flatten, fetch-Delivers, take_event-Delivers}
use nabla.Client.Grouping.{IsOneTransaction, AreSeparate, group_rows-AreSeparate}

-- Two rows of one transaction and one of the next.
abbrev row : ℕ → ℕ → Text → ServerRow ℕ
row seq xid op = record { seq = seq; lsn = codes "0/10"; xid = some xid; op = op; row = seq }

abbrev rows : List (ServerRow ℕ)
rows = row 5 700 (codes "D") ∷ row 6 700 (codes "I") ∷ row 7 701 (codes "I") ∷ []

abbrev following : Subscription ℕ
following = record {
  connected = true;
  state = State.following;
  epoch = pos 1;
  cursor = 4;
  pending = [];
  tail = [];
}

abbrev fetched : Subscription ℕ
fetched = elim (fetch 3 rows following) [ ok sub ↦ sub | err e ↦ following ]

fetches : fetch 3 rows following ≡ ok fetched
unfolding fetch after parse_rows parse_op text_eq
fetches = refl

-- The batch was full, so the last transaction is kept back.
one_transaction :
    fetched.pending
    ≡ (
      Event.transaction (some 700) (codes "0/10") (pos 1) (
          record { seq = 5; op = Op.delete; row = 5 }
          ∷ record { seq = 6; op = Op.insert; row = 6 }
          ∷ []),
      some 6,
    )
      ∷ []
unfolding fetch after parse_rows parse_op text_eq hand_over group_rows add_row same_transaction
    same_xid pop_group event_of delta_of last_seq_of
one_transaction = refl

fetch-Delivers_example : Delivers fetched.cursor fetched.pending fetched.tail 7
fetch-Delivers_example = fetch-Delivers 3 rows following fetched 4 refl refl fetches

abbrev taken : Option (Event ℕ × Subscription ℕ)
taken = take_event fetched

abbrev event : Event ℕ
event = elim taken [ none ↦ Event.snapshot (pos 0) [] 0 [] | some r ↦ r.0 ]

abbrev rest : Subscription ℕ
rest = elim taken [ none ↦ following | some r ↦ r.1 ]

takes : take_event fetched ≡ some (event, rest)
unfolding take_event fetch after parse_rows parse_op text_eq hand_over group_rows add_row
    same_transaction same_xid pop_group event_of delta_of last_seq_of adopt
takes = refl

take_event-Delivers_example :
    Delivers rest.cursor rest.pending rest.tail 7 × Starts 4 event rest.cursor
unfolding fetch after parse_rows parse_op text_eq hand_over
take_event-Delivers_example =
    take_event-Delivers fetched rest event 7
      (fetch-Delivers 3 rows following fetched 4 refl refl fetches) takes

abbrev change : ℕ → ℕ → ChangeRow ℕ
change seq xid = record { seq = seq; lsn = codes "0/10"; xid = some xid; op = Op.insert; row = seq }

group_rows-AreSeparate_example :
    (flatten (group_rows [] (change 5 700 ∷ change 6 700 ∷ change 7 701 ∷ []))
      ≡ change 5 700 ∷ change 6 700 ∷ change 7 701 ∷ [])
    × All IsOneTransaction (group_rows [] (change 5 700 ∷ change 6 700 ∷ change 7 701 ∷ []))
    × AreSeparate (group_rows [] (change 5 700 ∷ change 6 700 ∷ change 7 701 ∷ []))
group_rows-AreSeparate_example =
    group_rows-AreSeparate (change 5 700 ∷ change 6 700 ∷ change 7 701 ∷ [])
