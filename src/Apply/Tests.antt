-- ===== src/Apply/Tests.antt =====
-- The unit tests of `net` in src/apply.rs, and the theorems at concrete inputs.
use nabla.Base.{
  ℕ, ◌≡◌, refl, List, [], ◌∷◌, map, Option, none, some, inl, inr, text_eq, position, arith,
  Bool-cases, if◌then◌else◌,
}
use nabla.Base.{ok, true, false, codes}
use nabla.Base.Int.{negsuc}
use nabla.Pgoutput.Types.{Relation, text, unchanged}
use nabla.Apply.Resolve.{is_unchanged, resolve_unchanged}
use nabla.Apply.Recovery.{resolve_unchanged-IsSent}
use nabla.Apply.Types.{Delta}
use nabla.Apply.Sample.{numbers, counts_by_key}
use nabla.Apply.Net.{
  identity_columns, remove_all, visible, get_or_null, key_of, keys_eq, rows_eq, set_after,
  first_state, update_at, record_at, net_step, net_loop, delta_of, emit, emit_all, net,
}
use nabla.Apply.Net.Rows.{RowChange, parsed, printed, last_row, Report, rows_at}
use nabla.Apply.Net.ByKey.{IsNetted, net_by_key}
use nabla.Apply.Net.Subscriber.{LooksLike, replay-net}

abbrev ins : List ℕ → Delta
ins row = record { op = b'I'; row_json = row }

abbrev del : List ℕ → Delta
del row = record { op = b'D'; row_json = row }

-- `insert_then_delete_is_silent_and_delete_keeps_before`.
delete_keeps_before :
    net numbers counts_by_key (del (2 ∷ 3 ∷ []) ∷ ins (2 ∷ 1 ∷ []) ∷ del (2 ∷ 1 ∷ []) ∷ [])
    ≡ del (2 ∷ 3 ∷ []) ∷ []
unfolding net net_loop net_step record_at update_at set_after first_state key_of keys_eq get_or_null
    identity_columns position text_eq emit_all emit rows_eq visible remove_all delta_of
delete_keeps_before = refl

-- `hidden_only_changes_are_silent_and_keys_keep_order`.
hidden_only_is_silent :
    net numbers counts_by_key (del (1 ∷ 1 ∷ 0 ∷ []) ∷ ins (1 ∷ 1 ∷ 1 ∷ []) ∷ []) ≡ []
unfolding net net_loop net_step record_at update_at set_after first_state key_of keys_eq get_or_null
    identity_columns position text_eq emit_all emit rows_eq visible remove_all delta_of
hidden_only_is_silent = refl

keys_keep_order :
    net numbers counts_by_key (del (9 ∷ 1 ∷ []) ∷ ins (9 ∷ 2 ∷ []) ∷ del (3 ∷ 5 ∷ []) ∷ [])
    ≡ del (9 ∷ 1 ∷ []) ∷ ins (9 ∷ 2 ∷ []) ∷ del (3 ∷ 5 ∷ []) ∷ []
unfolding net net_loop net_step record_at update_at set_after first_state key_of keys_eq get_or_null
    identity_columns position text_eq emit_all emit rows_eq visible remove_all delta_of
keys_keep_order = refl

-- A view with one group, and a transaction that adds a row to it twice.
abbrev table : List (List ℕ) → Option (List ℕ)
table k = if keys_eq numbers ((9 ∷ []) ∷ []) k then some (9 ∷ 1 ∷ 0 ∷ []) else none

abbrev counted : List Delta
counted =
    del (9 ∷ 1 ∷ 0 ∷ []) ∷ ins (9 ∷ 2 ∷ 0 ∷ []) ∷ del (9 ∷ 2 ∷ 0 ∷ []) ∷ ins (9 ∷ 3 ∷ 0 ∷ []) ∷ []

counted-Report :
    (k : List (List ℕ))
    → Report numbers
        (rows_at numbers (identity_columns counts_by_key) k (parsed numbers counted))
        (table k)
unfolding parsed rows_at key_of get_or_null identity_columns
counted-Report k = elim (Bool-cases (keys_eq numbers ((9 ∷ []) ∷ []) k)) [
  | inl same ↦
      rw (same, rows_at)
        (inr (refl, refl), (inl (refl, refl), (inr (refl, refl), (inl (refl, refl), tt))))
  | inr other ↦ rw (other, rows_at) tt
]

net_by_key_example :
    (cs : List (RowChange numbers)) × IsNetted numbers counts_by_key counted table cs
net_by_key_example = net_by_key numbers counts_by_key counted table counted-Report

replay-net_example :
    (cs : List (RowChange numbers)) × (net numbers counts_by_key counted ≡ map (printed numbers) cs)
    × ((k : List (List ℕ))
        → LooksLike numbers counts_by_key
            (last_row numbers (rows_at numbers (identity_columns counts_by_key) k cs) (table k))
            (last_row numbers
              (rows_at numbers (identity_columns counts_by_key) k (parsed numbers counted))
              (table k)))
replay-net_example = replay-net numbers counts_by_key counted table counted-Report

-- An update of a row whose second value is not sent, with the complete old row.
abbrev two_columns : Relation
two_columns = record {
  id = 16;
  namespace = codes "public";
  name = codes "notes";
  replident = b'f';
  columns =
      record { name = codes "id"; is_key = true; typid = 23; typmod = negsuc 0; type_name = none }
      ∷ record {
        name = codes "body";
        is_key = false;
        typid = 25;
        typmod = negsuc 0;
        type_name = none;
      }
      ∷ [];
}

resolve_unchanged-IsSent_example :
    resolve_unchanged two_columns
      (text (codes "2") ∷ unchanged ∷ [])
      (some (text (codes "1") ∷ text (codes "long") ∷ []))
      (λ c. true)
    ≡ some (ok (text (codes "2") ∷ text (codes "long") ∷ []))
unfolding is_unchanged
resolve_unchanged-IsSent_example =
    resolve_unchanged-IsSent two_columns (text (codes "1") ∷ text (codes "long") ∷ []) (λ c. true)
      ((text (codes "2"), text (codes "2")) ∷ (unchanged, text (codes "long")) ∷ []) (omega arith)
      ((refl, inl refl), ((refl, inr (refl, refl)), tt))
