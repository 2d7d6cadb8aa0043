-- ===== src/Apply/Net/Touched.antt =====
-- The two vectors of `net` as one list of keys with their states, and what it holds of each key.
use nabla.Base.{
  ℕ, suc, ◌≡◌, refl, sym, ap, ◌∙◌, List, [], ◌∷◌, Option, none, some, true, false, ◌==◌,
  if◌then◌else◌, Text, position, arith, Bool-cases, Option-cases, inl, inr,
}
use nabla.Apply.Types.{Delta, Json}
use nabla.Apply.Net.Rows.{keys_eq_refl, keys_eq_sym, keys_eq_same, RowChange, parsed}
use nabla.Apply.Net.{
  State, key_of, keys_eq, set_after, first_state, update_at, record_at, net_step, net_loop,
}

module _ (json : Json) where
  open json use {Value, from_str}

  abbrev pub Touched : Type 0
  Touched = List (List Value × State json)

  unfoldable pub keys : Touched → List (List Value)
  keys [] = []
  keys ((k, st) ∷ al) = k ∷ keys al

  unfoldable pub states : Touched → List (State json)
  states [] = []
  states ((k, st) ∷ al) = st ∷ states al

  unfoldable pub touch : List Value → ℕ → Value → Touched → Touched
  touch key op row [] = (key, set_after json op row (first_state json op row)) ∷ []
  touch key op row ((k, st) ∷ al) =
      if keys_eq json k key
      then (k, set_after json op row st) ∷ al
      else (k, st) ∷ touch key op row al

  module _ (key : List Value) (op : ℕ) (row : Value) where
    at_next :
        (p : Option ℕ) (k : List Value) (st : State json) (ks ks' : List (List Value))
        (sts sts' : List (State json))
        → record_at json p key op row ks sts ≡ (ks', sts')
        → record_at json
            (elim p [ none ↦ none | some i ↦ some (suc i) ])
            key
            op
            row
            (k ∷ ks)
            (st ∷ sts)
          ≡ (k ∷ ks', st ∷ sts')
    unfolding record_at update_at
    at_next none k st ks ks' sts sts' e = cc
    at_next (some i) k st ks ks' sts sts' e = ground arith

    record_at-touch :
        (al : Touched)
        → record_at json
            (position (λ k. keys_eq json k key) (keys al))
            key
            op
            row
            (keys al)
            (states al)
          ≡ (keys (touch key op row al), states (touch key op row al))
    unfolding keys states touch position
    record_at-touch [] = unfold record_at in refl
    record_at-touch ((k, st) ∷ al) = elim (Bool-cases (keys_eq json k key)) [
      | inl same ↦ rw (same, position) (unfold record_at update_at in refl)
      | inr other ↦
          rw (other, position)
            (at_next (position (λ j. keys_eq json j key) (keys al)) k st (keys al) _ (states al) _
              (record_at-touch al))
    ]

  unfoldable pub find : List Value → Touched → Option (State json)
  find k [] = none
  find k ((j, st) ∷ al) = if keys_eq json j k then some st else find k al

  -- The state that a row of the key meets: its own, or a first one.
  unfoldable pub prior : ℕ → Value → Option (State json) → State json
  prior op row none = first_state json op row
  prior op row (some st) = st

  -- What a row does to what is found of a key.
  pub find-touch :
      (key k : List Value) (op : ℕ) (row : Value) (al : Touched)
      → find k (touch key op row al) ≡ (
          if keys_eq json key k
          then some (set_after json op row (prior op row (find k al)))
          else find k al)
  unfolding find touch prior
  find-touch key k op row [] = refl
  find-touch key k op row ((j, st) ∷ al) = elim (Bool-cases (keys_eq json j key)) [
    | inl same ↦ elim (Bool-cases (keys_eq json key k)) [
      | inl e ↦ rw (same, e, keys_eq_same json j key k same, e) refl
      | inr e ↦ rw (same, e, keys_eq_same json j key k same, e) refl
    ]
    | inr other ↦ elim (Bool-cases (keys_eq json j k)) [
      | inr f ↦ rw (other, f) (find-touch key k op row al)
      | inl f ↦ elim (Bool-cases (keys_eq json key k)) [
        | inr e ↦ rw (other, f, e) refl
        | inl e ↦
            let it_is = keys_eq_same json k j key (keys_eq_sym json j k f) in
            let reached = keys_eq_sym json key k e in cc
      ]
    ]
  ]

  -- Equal keys find the same.
  pub find_same :
      (i k : List Value) (al : Touched) → keys_eq json i k ≡ true → find i al ≡ find k al
  unfolding find
  find_same i k [] h = refl
  find_same i k ((j, st) ∷ al) h =
      let back : keys_eq json j i ≡ keys_eq json j k = elim (Bool-cases (keys_eq json i j)) [
        | inl e ↦
            let f : keys_eq json k j ≡ true = sym (keys_eq_same json i k j h) ∙ e in
            rw (keys_eq_sym json i j e, keys_eq_sym json k j f) refl
        | inr e ↦
            let f : keys_eq json k j ≡ false = sym (keys_eq_same json i k j h) ∙ e in
            rw (not_sym i j e, not_sym k j f) refl
      ] in
      rw back (ap (λ o. if keys_eq json j k then some st else o) (find_same i k al h))
    where
      not_sym : (a b : List Value) → keys_eq json a b ≡ false → keys_eq json b a ≡ false
      not_sym a b e = elim (Bool-cases (keys_eq json b a)) [
        | inl f ↦ let it_is = keys_eq_sym json b a f in cc
        | inr f ↦ f
      ]

  -- No key stands in the list twice.
  abbrev pub AreDistinct : Touched → Type 0
  AreDistinct [] = Unit {0}
  AreDistinct ((k, st) ∷ al) = (find k al ≡ none) × AreDistinct al

  touch-AreDistinct :
      (key : List Value) (op : ℕ) (row : Value) (al : Touched)
      → AreDistinct al
      → AreDistinct (touch key op row al)
  unfolding touch
  touch-AreDistinct key op row [] h = (unfold find in refl, tt)
  touch-AreDistinct key op row ((j, st) ∷ al) h = elim (Bool-cases (keys_eq json j key)) [
    | inl same ↦ rw same h
    | inr other ↦ rw other (
      find-touch key j op row al ∙ elim (Bool-cases (keys_eq json key j)) [
        | inl e ↦ let it_is = keys_eq_sym json key j e in cc
        | inr e ↦ rw e h.0
      ],
      touch-AreDistinct key op row al h.1,
    )
  ]

  module _ (identity : List Text) where
    -- A row of the key, if there is one.
    abbrev pub HasKey : List Value → Option Value → Type 0
    HasKey k none = Unit {0}
    HasKey k (some row) = keys_eq json (key_of json identity row) k ≡ true

    -- The rows of a state belong to its key.
    abbrev pub AreKeyed : Touched → Type 0
    AreKeyed [] = Unit {0}
    AreKeyed ((k, st) ∷ al) = HasKey k st.before × HasKey k st.after × AreKeyed al

    first_state-HasKey :
        (op : ℕ) (row : Value) → HasKey (key_of json identity row) (first_state json op row).before
    unfolding first_state
    first_state-HasKey op row = elim (Bool-cases (op == b'D')) [
      | inl e ↦ rw e (keys_eq_refl json (key_of json identity row))
      | inr e ↦ rw e tt
    ]

    set_after-HasKey :
        (k : List Value) (op : ℕ) (row : Value) (st : State json)
        → keys_eq json (key_of json identity row) k ≡ true
        → HasKey k (set_after json op row st).after
    unfolding set_after
    set_after-HasKey k op row st h = elim (Bool-cases (op == b'I')) [
      | inl e ↦ rw e h
      | inr e ↦ rw e tt
    ]

    touch-AreKeyed :
        (op : ℕ) (row : Value) (al : Touched)
        → AreKeyed al
        → AreKeyed (touch (key_of json identity row) op row al)
    unfolding touch set_after
    touch-AreKeyed op row [] h = (
      first_state-HasKey op row,
      set_after-HasKey (key_of json identity row) op row (first_state json op row)
          (keys_eq_refl json (key_of json identity row)),
      tt,
    )
    touch-AreKeyed op row ((j, st) ∷ al) h =
        let key = key_of json identity row in
        elim (Bool-cases (keys_eq json j key)) [
          | inl same ↦
              rw same (h.0, set_after-HasKey j op row st (keys_eq_sym json j key same), h.2)
          | inr other ↦ rw other (h.0, h.1, touch-AreKeyed op row al h.2)
        ]

    unfoldable pub touch_all : List (RowChange json) → Touched → Touched
    touch_all [] al = al
    touch_all (c ∷ cs) al = touch_all cs (touch (key_of json identity c.1) c.0 c.1 al)

    -- The list keeps its shape.
    unfoldable pub IsKept : Touched → Type 0
    IsKept al = AreDistinct al × AreKeyed al

    pub touch_all-IsKept :
        (cs : List (RowChange json)) (al : Touched) → IsKept al → IsKept (touch_all cs al)
    unfolding touch_all IsKept
    touch_all-IsKept [] al h = h
    touch_all-IsKept (c ∷ cs) al h =
        touch_all-IsKept cs (touch (key_of json identity c.1) c.0 c.1 al) (
          touch-AreDistinct (key_of json identity c.1) c.0 c.1 al h.0,
          touch-AreKeyed c.0 c.1 al h.1,
        )

    -- The vectors of `net` are those of the list.
    pub net_loop-touch_all :
        (ds : List Delta) (al : Touched)
        → net_loop json identity ds (keys al, states al)
          ≡ (keys (touch_all (parsed json ds) al), states (touch_all (parsed json ds) al))
    unfolding net_loop touch_all parsed net_step
    net_loop-touch_all [] al = refl
    net_loop-touch_all (d ∷ ds) al = elim (Option-cases (from_str d.row_json)) [
      | inl bad ↦ rw (bad, net_step, parsed) (net_loop-touch_all ds al)
      | inr (row, e) ↦
          let key = key_of json identity row in
          rw (e, net_step, parsed, record_at-touch key d.op row al)
            (net_loop-touch_all ds (touch key d.op row al))
    ]
