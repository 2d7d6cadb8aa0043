-- ===== src/Errors/Tests.antt =====
-- The codes of src/errors.rs, packed.
use mathlib.Core.Option
use nabla.Base.{◌≡◌, refl, [], ◌∷◌, some, none, arith}
use nabla.Errors.{make_sqlstate, packed, six_bits, sqlstate_lagged, sqlstate_failed}
use nabla.Errors.RoundTrip.{unpack, unpack-make_sqlstate}

lagged_code : Option.map (unpack 5) (make_sqlstate sqlstate_lagged) ≡ some sqlstate_lagged
unfolding make_sqlstate packed six_bits
lagged_code = refl

short_code : make_sqlstate (78 ∷ 66 ∷ []) ≡ none
unfolding make_sqlstate
short_code = refl

unpack-make_sqlstate_example :
    Option.map (unpack 5) (make_sqlstate sqlstate_failed) ≡ some sqlstate_failed
unpack-make_sqlstate_example = unpack-make_sqlstate b'N' b'B' b'0' b'0' b'6' (
  (omega arith, omega arith),
  (
    (omega arith, omega arith),
    ((omega arith, omega arith), ((omega arith, omega arith), ((omega arith, omega arith), tt))),
  ),
)
