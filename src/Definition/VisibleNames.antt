-- ===== src/Definition/VisibleNames.antt =====
-- The checks of `validate` (src/definition.rs) on the visible columns: their names are distinct and not reserved.
use nabla.Base.{
  ℕ, ◌≡◌, refl, List, [], ◌∷◌, All, any, Bool, true, false, not, Text, text_eq, Result, ok, ◌>>=◌,
  Holds, Holds-then, Holds-bind, Holds-map, codes, keep,
}
use nabla.Errors.{Report}
use nabla.Definition.Walk.{refuse, require_base_vars}
use nabla.Definition.Targets.{Target, starts_with, check_visible, visible_targets}
use nabla.Definition.Validate.{}
use nabla.Definition.Listing.{IsReserved, AreFresh, unreserved_lem}
use nabla.Definition.Growing.{aliases}

abbrev pub AreNames : List Text → List Text → Type 0
AreNames seen names = AreFresh seen names × All (λ a. ¬ IsReserved a) names

refuse-ok : (b : Bool) (reason : Text) (u : Unit {0}) → refuse b reason ≡ ok u → b ≡ false
unfolding refuse
refuse-ok true reason u e = cc
refuse-ok false reason u e = refl

-- What passes a check is as the check wants it.
Holds-refuse :
    {B : Type 0} (Q : B → Type 0) (b : Bool) (reason : Text) (f : Unit {0} → Result Report B)
    → (b ≡ false → Holds Q (f tt))
    → Holds Q (refuse b reason >>= f)
unfolding refuse
Holds-refuse Q true reason f k = tt
Holds-refuse Q false reason f k = k refl

check_visible-AreNames :
    (allowed : List ℕ) (seen : List Text) (ts : List Target)
    → Holds (λ _. AreNames seen (aliases ts)) (check_visible allowed seen ts)
unfolding check_visible
check_visible-AreNames allowed seen [] = (tt, tt)
check_visible-AreNames allowed seen (t ∷ ts) =
    let Q = λ (u : Unit {0}). AreNames seen (aliases (t ∷ ts)) in
    let rest = λ (u : Unit {0}). check_visible allowed (t.alias ∷ seen) ts in
    let based = λ (u : Unit {0}). require_base_vars allowed t.node >>= rest in
    Holds-refuse Q (starts_with (codes "_nabla_") t.alias) _ _ (λ free.
      Holds-refuse Q (any (text_eq t.alias) seen) _ based (λ new.
        Holds-then Q (require_base_vars allowed t.node) rest (λ _.
          Holds-map _ Q (check_visible allowed (t.alias ∷ seen) ts)
            (λ _ names. ((new, names.0), (unreserved_lem t.alias free, names.1)))
            (check_visible-AreNames allowed (t.alias ∷ seen) ts))))

pub visible_targets-AreNames :
    (allowed refs : List ℕ) (all_targets : List Target)
    → Holds (λ ts. AreNames [] (aliases ts)) (visible_targets allowed refs all_targets)
unfolding visible_targets
visible_targets-AreNames allowed refs all_targets =
    let Q = λ (ts : List Target). AreNames [] (aliases ts) in
    let visible = keep (λ (t : Target). not t.resjunk) all_targets in
    Holds-then Q (refuse _ _) _ (λ _. Holds-then Q (refuse _ _) _ (λ _.
      Holds-bind (λ _. AreNames [] (aliases visible)) Q (check_visible allowed [] visible)
        (λ _. ok visible) (check_visible-AreNames allowed [] visible) (λ _ names. names)))
