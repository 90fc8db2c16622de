-- ===== src/Base/Action.antt =====
-- Code that works on a world and may throw: what was done before an exception stays done, so the
-- world comes back beside the exception too.
use mathlib.Core.Path.{◌≡◌, refl, sym}
use distributed_testing_syst.Base.Outcome.{
  Outcome, value, throws, undefined, IsDefined, returned, threw,
}

abbrev pub continue : {W A B : Type 0} → Outcome A × W → (A → W → Outcome B × W) → Outcome B × W
continue (value a, w) f = f a w
continue (throws e, w) f = (throws e, w)
continue (undefined, w) f = (undefined, w)

-- Inversion of an action that returned.
pub continue-value :
    {W A B : Type 0} (p : Outcome A × W) (f : A → W → Outcome B × W) (b : B) (w' : W)
    → continue p f ≡ (value b, w')
    → (a : A) × (w : W) × (p ≡ (value a, w)) × (f a w ≡ (value b, w'))
continue-value (value a, w) f b w' e = (a, w, refl, e)
continue-value (throws x, w) f b w' e = cc
continue-value (undefined, w) f b w' e = cc

-- What holds of the value of a result.
pub value_transport :
    {A W : Type 0} (P : A → Type 0) (a b : A) (w w' : W)
    → P a
    → Path (Outcome A × W) (value a, w) (value b, w')
    → P b
value_transport P a b w w' h e = let q : a ≡ b = cc in rw (sym q) h

pub continue-IsDefined :
    {W A B : Type 0} (p : Outcome A × W) (f : A → W → Outcome B × W)
    → IsDefined p.0
    → ((a : A) (w : W) → IsDefined (f a w).0)
    → IsDefined (continue p f).0
continue-IsDefined (_, w) f (returned a) k = k a w
continue-IsDefined (_, w) f (threw e) k = threw e
