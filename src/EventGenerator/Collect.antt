-- ===== src/EventGenerator/Collect.antt =====
-- Reading a generator to its end.
use actf.Common.{ℕ, zero, suc, ◌<◌, ◌≡◌, sym, ap, ◌∙◌, List, [], ◌∷◌, ◌++◌, arith}
use actf.Common.Lists.{length, length-append}
use actf.Common.Int.{ℤ}
use actf.Types.{Result, ok, err}
use actf.EventGenerator.{EventGenerator, Generated, Gives}

abbrev pub IsOk {ℓ} : {A : Type ℓ} → Result A → Type 0
IsOk (ok a) = Unit {0}
IsOk (err rc) = ⊥

-- No call fails.
pub record NeverFails {Ev G : Type 0} (gen : EventGenerator Ev G) (IsLive : G → Type 0)
    : Type 0 where
  pub generate_ok : (g : G) → IsLive g → IsOk (gen.generate g).0
  pub seek_ok : (g : G) (t : ℤ) → IsLive g → IsOk (gen.seek_ns_from_origin g t).0

-- The events of a call, and of the next ones if there are any.
abbrev pub collected : {Ev G : Type 0} → (G → List Ev) → Result (List Ev) × G → List Ev
collected next (ok [], g) = []
collected next (ok (ev ∷ evs), g) = (ev ∷ evs) ++ next g
collected next (err rc, g) = []

module _ {Ev G : Type 0} (gen : EventGenerator Ev G) where
  -- The events of at most `n` calls, up to a call that gives none or fails.
  unfoldable pub collect : ℕ → G → List Ev
  collect zero g = []
  collect (suc n) g = collected (λ g. collect n g) (gen.generate g)

  module _ (tstamp : Ev → ℤ) (events : List Ev) (IsLive : G → Type 0) (rest : G → List Ev)
      (gives : Gives tstamp gen events IsLive rest) (safe : NeverFails gen IsLive) where
    collected-rest :
        (n : ℕ) (before : List Ev) (p : Result (List Ev) × G)
        → ((g : G) → IsLive g → length (rest g) < n → collect n g ≡ rest g)
        → length before < suc n
        → IsOk p.0
        → Generated tstamp IsLive rest before p
        → collected (λ g. collect n g) p ≡ before
    collected-rest n before (err rc, g) next l k h = absurd k
    collected-rest n before (ok [], g) next l k (live, (b, a)) = sym b
    collected-rest n before (ok (ev ∷ evs), g) next l k (live, e) =
        let all = length-append (ev ∷ evs) (rest g) in
        ap (λ t. (ev ∷ evs) ++ t) (next g live (omega (arith, all, ap length e))) ∙ sym e

    -- More calls than there are events left read all of them.
    pub collect-rest : (n : ℕ) (g : G) → IsLive g → length (rest g) < n → collect n g ≡ rest g
    unfolding collect
    collect-rest zero g live l = absurd (omega arith)
    collect-rest (suc n) g live l =
        collected-rest n (rest g) (gen.generate g) (collect-rest n) l (safe.generate_ok g live)
          (gives.generates g live)
