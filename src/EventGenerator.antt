-- ===== src/EventGenerator.antt =====
-- event_generator.h: the interface that decoders, muxers and filters share. The functions of a
-- generator take and return the state behind its self pointer.
pub mod Collect
use actf.Common.{ℕ, ◌≡◌, List, [], ◌∷◌, ◌++◌, leb, Bool, if◌then◌else◌}
use actf.Common.Int.{ℤ, ◌≤ℤ◌, leb_ℤ, int64_max}
use actf.Common.Lists.{All}
use actf.Types.{Rc, Result, ok, err}

pub record EventGenerator (Ev G : Type 0) : Type 0 where
  pub generate : G → Result (List Ev) × G
  pub seek_ns_from_origin : G → ℤ → Result (Unit {0}) × G

module _ {Ev : Type 0} (tstamp : Ev → ℤ) where
  -- The events that pass a test, in their order.
  unfoldable pub keep : (Ev → Bool) → List Ev → List Ev
  keep p [] = []
  keep p (x ∷ xs) = if p x then x ∷ keep p xs else keep p xs

  abbrev pub from : ℤ → List Ev → List Ev
  from t xs = keep (λ x. leb_ℤ t (tstamp x)) xs

  abbrev pub until : ℤ → List Ev → List Ev
  until t xs = keep (λ x. leb_ℤ (tstamp x) t) xs

  -- In the order of their time stamps, which are values of int64_t.
  unfoldable pub InOrder : List Ev → Type 0
  InOrder [] = Unit {0}
  InOrder (x ∷ xs) = (tstamp x ≤ℤ int64_max) × All (λ y. tstamp x ≤ℤ tstamp y) xs × InOrder xs

  -- A piece of what is to come, and what is left; an empty piece is the end.
  abbrev pub Piece : List Ev → List Ev → List Ev → Type 0
  Piece [] before after = (before ≡ []) × (after ≡ [])
  Piece (ev ∷ evs) before after = before ≡ (ev ∷ evs) ++ after

  module _ {G : Type 0} (IsLive : G → Type 0) (rest : G → List Ev) where
    abbrev pub Generated : List Ev → Result (List Ev) × G → Type 0
    Generated before (ok evs, g) = IsLive g × Piece evs before (rest g)
    Generated before (err rc, g) = Unit {0}

    abbrev pub Sought : List Ev → Result (Unit {0}) × G → Type 0
    Sought goal (ok u, g) = IsLive g × (rest g ≡ goal)
    Sought goal (err rc, g) = Unit {0}

  -- What a generator promises that gives the events `events`: it hands them out in pieces, and a
  -- seek goes to the first one that is not before a time stamp. `IsLive` holds in the states that
  -- calls that succeed lead to, `rest` is what is still to come.
  pub record Gives {G : Type 0} (gen : EventGenerator Ev G) (events : List Ev) (IsLive : G → Type 0)
      (rest : G → List Ev) : Type 0 where
    pub generates : (g : G) → IsLive g → Generated IsLive rest (rest g) (gen.generate g)
    pub seeks :
        (g : G) (t : ℤ)
        → IsLive g
        → Sought IsLive rest (from t events) (gen.seek_ns_from_origin g t)
    pub in_order : (g : G) → IsLive g → InOrder (rest g)
