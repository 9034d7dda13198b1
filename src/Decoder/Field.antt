-- ===== src/Decoder/Field.antt =====
-- decoder.c and fld_int.h: fields of all classes. Fields stand in a store, where struct actf_fld has
-- its address, and refer to each other as the pointers of the source do. The two arenas are one
-- store; an allocation takes the next addresses, and its failure is left out.
pub mod Locate
pub mod Decode
mod Tests
use actf.Common.{ℕ, zero, suc, ◌+◌, ltb, leb, ◌&&◌, List, Option, none, some, if◌then◌else◌}
use actf.Common.Writes.{write}
use actf.Types.{Rc, Result, ok, err}
use actf.Decoder.{Decoder}
use actf.Decoder.Scalar.{Fld, nil}
use actf.Decoder.Clock.{DecCtx, EventState}
use actf.Decoder.FldCls.{FldCls}

-- The type and the union: a value without parts, the first member of a structure, or the first
-- element of an array and the number of those that are decoded.
pub data Value : Type 0 where
  leaf : Fld → Value
  struct_ : (vals : ℕ) → Value
  arr : (vals n_vals : ℕ) → Value

pub record Field : Type 0 where
  pub value : Value
  pub cls : Option FldCls
  pub parent : Option ℕ

-- A field that memset has cleared.
abbrev pub zeroed : Field
zeroed = record { value = leaf nil; cls = none; parent = none }

-- The properties of an event, of which a decoder has at most one.
pub record EventProps : Type 0 where
  pub header : ℕ
  pub common_ctx : ℕ
  pub specific_ctx : ℕ
  pub payload : ℕ

-- The decoder with its store, of which `top` addresses are taken.
pub record DecState : Type 0 where
  pub dec : Decoder
  pub store : ℕ → Field
  pub top : ℕ
  pub ctx : DecCtx
  pub pkt_header : ℕ
  pub pkt_ctx : ℕ
  pub ev : Option EventProps
  pub ev_s : EventState
  pub uuid : List ℕ

-- The end of a call: its return code and the state. A string may be read behind the bytes of the
-- stream, and a field location may lead in a circle.
pub data Done : Type 0 where
  ended : Result (Unit {0}) × DecState → Done
  overrun endless : Done

abbrev pub then_done : Done → (DecState → Done) → Done
then_done (ended (ok u, s)) next = next s
then_done (ended (err rc, s)) next = ended (err rc, s)
then_done overrun next = overrun
then_done endless next = endless

abbrev pub done : DecState → Done
done s = ended (ok tt, s)

abbrev pub failing : Rc → DecState → Done
failing rc s = ended (err rc, s)

-- arena_allocn and memset: the fields from `top` on.
unfoldable pub allocn : ℕ → DecState → DecState
allocn n s = record s {
  store = λ a. if leb s.top a && ltb a (s.top + n) then zeroed else s.store a;
  top = s.top + n;
}

abbrev pub put : ℕ → Field → DecState → DecState
put a fld s = record s { store = write s.store a fld }

abbrev pub set_value : ℕ → Value → DecState → DecState
set_value a v s = put a (record (s.store a) { value = v }) s

abbrev pub set_cls : ℕ → FldCls → DecState → DecState
set_cls a cls s = put a (record (s.store a) { cls = some cls }) s

abbrev pub set_parent : ℕ → Option ℕ → DecState → DecState
set_parent a parent s = put a (record (s.store a) { parent = parent }) s
