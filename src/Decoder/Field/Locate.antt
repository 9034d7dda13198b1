-- ===== src/Decoder/Field/Locate.antt =====
-- decoder.c: field locations.
use actf.Common.{
  ℕ, zero, suc, ◌+◌, Bool, true, false, ◌==◌, ◌&&◌, List, [], ◌∷◌, Option, none, some,
  if◌then◌else◌,
}
use actf.Types.{Result, ok, err, internal, missing_fld_loc, wrong_fld_type}
use actf.Flags.{Name}
use actf.Decoder.Scalar.{nil, bool_, sint, uint}
use actf.Decoder.FldCls.{
  FldCls, FldLoc, FldLocOrigin, MemberClses, no_more, member, struct_cls, static_len_arr_cls,
  dyn_len_arr_cls,
}
use actf.Decoder.Field.{Value, leaf, struct_, arr, Field, EventProps, DecState}

-- A field, NULL, or a location that leads in a circle.
pub data Found : Type 0 where
  at : ℕ → Found
  null circle : Found

abbrev pub same_name : Name → Name → Bool
same_name [] [] = true
same_name [] (y ∷ ys) = false
same_name (x ∷ xs) [] = false
same_name (x ∷ xs) (y ∷ ys) = (x == y) && same_name xs ys

-- The loop over the members from `a` on.
unfoldable pub member_index : MemberClses → Name → ℕ → Found
member_index no_more name a = null
member_index (member n cls rest) name a =
    let later = member_index rest name (suc a) in if same_name name n then at a else later

abbrev in_members : Option FldCls → Name → ℕ → Found
in_members (some (struct_cls align members)) name vals = member_index members name vals
in_members cls name vals = null

abbrev in_struct : Field → Name → Value → Found
in_struct fld name (struct_ vals) = in_members fld.cls name vals
in_struct fld name (leaf v) = null
in_struct fld name (arr vals n_vals) = null

-- The field is a structure.
unfoldable pub get_struct_member : DecState → ℕ → Name → Found
unfolding member_index
get_struct_member s a name = in_struct (s.store a) name (s.store a).value

-- A length, an error, or a location that leads in a circle.
pub data Len : Type 0 where
  len : Result ℕ → Len
  no_len : Len

abbrev len_of : Value → Len
len_of (leaf (uint n noted)) = len (ok n)
len_of v = len (err wrong_fld_type)

abbrev located_len : DecState → Found → Len
located_len s (at a) = len_of (s.store a).value
located_len s null = len (err missing_fld_loc)
located_len s circle = no_len

-- The length by the class, where `locate` finds a location seen from the field.
abbrev pub cls_len : DecState → (FldLoc → ℕ → Found) → ℕ → Option FldCls → Len
cls_len s locate a (some (static_len_arr_cls min_align n ele)) = len (ok n)
cls_len s locate a (some (dyn_len_arr_cls min_align loc ele)) = located_len s (locate loc a)
cls_len s locate a cls = len (err internal)

-- What the walk does at a field: it is done, goes on, or is in an array, of which it enters the
-- element that is being decoded.
pub data Visit : Type 0 where
  integer on_struct no_place : Visit
  on_arr : (vals n_vals : ℕ) → Visit

abbrev pub visit : Value → Visit
visit (leaf (bool_ b)) = integer
visit (leaf (sint n)) = integer
visit (leaf (uint n noted)) = integer
visit (leaf v) = no_place
visit (struct_ vals) = on_struct
visit (arr vals n_vals) = on_arr vals n_vals

abbrev pub element : ℕ → ℕ → Len → Found
element vals n_vals (len (ok n)) = if n_vals == n then null else at (vals + n_vals)
element vals n_vals (len (err rc)) = null
element vals n_vals no_len = circle

-- The loop through arrays in arrays, on fuel.
abbrev pub into_element : (ℕ → Found) → Found → Found
into_element next (at a) = next a
into_element next null = null
into_element next circle = circle

abbrev pub is_arr : Value → Bool
is_arr (arr vals n_vals) = true
is_arr (leaf v) = false
is_arr (struct_ vals) = false

-- The element, or the next round for an array.
abbrev pub more : (ℕ → ℕ → ℕ → Found) → ℕ → Visit → Found
more next b (on_arr vals n_vals) = next b vals n_vals
more next b integer = at b
more next b on_struct = at b
more next b no_place = at b

unfoldable pub elements : ℕ → DecState → (FldLoc → ℕ → Found) → ℕ → ℕ → ℕ → Found
elements zero s locate a vals n_vals = circle
elements (suc fuel) s locate a vals n_vals =
    into_element (λ b. more (λ c v n. elements fuel s locate c v n) b (visit (s.store b).value))
      (element vals n_vals (cls_len s locate a (s.store a).cls))

abbrev named : DecState → Found → Found
named s (at a) = still_nil (s.store a).value
  where
    still_nil : Value → Found
    still_nil (leaf nil) = null
    still_nil v = at a
named s null = null
named s circle = circle

abbrev from_parent : Option ℕ → Found
from_parent (some a) = at a
from_parent none = null

-- One step of the path.
abbrev pub step : DecState → Option Name → ℕ → Found
step s (some name) a = named s (get_struct_member s a name)
step s none a = from_parent (s.store a).parent

abbrev at_end : List (Option Name) → ℕ → Found
at_end [] a = at a
at_end (p ∷ ps) a = null

-- A round of the loop over the path, at the field that the step leads to.
abbrev pub round : (ℕ → ℕ → ℕ → Found) → (ℕ → Found) → List (Option Name) → ℕ → Visit → Found
round enter next ps b integer = at_end ps b
round enter next ps b on_struct = next b
round enter next ps b (on_arr vals n_vals) = into_element next (enter b vals n_vals)
round enter next ps b no_place = null

unfoldable pub walk : DecState → (FldLoc → ℕ → Found) → List (Option Name) → ℕ → Found
unfolding get_struct_member elements
walk s locate [] a = null
walk s locate (p ∷ ps) a =
    into_element
      (λ b.
        round (elements s.top s locate) (λ c. walk s locate ps c) ps b (visit (s.store b).value))
      (step s p a)

abbrev ev_prop : (EventProps → ℕ) → Option EventProps → Option ℕ
ev_prop prop none = none
ev_prop prop (some ev) = some (prop ev)

-- Where the walk begins.
abbrev pub root : DecState → FldLocOrigin → ℕ → Option ℕ
root s FldLocOrigin.none cur = (s.store cur).parent
root s FldLocOrigin.pkt_header cur = some s.pkt_header
root s FldLocOrigin.pkt_ctx cur = some s.pkt_ctx
root s FldLocOrigin.event_header cur = ev_prop (λ ev. ev.header) s.ev
root s FldLocOrigin.event_common_ctx cur = ev_prop (λ ev. ev.common_ctx) s.ev
root s FldLocOrigin.event_specific_ctx cur = ev_prop (λ ev. ev.specific_ctx) s.ev
root s FldLocOrigin.event_payload cur = ev_prop (λ ev. ev.payload) s.ev

abbrev on_root : (ℕ → Found) → ℕ → Visit → Found
on_root next a on_struct = next a
on_root next a v = null

abbrev from_root : DecState → (ℕ → Found) → Option ℕ → Found
from_root s next none = null
from_root s next (some a) = on_root next a (visit (s.store a).value)

-- An array on the way may have a length that is found by a location, on fuel.
unfoldable pub fld_loc_locate_in : ℕ → DecState → FldLoc → ℕ → Found
unfolding walk
fld_loc_locate_in zero s loc cur = circle
fld_loc_locate_in (suc fuel) s loc cur =
    from_root s (walk s (fld_loc_locate_in fuel s) loc.path) (root s loc.origin cur)

-- A field that is being decoded lies in fewer than `top` arrays.
unfoldable pub fld_loc_locate : DecState → FldLoc → ℕ → Found
unfolding fld_loc_locate_in
fld_loc_locate s loc cur = fld_loc_locate_in (suc s.top) s loc cur

unfoldable pub get_arr_cls_len : DecState → ℕ → Len
unfolding fld_loc_locate
get_arr_cls_len s a = cls_len s (fld_loc_locate s) a (s.store a).cls
