-- ===== src/Flags.antt =====
-- flags.c and flags_int.h: names of bit ranges, and which of them a value has set.
-- struct umappings is the list of its range sets, each with its name; a name is the bytes of a
-- string. The iterator holds the next index.
pub mod Masks
pub mod Find
mod Tests
use actf.Common.{
  ℕ, zero, suc, ◌+◌, bit_and, bit_or, List, [], ◌∷◌, map, Option, none, some, ltb, ◌==◌,
  if◌then◌else◌,
}
use actf.Common.Lists.{drop}
use actf.Common.Bits.{shl64, not64, sub64}
use actf.Rng.{Urng}

abbrev pub Name : Type 0
Name = List ℕ

pub record UMapping : Type 0 where
  pub rng_set : List Urng
  pub name : Name

pub record Flags : Type 0 where
  pub maps : List UMapping
  pub masks : List ℕ

abbrev pub upper_mask : Urng → ℕ
upper_mask rng =
    if ltb rng.upper 63 then sub64 (shl64 1 (rng.upper + 1)) 1 else 0xffff_ffff_ffff_ffff

abbrev pub lower_mask : Urng → ℕ
lower_mask rng = if ltb rng.lower 64 then not64 (sub64 (shl64 1 rng.lower) 1) else 0

unfoldable pub mask_loop : List Urng → ℕ → ℕ
mask_loop [] mask = mask
mask_loop (rng ∷ rngs) mask =
    mask_loop rngs (bit_or mask (bit_and (upper_mask rng) (lower_mask rng)))

unfoldable pub make_bit_mask : List Urng → ℕ
unfolding mask_loop
make_bit_mask rngs = mask_loop rngs 0

unfoldable pub flags_init : List UMapping → Flags
unfolding make_bit_mask
flags_init maps = record { maps = maps; masks = map (λ m. make_bit_mask m.rng_set) maps }

pub record Found : Type 0 where
  pub found : Option Name
  pub it : ℕ

-- The entries from index `i` on.
unfoldable pub find_loop : List ℕ → List UMapping → ℕ → ℕ → ℕ → Found
find_loop [] maps val i it = record { found = none; it = it }
find_loop (mask ∷ masks) [] val i it = record { found = none; it = it }
find_loop (mask ∷ masks) (m ∷ maps) val i it =
    if bit_and mask val == 0
    then find_loop masks maps val (suc i) it
    else record { found = some m.name; it = suc i }

unfoldable pub flags_find : Flags → ℕ → ℕ → Found
unfolding find_loop
flags_find f val it = find_loop (drop it f.masks) (drop it f.maps) val it it

unfoldable pub flags_find_first_match : Flags → ℕ → Option Name
unfolding flags_find
flags_find_first_match f val = (flags_find f val 0).found
