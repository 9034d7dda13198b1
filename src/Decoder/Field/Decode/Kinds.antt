-- ===== src/Decoder/Field/Decode/Kinds.antt =====
-- The values that fields without parts decode to.
use mathlib.Core.Path.{subst}
use actf.Common.{ℕ, ◌*◌, ltb, ◌==◌, sym, inl, inr, Bool-cases, Option, none, some}
use actf.Types.{Result, ok, err}
use actf.BReader.{BReader, read_bytes, peek_bytes}
use actf.Decoder.{
  Decoder, PktState, FxdLenBitArrFldCls, fxd_len_bit_arr_decode, do_align, pkt_bits_remaining,
}
use actf.Decoder.Scalar.{
  Fld, bool_, sint, uint, bit_map, real_f32, real_f64, str, blob, with_bit_arr,
  fxd_len_float_decode,
}
use actf.Decoder.Scalar.Decoded.{written, with_bit_arr-written}
use actf.Decoder.Str.{
  Ran, ended, overrun, Term, found, absent, out_of_bounds, Encoding, is_valid_str_sz,
  encoding_to_codepoint_size, read_run, as_blob, ended_str, as_str, read_str, null_term_str,
  static_len_blob_decode, static_len_str_decode, dyn_len_blob_decode, dyn_len_str_decode,
  null_term_str_decode,
}
use actf.Decoder.VarLen.{
  as_uint, as_sint, var_len_int_decode, var_len_uint_decode, var_len_sint_decode,
}

pub data Kind : Type 0 where
  of_uint of_sint of_bool of_bit_map of_real of_str of_blob : Kind

-- The value is of the kind.
abbrev pub IsOf : Kind → Fld → Type 0
IsOf of_uint (uint n noted) = Unit {0}
IsOf of_sint (sint n) = Unit {0}
IsOf of_bool (bool_ b) = Unit {0}
IsOf of_bit_map (bit_map n) = Unit {0}
IsOf of_real (real_f32 x) = Unit {0}
IsOf of_real (real_f64 x) = Unit {0}
IsOf of_str (str ptr len) = Unit {0}
IsOf of_blob (blob ptr len) = Unit {0}
IsOf k fld = ⊥

abbrev pub Gives : Kind → Result Fld → Type 0
Gives k (ok fld) = IsOf k fld
Gives k (err rc) = Unit {0}

abbrev pub Runs : Kind → Ran → Type 0
Runs k (ended p) = Gives k p.0
Runs k overrun = Unit {0}

written-Gives :
    (k : Kind) (write : ℕ → Result Fld) (r : Result ℕ)
    → ((x : ℕ) → Gives k (write x))
    → Gives k (written write r)
written-Gives k write (ok x) h = h x
written-Gives k write (err rc) h = tt

pub with_bit_arr-Gives :
    (k : Kind) (dec : Decoder) (cls : FxdLenBitArrFldCls) (write : ℕ → Result Fld)
    → ((x : ℕ) → Gives k (write x))
    → Gives k (with_bit_arr dec cls write).0
with_bit_arr-Gives k dec cls write h =
    subst (Gives k) (sym (with_bit_arr-written dec cls write))
      (written-Gives k write (fxd_len_bit_arr_decode dec cls).0 h)

pub float-Gives :
    (dec : Decoder) (cls : FxdLenBitArrFldCls) → Gives of_real (fxd_len_float_decode dec cls).0
unfolding fxd_len_float_decode
float-Gives dec cls = with_bit_arr-Gives of_real dec cls _ (λ x. elim (Bool-cases (cls.len == 32)) [
  | inl e ↦ rw e tt
  | inr e ↦ elim (Bool-cases (cls.len == 64)) [ inl d ↦ rw (e, d) tt | inr d ↦ rw (e, d) tt ]
])

as_uint-Gives : (p : Result (ℕ × ℕ) × Decoder) → Gives of_uint (as_uint p).0
as_uint-Gives (ok (n, bits), dec) = tt
as_uint-Gives (err rc, dec) = tt

as_sint-Gives : (p : Result (ℕ × ℕ) × Decoder) → Gives of_sint (as_sint p).0
as_sint-Gives (ok (n, bits), dec) = tt
as_sint-Gives (err rc, dec) = tt

pub var_len_uint-Gives : (dec : Decoder) → Gives of_uint (var_len_uint_decode dec).0
unfolding var_len_uint_decode
var_len_uint-Gives dec = as_uint-Gives (var_len_int_decode dec)

pub var_len_sint-Gives : (dec : Decoder) → Gives of_sint (var_len_sint_decode dec).0
unfolding var_len_sint_decode
var_len_sint-Gives dec = as_sint-Gives (var_len_int_decode dec)

as_blob-Gives : (n : ℕ) (p : Result ℕ × Decoder) → Gives of_blob (as_blob n p).0
as_blob-Gives n (ok ptr, dec) = tt
as_blob-Gives n (err rc, dec) = tt

pub static_len_blob-Gives : (dec : Decoder) (n : ℕ) → Gives of_blob (static_len_blob_decode dec n).0
unfolding static_len_blob_decode
static_len_blob-Gives dec n = as_blob-Gives n (read_run dec n)

pub dyn_len_blob-Gives :
    (dec : Decoder) (f : Option Fld) → Gives of_blob (dyn_len_blob_decode dec f).0
unfolding dyn_len_blob_decode
dyn_len_blob-Gives dec none = tt
dyn_len_blob-Gives dec (some (uint n noted)) = as_blob-Gives n (read_run dec n)
dyn_len_blob-Gives dec (some fld) = tt

ended_str-Runs :
    (ptr n : ℕ) (enc : Encoding) (dec : Decoder) (t : Term)
    → Runs of_str (ended_str ptr n enc dec t)
ended_str-Runs ptr n enc dec (found last) = tt
ended_str-Runs ptr n enc dec out_of_bounds = tt
ended_str-Runs ptr n enc dec absent = elim (Bool-cases (is_valid_str_sz n enc)) [
  | inl e ↦ rw e tt
  | inr e ↦ rw e tt
]

as_str-Runs : (n : ℕ) (enc : Encoding) (p : Result ℕ × Decoder) → Runs of_str (as_str n enc p)
as_str-Runs n enc (ok ptr, dec) = ended_str-Runs ptr n enc dec _
as_str-Runs n enc (err rc, dec) = tt

pub static_len_str-Runs :
    (dec : Decoder) (n : ℕ) (enc : Encoding) → Runs of_str (static_len_str_decode dec n enc)
unfolding static_len_str_decode
static_len_str-Runs dec n enc = as_str-Runs n enc (read_run dec n)

pub dyn_len_str-Runs :
    (dec : Decoder) (f : Option Fld) (enc : Encoding) → Runs of_str (dyn_len_str_decode dec f enc)
unfolding dyn_len_str_decode
dyn_len_str-Runs dec none enc = tt
dyn_len_str-Runs dec (some (uint n noted)) enc = as_str-Runs n enc (read_run dec n)
dyn_len_str-Runs dec (some fld) enc = tt

read_str-Runs :
    (ptr n : ℕ) (pkt_s : PktState) (p : Option ℕ × BReader) → Runs of_str (read_str ptr n pkt_s p)
read_str-Runs ptr n pkt_s (none, br) = tt
read_str-Runs ptr n pkt_s (some q, br) = tt

null_term_str-Runs :
    (pkt_s : PktState) (br : BReader) (t : Term) → Runs of_str (null_term_str pkt_s br t)
null_term_str-Runs pkt_s br (found last) = read_str-Runs (peek_bytes br) _ pkt_s (read_bytes br _)
null_term_str-Runs pkt_s br absent = tt
null_term_str-Runs pkt_s br out_of_bounds = tt

pub null_term_str_decode-Runs :
    (dec : Decoder) (enc : Encoding) → Runs of_str (null_term_str_decode dec enc)
unfolding null_term_str_decode
null_term_str_decode-Runs dec enc =
    let pkt_s = dec.pkt_s in
    let br = (do_align dec.br 8 pkt_s).1 in
    elim (Bool-cases (do_align dec.br 8 pkt_s).0) [
      | inr e ↦ rw e tt
      | inl e ↦
          elim (Bool-cases
            (ltb (pkt_bits_remaining pkt_s br) (encoding_to_codepoint_size enc * 8))) [
              | inl d ↦ rw (e, d) tt
              | inr d ↦ rw (e, d) (null_term_str-Runs pkt_s br _)
            ]
    ]
