-- ===== src/Decoder/Str/Static.antt =====
-- Strings and blobs of known length.
use mathlib.Core.Path.{subst}
use native.Mathlib.Nat.{mul-mod_left}
use actf.Common.{
  ℕ, ◌+◌, ◌*◌, ◌/◌, ◌%◌, ◌≤◌, ◌<◌, ◌≡◌, ◌⊎◌, refl, sym, ap, inl, inr, Bool-cases, true, false, List,
  arith,
}
use actf.Common.Lists.{drop, length-drop}
use actf.Common.Bits.{u64_mod}
use actf.Types.{Result, ok, err, not_enough_bits}
use actf.BReader.Stream.{IsValid}
use actf.Decoder.{Decoder}
use actf.Decoder.Scalar.{Fld, nil, bool_, sint, uint, bit_map, real_f32, real_f64, str, blob}
use actf.Decoder.Str.{
  Encoding, encoding_to_codepoint_size, Term, found, absent, out_of_bounds, find_null_term,
  is_valid_str_sz, Ran, ended, overrun, ended_str, as_str, read_run, static_len_str_decode,
}
use actf.Decoder.Str.Scan.{First, TermOf, find_null_term-TermOf}
use actf.Decoder.Str.Run.{run_start, run_fits, RunOf, read_run-RunOf}

-- The bytes of the stream from the run on.
abbrev pub run_bytes : Decoder → List ℕ
run_bytes dec = drop (run_start dec / 8) dec.br.bytes

-- The string ends with its first terminator, or it has none and takes all its bytes.
abbrev pub StrLen : Decoder → ℕ → Encoding → ℕ → Type 0
StrLen dec len enc n =
    ((last : ℕ) × (n ≡ last + 1) × First (run_bytes dec) len (encoding_to_codepoint_size enc) last)
    ⊎ ((n ≡ len) × TermOf (run_bytes dec) len (encoding_to_codepoint_size enc) absent)

abbrev pub IsStr : Decoder → ℕ → Encoding → Fld → Type 0
IsStr dec len enc (str ptr n) = (ptr ≡ run_start dec / 8) × StrLen dec len enc n
IsStr dec len enc nil = ⊥
IsStr dec len enc (bool_ b) = ⊥
IsStr dec len enc (sint x) = ⊥
IsStr dec len enc (uint x n) = ⊥
IsStr dec len enc (bit_map x) = ⊥
IsStr dec len enc (real_f32 x) = ⊥
IsStr dec len enc (real_f64 x) = ⊥
IsStr dec len enc (blob ptr n) = ⊥

-- What the decoder does, on every outcome.
abbrev pub StrOf : Decoder → ℕ → Encoding → Ran → Type 0
StrOf dec len enc (ended (ok fld, d)) = (run_fits dec len ≡ true) × IsStr dec len enc fld
StrOf dec len enc (ended (err rc, d)) = (run_fits dec len ≡ false) × (rc ≡ not_enough_bits)
StrOf dec len enc overrun = ⊥

abbrev or_zero : Result ℕ → ℕ
or_zero (ok x) = x
or_zero (err rc) = 0

module _ (dec : Decoder) (len m : ℕ) (enc : Encoding)
    (whole : len ≡ m * encoding_to_codepoint_size enc) where
  ended_str-StrOf :
      (ptr : ℕ) (d : Decoder) (t : Term)
      → run_fits dec len ≡ true
      → ptr ≡ run_start dec / 8
      → TermOf (run_bytes dec) len (encoding_to_codepoint_size enc) t
      → StrOf dec len enc (ended_str ptr len enc d t)
  ended_str-StrOf ptr d (found last) f p h = (f, (p, inl (last, refl, h)))
  ended_str-StrOf ptr d absent f p h = rw (valid) (f, (p, inr (refl, h)))
    where
      valid : is_valid_str_sz len enc ≡ true
      valid =
          unfold is_valid_str_sz in
          ground (
            arith,
            mul-mod_left m (encoding_to_codepoint_size enc),
            ap (λ (t : ℕ). t % encoding_to_codepoint_size enc) whole,
          )
  ended_str-StrOf ptr d out_of_bounds f p h = absurd h

  as_str-StrOf : (p : Result ℕ × Decoder) → RunOf dec len p → StrOf dec len enc (as_str len enc p)
  as_str-StrOf (err rc, d) r = elim (Bool-cases (run_fits dec len)) [
    | inl f ↦ absurd (let c : err rc ≡ ok (run_start dec / 8) = rw f at r.result in cc)
    | inr n ↦ let c : err rc ≡ err not_enough_bits = rw n at r.result in (n, cc)
  ]
  as_str-StrOf (ok ptr, d) r = elim (Bool-cases (run_fits dec len)) [
    | inl f ↦
        let c : ok ptr ≡ ok (run_start dec / 8) = rw f at r.result in
        let p : ptr ≡ run_start dec / 8 = ap or_zero c in
        let same : drop ptr d.br.bytes ≡ run_bytes dec = λ i. drop (p i) (r.bytes i) in
        ended_str-StrOf ptr d (find_null_term (drop ptr d.br.bytes) len enc) f p (
          subst
            (λ b.
              TermOf (run_bytes dec) len (encoding_to_codepoint_size enc)
                (find_null_term b len enc))
            (sym same)
            (find_null_term-TermOf (run_bytes dec) len m enc whole
              (ground (arith, length-drop (run_start dec / 8) dec.br.bytes))))
    | inr n ↦ absurd (let c : ok ptr ≡ err not_enough_bits = rw n at r.result in cc)
  ]

-- A string of known length, which the code points of its encoding divide, is decoded from the next byte boundary on if its bytes lie in the content of the packet and in the stream, and else the code is not_enough_bits. Its length ends with the first terminator, or is that of the class, and no byte behind it is read.
pub static_len_str_decode-StrOf :
    (dec : Decoder) (len m : ℕ) (enc : Encoding)
    → IsValid dec.br
    → dec.br.tot_bit_cnt + 8 ≤ u64_mod
    → dec.pkt_s.bit_off ≤ dec.br.tot_bit_cnt
    → 8 * len < u64_mod
    → len ≡ m * encoding_to_codepoint_size enc
    → StrOf dec len enc (static_len_str_decode dec len enc)
unfolding static_len_str_decode
static_len_str_decode-StrOf dec len m enc v room begun small whole =
    as_str-StrOf dec len m enc whole (read_run dec len) (read_run-RunOf dec len v room begun small)
