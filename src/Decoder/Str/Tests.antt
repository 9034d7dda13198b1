-- ===== src/Decoder/Str/Tests.antt =====
-- Strings and blobs at concrete inputs.
use actf.Common.{ℕ, ◌≡◌, refl, List, [], ◌∷◌, some, none, arith}
use actf.Types.{ok, err, not_enough_bits, wrong_fld_type}
use actf.BReader.{lil_endian, init}
use actf.BReader.Stream.{IsValid}
use actf.BReader.Read.{init-IsValid}
use actf.Decoder.{PktState, Decoder}
use actf.Decoder.Scalar.{uint, bit_map, blob}
use actf.Decoder.Str.{
  utf16le, encoding_to_codepoint_size, found, out_of_bounds, find_null_term, overrun, read_run,
  static_len_blob_decode, static_len_str_decode, dyn_len_blob_decode, null_term_str_decode,
}
use actf.Decoder.Str.Scan.{TermOf, find_null_term-TermOf}
use actf.Decoder.Str.Run.{RunOf, read_run-RunOf}
use actf.Decoder.Str.Static.{StrOf, static_len_str_decode-StrOf}

abbrev pkt : PktState
pkt = record {
  bit_off = 0;
  def_clk_val = 0;
  begin_def_clk_val = 0;
  disc_er_snap = 0;
  dsc_id = 0;
  ds_id = 0;
  last_bo = lil_endian;
  content_len = 0xffff_ffff_ffff_ffff;
  end_def_clk_val = 0;
  seq_num = 0;
  tot_len = 0xffff_ffff_ffff_ffff;
  opt_flags = 0;
}

-- "hi" and its terminator, in UTF-16 little endian, and one byte more.
abbrev bytes : List ℕ
bytes = 0x68 ∷ 0 ∷ 0x69 ∷ 0 ∷ 0 ∷ 0 ∷ 0 ∷ []

abbrev begin : Decoder
begin = record { br = init bytes lil_endian; pkt_s = pkt }

begin-IsValid : IsValid begin.br
begin-IsValid = init-IsValid bytes lil_endian (omega arith) (omega arith)

place : begin.br.tot_bit_cnt ≡ 0
place = unfold init in refl

hi : find_null_term bytes 6 utf16le ≡ found 5
unfolding find_null_term
hi = refl

-- Three bytes hold no whole number of code points: the search goes on behind the last one.
behind : find_null_term (0x69 ∷ 0 ∷ 0 ∷ []) 3 utf16le ≡ out_of_bounds
unfolding find_null_term
behind = refl

-- The same in a packet that ends in the middle of a code point.
packet_end :
    null_term_str_decode (record { br = init (0x69 ∷ 0 ∷ 0 ∷ []) lil_endian; pkt_s = pkt }) utf16le
    ≡ overrun
unfolding null_term_str_decode init
packet_end = refl

no_length : (dyn_len_blob_decode begin (some (bit_map 3))).0 ≡ err wrong_fld_type
unfolding dyn_len_blob_decode
no_length = refl

three_bytes : (dyn_len_blob_decode begin (some (uint 3 none))).0 ≡ ok (blob 0 3)
unfolding dyn_len_blob_decode init
three_bytes = refl

eight_bytes : (static_len_blob_decode begin 8).0 ≡ err not_enough_bits
unfolding static_len_blob_decode init
eight_bytes = refl

find_null_term-TermOf_example :
    TermOf bytes 6 (encoding_to_codepoint_size utf16le) (find_null_term bytes 6 utf16le)
find_null_term-TermOf_example =
    find_null_term-TermOf bytes 6 3 utf16le (unfold encoding_to_codepoint_size in refl)
      (omega arith)

read_run-RunOf_example : RunOf begin 3 (read_run begin 3)
read_run-RunOf_example =
    read_run-RunOf begin 3 begin-IsValid (omega (arith, place)) (omega arith) (omega arith)

static_len_str_decode-StrOf_example : StrOf begin 6 utf16le (static_len_str_decode begin 6 utf16le)
static_len_str_decode-StrOf_example =
    static_len_str_decode-StrOf begin 6 3 utf16le begin-IsValid (omega (arith, place)) (omega arith)
      (omega arith) (unfold encoding_to_codepoint_size in refl)
