-- ===== src/Decoder/Str.antt =====
-- decoder.c and fld_cls.c: strings and blobs, whose bytes stay in the stream.
-- A string or a blob is the offset of its first byte and its length.
pub mod Scan
pub mod Run
pub mod Static
mod Tests
use actf.Common.{
  ℕ, zero, suc, ◌+◌, ◌-◌, ◌*◌, ◌/◌, ◌%◌, min, Bool, true, false, not, ltb, ◌==◌, if◌then◌else◌,
  Option, none, some, List,
}
use actf.Common.Lists.{get_elem?, drop, length}
use actf.Common.Bits.{u64_mod}
use actf.Types.{
  Rc, Result, ok, err, not_enough_bits, internal, invalid_str_len, missing_fld_loc, wrong_fld_type,
}
use actf.BReader.{BReader, read_bytes, peek_bytes, bytes_remaining}
use actf.Decoder.Scalar.{Fld, uint, str, blob}
use actf.Decoder.{Decoder, PktState, do_align, pkt_bits_remaining, fail}

pub data Encoding : Type 0 where
  utf8 utf16be utf16le utf32be utf32le : Encoding

unfoldable pub encoding_to_codepoint_size : Encoding → ℕ
encoding_to_codepoint_size utf8 = 1
encoding_to_codepoint_size utf16be = 2
encoding_to_codepoint_size utf16le = 2
encoding_to_codepoint_size utf32be = 4
encoding_to_codepoint_size utf32le = 4

-- The last byte of a terminator, NULL, or a read behind the bytes that are there.
pub data Term : Type 0 where
  found : ℕ → Term
  absent : Term
  out_of_bounds : Term

-- What a byte means for the rest of a run.
abbrev pub tested : Option ℕ → Option Bool → Option Bool
tested none next = none
tested (some b) next = if b == 0 then next else some false

-- Whether `cnt` bytes from byte `i` on are 0, up to the first that is not.
unfoldable pub zero_run : List ℕ → ℕ → ℕ → Option Bool
zero_run bytes i zero = some true
zero_run bytes i (suc cnt) =
    let next = zero_run bytes (suc i) cnt in tested (get_elem? bytes i) next

-- What a code point means for the loop.
abbrev pub scanned : Option Bool → ℕ → Term → Term
scanned none last next = out_of_bounds
scanned (some true) last next = found last
scanned (some false) last next = next

-- The loop over the code points of `sz` bytes, on fuel.
unfoldable pub scan : ℕ → List ℕ → ℕ → ℕ → ℕ → Term
unfolding zero_run
scan zero bytes n_bytes sz i = absent
scan (suc fuel) bytes n_bytes sz i =
    let next = scan fuel bytes n_bytes sz (i + sz) in
    if ltb i n_bytes then scanned (zero_run bytes i sz) (i + sz - 1) next else absent

-- `bytes` are those from ptr on. memchr is the same search with code points of one byte. A round
-- goes at least one byte further, so as many rounds as bytes are enough.
unfoldable pub find_null_term : List ℕ → ℕ → Encoding → Term
unfolding scan encoding_to_codepoint_size
find_null_term bytes n_bytes enc = scan n_bytes bytes n_bytes (encoding_to_codepoint_size enc) 0

unfoldable pub is_valid_str_sz : ℕ → Encoding → Bool
unfolding encoding_to_codepoint_size
is_valid_str_sz str_sz enc = str_sz % encoding_to_codepoint_size enc == 0

-- The end of a read of bytes.
abbrev pub got : ℕ → PktState → Option ℕ × BReader → Result ℕ × Decoder
got len pkt_s (none, br) = fail not_enough_bits (record { br = br; pkt_s = pkt_s })
got len pkt_s (some ptr, br) = (ok ptr, record { br = br; pkt_s = pkt_s })

-- What the decoders of strings and blobs of a known length share: the alignment, the check of the
-- packet and the read of the bytes.
unfoldable pub read_run : Decoder → ℕ → Result ℕ × Decoder
unfolding do_align pkt_bits_remaining read_bytes
read_run dec len =
    let pkt_s = dec.pkt_s in
    let (within, br) = do_align dec.br 8 pkt_s in
    if not within
    then fail not_enough_bits (record { br = br; pkt_s = pkt_s })
    else if ltb (pkt_bits_remaining pkt_s br) (len * 8 % u64_mod)
    then fail not_enough_bits (record { br = br; pkt_s = pkt_s })
    else got len pkt_s (read_bytes br len)

-- A decoder of strings ends, or it reads behind the bytes.
pub data Ran : Type 0 where
  ended : Result Fld × Decoder → Ran
  overrun : Ran

abbrev pub as_blob : ℕ → Result ℕ × Decoder → Result Fld × Decoder
as_blob len (ok ptr, dec) = (ok (blob ptr len), dec)
as_blob len (err rc, dec) = (err rc, dec)

abbrev pub ended_str : ℕ → ℕ → Encoding → Decoder → Term → Ran
ended_str ptr len enc dec (found last) = ended (ok (str ptr (last + 1)), dec)
ended_str ptr len enc dec absent =
    if not (is_valid_str_sz len enc)
    then ended (err invalid_str_len, dec)
    else ended (ok (str ptr len), dec)
ended_str ptr len enc dec out_of_bounds = overrun

abbrev pub as_str : ℕ → Encoding → Result ℕ × Decoder → Ran
as_str len enc (ok ptr, dec) =
    ended_str ptr len enc dec (find_null_term (drop ptr dec.br.bytes) len enc)
as_str len enc (err rc, dec) = ended (err rc, dec)

unfoldable pub static_len_blob_decode : Decoder → ℕ → Result Fld × Decoder
unfolding read_run
static_len_blob_decode dec len = as_blob len (read_run dec len)

unfoldable pub static_len_str_decode : Decoder → ℕ → Encoding → Ran
unfolding read_run find_null_term is_valid_str_sz
static_len_str_decode dec len enc = as_str len enc (read_run dec len)

-- The length of a dynamic-length class is the value of the field that its location leads to.
unfoldable pub dyn_len_blob_decode : Decoder → Option Fld → Result Fld × Decoder
unfolding read_run
dyn_len_blob_decode dec none = fail missing_fld_loc dec
dyn_len_blob_decode dec (some (uint len noted)) = as_blob len (read_run dec len)
dyn_len_blob_decode dec (some fld) = fail wrong_fld_type dec

unfoldable pub dyn_len_str_decode : Decoder → Option Fld → Encoding → Ran
unfolding read_run find_null_term is_valid_str_sz
dyn_len_str_decode dec none enc = ended (fail missing_fld_loc dec)
dyn_len_str_decode dec (some (uint len noted)) enc = as_str len enc (read_run dec len)
dyn_len_str_decode dec (some fld) enc = ended (fail wrong_fld_type dec)

abbrev pub read_str : ℕ → ℕ → PktState → Option ℕ × BReader → Ran
read_str ptr str_len pkt_s (none, br) = ended (fail internal (record { br = br; pkt_s = pkt_s }))
read_str ptr str_len pkt_s (some p, br) =
    ended (ok (str ptr str_len), record { br = br; pkt_s = pkt_s })

abbrev pub null_term_str : PktState → BReader → Term → Ran
null_term_str pkt_s br (found last) =
    read_str (peek_bytes br) (last + 1) pkt_s (read_bytes br (last + 1))
null_term_str pkt_s br absent = ended (fail not_enough_bits (record { br = br; pkt_s = pkt_s }))
null_term_str pkt_s br out_of_bounds = overrun

unfoldable pub null_term_str_decode : Decoder → Encoding → Ran
unfolding do_align pkt_bits_remaining peek_bytes bytes_remaining read_bytes find_null_term
null_term_str_decode dec enc =
    let pkt_s = dec.pkt_s in
    let (within, br) = do_align dec.br 8 pkt_s in
    if not within
    then ended (fail not_enough_bits (record { br = br; pkt_s = pkt_s }))
    else if ltb (pkt_bits_remaining pkt_s br) (encoding_to_codepoint_size enc * 8)
    then ended (fail not_enough_bits (record { br = br; pkt_s = pkt_s }))
    else null_term_str pkt_s br (
        find_null_term (drop (peek_bytes br) br.bytes)
          (min (bytes_remaining br) (pkt_bits_remaining pkt_s br / 8)) enc)
