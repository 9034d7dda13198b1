-- ===== src/Decoder/BitArr/Decode.antt =====
-- The part of fxd_len_bit_arr_decode that reads: up to two peeks.
use actf.Common.{
  ℕ, ◌+◌, ◌-◌, ◌*◌, ◌≤◌, ◌<◌, min, bit_or, ◌≡◌, ap, ◌∙◌, inl, inr, arith, true, false, Bool-cases,
  ltb, leb, ◌==◌, if◌then◌else◌,
}
use actf.Common.Lists.{length}
use actf.Types.{Result, ok, err, not_enough_bits}
use actf.BReader.{ByteOrder, BReader}
use actf.BReader.Stream.{IsValid, stream_value}
use actf.BReader.Refill.{Refilled}
use actf.BReader.Consume.{Consumed}
use actf.Decoder.{PktState, pkt_last_bo, Decoder, FxdLenBitArrFldCls, finish_bit_arr, read_bit_arr}
use actf.Decoder.BitArr.Parts.{
  suffix, refill_bo-Refilled, consume_bo-Consumed, peek_bo-stream_value,
}
use actf.Decoder.BitArr.Value.{field_value, ordered, read_upper_bits-stream_value}

-- The packet state after a field.
abbrev pub noted : PktState → ByteOrder → PktState
noted pkt_s bo = record pkt_s { last_bo = bo; opt_flags = bit_or pkt_s.opt_flags pkt_last_bo }

-- What reading the field at the place of `br` gives: its value, or an error where the stream ends
-- before it.
pub record BitsOf (cls : FxdLenBitArrFldCls) (pkt_s : PktState) (br : BReader)
    (r : Result ℕ × Decoder) : Type 0 where
  pub valid : IsValid r.1.br
  pub bo : r.1.br.bo ≡ cls.bo
  pub bytes : r.1.br.bytes ≡ br.bytes
  pub result : r.0 ≡ (
      if leb (br.tot_bit_cnt + cls.len) (8 * length br.bytes)
      then ok (field_value cls.bo cls.bito br.bytes br.tot_bit_cnt cls.len)
      else err not_enough_bits)
  pub place :
      leb (br.tot_bit_cnt + cls.len) (8 * length br.bytes) ≡ true
      → r.1.br.tot_bit_cnt ≡ br.tot_bit_cnt + cls.len
  pub pkt_s' :
      r.1.pkt_s
      ≡ (if leb (br.tot_bit_cnt + cls.len) (8 * length br.bytes) then noted pkt_s cls.bo else pkt_s)

module _ (cls : FxdLenBitArrFldCls) (pkt_s : PktState) (br : BReader) (small : cls.len ≤ 64) where
  -- The field has been read, and `br'` stands behind it.
  finish-BitsOf :
      (br' : BReader) (x : ℕ)
      → IsValid br'
      → br'.bo ≡ cls.bo
      → br'.bytes ≡ br.bytes
      → br'.tot_bit_cnt ≡ br.tot_bit_cnt + cls.len
      → x ≡ stream_value cls.bo br.bytes br.tot_bit_cnt cls.len
      → BitsOf cls pkt_s br (finish_bit_arr (suffix cls.bo) cls pkt_s br' x)
  unfolding finish_bit_arr
  finish-BitsOf br' x v o b t e =
      let size = ap length b in
      let there : leb (br.tot_bit_cnt + cls.len) (8 * length br.bytes) ≡ true =
        ground (arith, v.counted, v.inside, size) in
      record {
        valid = v;
        bo = o;
        bytes = b;
        result =
            rw there (rw e (ap ok (ordered cls.bo cls.bito br.bytes br.tot_bit_cnt cls.len small)));
        place = λ _. t;
        pkt_s' = rw there;
      }

  -- The stream has ended.
  short-BitsOf :
      (br' : BReader)
      → IsValid br'
      → br'.bo ≡ cls.bo
      → br'.bytes ≡ br.bytes
      → 8 * length br.bytes < br.tot_bit_cnt + cls.len
      → BitsOf cls pkt_s br (err not_enough_bits, record { br = br'; pkt_s = pkt_s })
  short-BitsOf br' v o b h =
      let out : leb (br.tot_bit_cnt + cls.len) (8 * length br.bytes) ≡ false = ground arith in
      record {
        valid = v;
        bo = o;
        bytes = b;
        result = rw out;
        place = λ e. absurd (ground arith);
        pkt_s' = rw out;
      }

  module _ (v : IsValid br) (same : br.bo ≡ cls.bo) (z : 0 < cls.len) where
    abbrev loaded : BReader
    loaded = (suffix cls.bo).refill_bo br

    abbrev first_bits : ℕ
    first_bits = min loaded.lookahead_bit_cnt cls.len

    abbrev remain_bits : ℕ
    remain_bits = cls.len - first_bits

    abbrev behind_first : BReader
    behind_first = (suffix cls.bo).consume_bo loaded first_bits

    abbrev reloaded : BReader
    reloaded = (suffix cls.bo).refill_bo behind_first

    loaded-Refilled : Refilled br loaded
    loaded-Refilled = refill_bo-Refilled cls.bo br same v

    loaded-bo : loaded.bo ≡ cls.bo
    loaded-bo = loaded-Refilled.bo ∙ same

    behind_first-Consumed : Consumed loaded first_bits behind_first
    behind_first-Consumed =
        consume_bo-Consumed cls.bo loaded loaded-bo first_bits loaded-Refilled.valid (omega arith)

    behind_first-bytes : behind_first.bytes ≡ br.bytes
    behind_first-bytes = behind_first-Consumed.bytes ∙ loaded-Refilled.bytes

    behind_first-bo : behind_first.bo ≡ cls.bo
    behind_first-bo = behind_first-Consumed.bo ∙ loaded-bo

    behind_first-place : behind_first.tot_bit_cnt ≡ br.tot_bit_cnt + first_bits
    behind_first-place = omega (arith, behind_first-Consumed.place, loaded-Refilled.same_place)

    reloaded-Refilled : Refilled behind_first reloaded
    reloaded-Refilled =
        refill_bo-Refilled cls.bo behind_first behind_first-bo behind_first-Consumed.valid

    reloaded-bytes : reloaded.bytes ≡ br.bytes
    reloaded-bytes = reloaded-Refilled.bytes ∙ behind_first-bytes

    reloaded-place : reloaded.tot_bit_cnt ≡ br.tot_bit_cnt + first_bits
    reloaded-place = reloaded-Refilled.same_place ∙ behind_first-place

    first-stream_value :
        0 < loaded.lookahead_bit_cnt
        → (suffix cls.bo).peek_bo loaded first_bits
          ≡ stream_value cls.bo br.bytes br.tot_bit_cnt first_bits
    first-stream_value h =
        peek_bo-stream_value cls.bo loaded loaded-bo first_bits loaded-Refilled.valid (omega arith)
          (omega arith)
        ∙ λ i.
            stream_value cls.bo (loaded-Refilled.bytes i) (loaded-Refilled.same_place i) first_bits

    -- Nothing could be loaded.
    none-BitsOf :
        loaded.lookahead_bit_cnt ≡ 0
        → BitsOf cls pkt_s br (err not_enough_bits, record { br = loaded; pkt_s = pkt_s })
    none-BitsOf e = short-BitsOf loaded loaded-Refilled.valid loaded-bo loaded-Refilled.bytes (
        omega (
          arith,
          ap length loaded-Refilled.bytes,
          loaded-Refilled.valid.counted,
          loaded-Refilled.enough,
          loaded-Refilled.same_place,
        ))

    -- The first peek is the whole field.
    one_peek-BitsOf :
        0 < loaded.lookahead_bit_cnt
        → remain_bits ≡ 0
        → BitsOf cls pkt_s br (
            finish_bit_arr
              (suffix cls.bo)
              cls
              pkt_s
              behind_first
              ((suffix cls.bo).peek_bo loaded first_bits))
    one_peek-BitsOf h e =
        let whole : first_bits ≡ cls.len = omega arith in
        finish-BitsOf behind_first _ behind_first-Consumed.valid behind_first-bo behind_first-bytes
          (omega (arith, behind_first-place))
          (first-stream_value h ∙ ap (stream_value cls.bo br.bytes br.tot_bit_cnt) whole)

    -- The second peek has too few bits.
    few-BitsOf :
        reloaded.lookahead_bit_cnt < remain_bits
        → BitsOf cls pkt_s br (err not_enough_bits, record { br = reloaded; pkt_s = pkt_s })
    few-BitsOf h =
        short-BitsOf reloaded reloaded-Refilled.valid (reloaded-Refilled.bo ∙ behind_first-bo)
          reloaded-bytes
          (omega (
            arith,
            small,
            ap length behind_first-bytes,
            ap length loaded-Refilled.bytes,
            ap length reloaded-bytes,
            loaded-Refilled.enough,
            behind_first-Consumed.left,
            behind_first-Consumed.valid.counted,
            behind_first-Consumed.ptr,
            reloaded-Refilled.valid.counted,
            reloaded-Refilled.valid.inside,
            reloaded-Refilled.enough,
            behind_first-place,
            reloaded-place,
          ))

    two_peeks-BitsOf :
        0 < loaded.lookahead_bit_cnt
        → 0 < remain_bits
        → remain_bits ≤ reloaded.lookahead_bit_cnt
        → BitsOf cls pkt_s br (
            finish_bit_arr
              (suffix cls.bo)
              cls
              pkt_s
              ((suffix cls.bo).consume_bo reloaded remain_bits)
              ((suffix cls.bo).read_upper_bits_bo reloaded
                ((suffix cls.bo).peek_bo loaded first_bits)
                remain_bits
                first_bits))
    two_peeks-BitsOf h more enough =
        let reloaded-bo = reloaded-Refilled.bo ∙ behind_first-bo in
        let c =
          consume_bo-Consumed cls.bo reloaded reloaded-bo remain_bits reloaded-Refilled.valid
            enough in
        let second =
          peek_bo-stream_value cls.bo reloaded reloaded-bo remain_bits reloaded-Refilled.valid more
            enough
          ∙ λ i. stream_value cls.bo (reloaded-bytes i) (reloaded-place i) remain_bits in
        let total : first_bits + remain_bits ≡ cls.len = omega arith in
        finish-BitsOf _ _ c.valid (c.bo ∙ reloaded-bo) (c.bytes ∙ reloaded-bytes)
          (omega (arith, c.place, reloaded-place))
          (rw (first-stream_value h) (
            read_upper_bits-stream_value cls.bo br.bytes br.tot_bit_cnt first_bits remain_bits
              reloaded second (omega arith)
            ∙ ap (stream_value cls.bo br.bytes br.tot_bit_cnt) total))

    pub read_bit_arr-BitsOf : BitsOf cls pkt_s br (read_bit_arr (suffix cls.bo) cls pkt_s br)
    unfolding read_bit_arr
    read_bit_arr-BitsOf = elim (Bool-cases (loaded.lookahead_bit_cnt == 0)) [
      | inl none_left ↦ rw none_left (none-BitsOf (ground arith))
      | inr some_left ↦ rw some_left (elim (Bool-cases (remain_bits == 0)) [
        | inl whole ↦ rw whole (one_peek-BitsOf (ground arith) (ground arith))
        | inr more ↦ rw more (elim (Bool-cases (ltb reloaded.lookahead_bit_cnt remain_bits)) [
          | inl few ↦ rw few (few-BitsOf (ground arith))
          | inr enough ↦ rw enough (two_peeks-BitsOf (ground arith) (ground arith) (ground arith))
        ])
      ])
    ]
