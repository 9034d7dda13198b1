-- ===== src/Decoder/BitArr.antt =====
-- fxd_len_bit_arr_decode of decoder.c, against the bits of the stream.
pub mod Parts
pub mod Value
pub mod Decode
pub mod Field
