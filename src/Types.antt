-- ===== src/Types.antt =====
-- types.h: the return codes, and calls that may fail.

-- The codes below ACTF_OK.
pub data Rc : Type 0 where
  error internal oom not_found : Rc
  json_parse_error json_error json_wrong_type json_not_gtez json_not_gtz : Rc
  invalid_alignment invalid_byte_order invalid_bit_order invalid_range invalid_range_set : Rc
  invalid_uuid invalid_fld_loc invalid_fld_cls invalid_flags invalid_role invalid_base : Rc
  unsupported_length invalid_encoding invalid_environment invalid_variant cc_gte_freq_error : Rc
  no_such_alias missing_property unsupported_extension no_such_origin no_default_clock : Rc
  invalid_uuid_role invalid_magic_role not_a_struct duplicate_error no_such_id : Rc
  unsupported_version no_preamble wrong_fld_type missing_fld_loc not_enough_bits : Rc
  mid_byte_endian_swap invalid_str_len magic_mismatch uuid_mismatch no_selector_fld : Rc
  invalid_content_len invalid_metadata_pkt : Rc

-- ACTF_OK with the values that the call writes, or an error code.
pub data Result {ℓ} (A : Type ℓ) : Type ℓ where
  ok : A → Result A
  err : Rc → Result A

-- A call that returns its error code, and what follows where it succeeds.
abbrev pub then_ok {ℓ ℓ' ℓ''} :
    {A : Type ℓ} {B : Type ℓ'} {S : Type ℓ''} → Result A × S → (S → Result B × S) → Result B × S
then_ok (ok a, s) next = next s
then_ok (err rc, s) next = (err rc, s)
