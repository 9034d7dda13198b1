-- ===== src/Lib.antt =====
-- actf is a C library that decodes traces in the Common Trace Format 2: a metadata stream
-- describes field classes, and a decoder reads the fields of packets and events from the bits of a
-- data stream. This library models its core and proves it correct.
--
-- - Common: shared names, tests, lists, signed integers, and the digits of native numbers with the
--   operators of uint64_t. A machine word is a number; wrap-around is written out.
-- - Crust (crust/common.h): bswap64 and sataddu64.
-- - Types (types.h): return codes.
-- - BReader (breader.h, breader.c): the bit reader, a record over the bytes of the stream. Stream
--   says which bit of the stream is which and when a reader is valid; Word, Refill, Consume, Skip,
--   Read and Bytes prove one operation each against it.
-- - Decoder (decoder.c, pkt_state.h): the packet state, alignment inside a packet, reversal of bit
--   orders and fxd_len_bit_arr_decode, which every fixed-length field is read by.
--   Scalar models the fields of one bit array (bit maps, integers, Booleans, floats) and the sign
--   extension, Clock the roles of fields (handle_fld_roles) and the update of the default clock, Str
--   (with actf_encoding_to_codepoint_size of fld_cls.c) strings and blobs: the search for a
--   terminator and the read of the bytes. FldCls models field classes (with parts of fld_cls.c),
--   VarLen variable-length integers, Field the store of fields: its child Locate models field
--   locations, and Decode fld_cls_decode for every class. Decode/Frame says which tree of fields a
--   class stands for; Kinds, Built, Elements and Conforming prove that it is what a call builds.
--   Packets models the headers and contexts of packets, events (event.c), pkt_decode and the calls of
--   actf_decoder_decode; Lens is about the lengths of a packet, Read says as a relation what reading a
--   packet means, and Sticky compares the calls with it.
-- - Rng (rng.c, rng_int.h): sets of signed or unsigned ranges. Member and Overlap compare them with
--   the sets of integers that they stand for.
-- - Flags (flags.c, flags_int.h): names of bit ranges. Masks gives the bits of a mask in terms of the
--   range sets, Find the names that a client reads.
-- - Mappings (mappings.c): the names of a value in the mappings of an unsigned field class
--   (umappings_find), and the intervals that init_uivalt makes of them. Find proves the first, Sorted
--   and Merged the second.
-- - EventGenerator (event_generator.h): the interface of everything that gives events, as a record of
--   functions on a state, and the record Gives of what a generator promises. Collect reads one to
--   its end.
-- - Filter (filter.c, filter.h): the filter, which is a generator over another one. Refines proves
--   that it keeps the promises of the interface, Whole what a client reads from it.
-- - PrioQueue (prio_queue.h): the queue in a binary heap. Order says what a heap is, Push and Pop
--   prove the operations, Ends that the loops come to their end.
-- - Muxer (muxer.c, muxer.h): the muxer, a generator over several ones. Merge is the abstract view, a
--   relation between what the sources have left before and after and the events that are taken;
--   Queued and Holds relate the queue to the buffers, Start, Loop and Refines prove a call, Seek a
--   seek, Whole what a client reads, Failed the calls after an error. Generators do not share state.
-- - Metadata (metadata.c, metadata_int.h): the conversion of clock values to nanoseconds;
--   Nanoseconds compares it with the exact quotient.
--
-- A decoder calls the bit reader; each call of the model returns the new state beside its result.
-- Texts of errors, memory management and printing are left out; a failing call is its return code.
-- An assert is a hypothesis of a theorem. The host is little endian, as WORDS_BIGENDIAN unset.
-- The loop of reverse_bits takes 64 rounds of fuel, one for each digit of a uint64_t.
-- The search for a terminator takes as many rounds as there are bytes, since each one goes at least
-- a byte further. The loops of the heap take as many rounds as the index that they go up from plus
-- one, and as there are nodes plus one; each round goes to a parent or to a child, and a loop that
-- has not ended by then is `none`. Other loops go
-- over a list or a number and need no fuel; a client that reads a generator to its end makes one call
-- more than there are events.
--
-- The loop over the bytes of a variable-length integer takes a round for each byte of the stream and
-- one more, since each round reads a byte. A field location passes arrays, whose length may again be
-- a location; the fuel is the number of fields in the store plus one, and a call that runs out of it
-- ends as Done.endless. That a location of a valid class never does is not proved.
--
-- The arenas of a decoder are one store; where the code clears an arena, the fields stay in the store
-- and nothing refers to them. The loop over the events of a packet goes over the room in the buffer.
-- A call that would read behind the stream, or that runs out of fuel, ends as `lost`.
--
-- Not modelled: seeking in decoder.c; the signed half of mappings.c and its interval trees;
-- freader.c; the parsing of metadata by json-c; printing, the command line, and the containers of
-- crust. The dates that a filter takes from the first event are modelled, but the theorems on filters
-- are about ranges with dates.
pub mod Common
pub mod Crust
pub mod Types
pub mod BReader
pub mod Decoder
pub mod Rng
pub mod Flags
pub mod EventGenerator
pub mod Filter
pub mod PrioQueue
pub mod Muxer
pub mod Metadata
pub mod Mappings
