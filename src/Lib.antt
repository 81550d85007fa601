-- ===== src/Lib.antt =====
-- Inkling: an inference runtime in C for models whose tensors are stored in safetensors shards.
--
-- The program finds its tensors in three steps. The JSON reader turns a text into a tree of values. The
-- index reads `model.safetensors.index.json` with it, and keeps for each tensor its name and its shard in
-- a hash table. The header of a shard, JSON again, gives each tensor its type, its shape and its range of
-- the shard's payload, and is bound to the index. The weights of the experts are read on demand,
-- through a cache, and the trunk from one packed file whose table says where each range of a shard stands.
-- A context feeds tokens through the layers, one by one or as a whole prompt, and the generation loop
-- samples the next token from the logits. The parts are modelled in this order:
--
--   Alloc        src/core/inkling_alloc.c: inkling_size_add, inkling_size_mul, inkling_alloc_array.
--   Json         src/io/inkling_json.c: inkling_json_parse with all that it calls, and the accessors.
--     Text       the parser's position, its errors, the white space
--     Value      the tree of values
--     Buffer     reserve_buffer and append_bytes; Grow: the growing arrays
--     Utf8       append_codepoint and utf8_sequence_length; Strings: parse_string; Numbers: parse_number
--     Parse      parse_array, parse_object, parse_value, inkling_json_parse
--     Access     inkling_json_string, inkling_json_object_get and the other accessors
--     Ensures, Capacity, Encoding, Escapes, Texts, Grammar, Room, Valid, Sound, Integers, Lookup: proofs
--   Safetensors  src/io/inkling_safetensors.c: inkling_safetensors_parse_header with all that it calls.
--     Tensor     one tensor: tensor_size_is_valid and parse_tensor
--     Header     the members of the header, the order of the tensors and the test of their ranges
--     Sizes, Cover: proofs
--   Index        src/io/inkling_index.c: the catalogue of tensors.
--     Table      name_hash, find_slot and the lookups
--     Load       inkling_index_load, from the parsed document on
--     Bind       bind_tensors and inkling_index_bind_header
--     Probe, Placed, Loaded, Numbered, Published: proofs
--   Cache        src/model/inkling_project.c: cached_expert, the cache of expert weights, with all that it
--                calls; Resident and Transparent: proofs
--   Nvfp4        src/core/inkling_nvfp4.c: inkling_nvfp4_layout and inkling_nvfp4_offsets; Inside: proofs
--   Packed       src/model/inkling_packed.c: the packed trunk.
--     Sha        sha_block, sha_start, sha_update, sha_finish
--     File       positional_read and hash_range, over the answers of `pread`
--     Table      compare_ranges, the test on neighbours, inkling_packed_read
--     Identity   source_identity, header_identity, trunk_name; Open: inkling_packed_open
--     Standard   SHA-256 as FIPS 180-4 defines it
--     Streaming, Compression, Digest, Reads, Hashed, Ranges, Search, Opened: proofs
--   Generate     src/model/inkling_generate.c: the sampler and the loop.
--     Sample     inkling_generate_options, rank_candidate, inkling_sample
--     Loop       valid_range, overlaps, inkling_generate
--     Choice, Ranking, Kept, Vocabulary, Total, Complete, Incremental, Stop: proofs; Incremental joins
--                the loop with the context of Forward
--   Forward      src/model/inkling_forward.c: an incremental context.
--     Sequence   inkling_context_reset, token_forward, inkling_prefill, inkling_decode and the position
--     Window     the rows of keys and values of a layer, from sequence_create and token_attention
--     Steps, Answering, Replay, Failure, Rows: proofs
--   Kernels      src/core/inkling_math.c: Topk is inkling_topk, Convolution is inkling_conv4; Ranked,
--                Largest and Windows: proofs
--   Cli          src/cli/inkling_run.c: parse_unsigned; Exact: proofs
--   Prelude      what the parts share: tests, lists over the native numbers, partial correctness
--
-- State. A C structure is a record. The parser is its position and the bytes that are left. A failure of
-- the reader carries the position and the message of the first `parser_fail`; line and column follow from
-- the position. Elsewhere a failure is `none`. A C string is the list of its bytes before the NUL;
-- `c_string` finds it where the bytes come from a text that may hold a NUL. The index is its array of
-- entries, as far as it is filled, and its slots. The cache is the list of its entries, newest first, with
-- the statistics and the events of the trace.
--
-- Parameters. The allocator is a function that answers each request of so many bytes, so that every failure
-- of an allocation is covered; `qsort` gives some ascending order of the items that it gets.
-- `inkling_model_read` is a function of the range, the offset and the number of bytes: the files do not
-- change. `pread` is a function of the number of the call, the offset and the size. The arithmetic on
-- `float` and `double` is a record of operations, with the laws of the order where a theorem needs them.
-- What a layer computes is a function on what the layers keep. The generation loop takes the calls of the
-- model as the record `Session`. `size_t` has 64 bits.
--
-- Fuel. The loops of the reader take as fuel the bytes that are left, or one more, and each round takes a
-- byte; the recursion is on the levels of nesting left, at most 257. The doubling of a buffer has 64
-- rounds. A loop out of fuel is the result `stuck`. The doubling of the slots has 64 rounds as well, since
-- it stops above half of SIZE_MAX. An eviction has a round more than there are entries. `sha_update` and
-- the binary search of the packed table have as many rounds as there are bytes and candidates. A read of a
-- file has a round for each byte and for each interrupted call.
--
-- Not modelled: the opening and the closing of files, the release of memory, `inkling_json_number_double`
-- (strtod), and the computing with floating-point numbers in src/core and src/model: products, norms,
-- activations, attention scores. Neither are the binding of a model in src/model/inkling_bind.c, the
-- checks of src/io/inkling_config.c and src/io/inkling_verify.c, nor the rest of the command line in src/cli.
pub mod Prelude
pub mod Alloc
pub mod Json
pub mod Safetensors
pub mod Index
pub mod Cache
pub mod Cli
pub mod Forward
pub mod Generate
pub mod Kernels
pub mod Nvfp4
pub mod Packed
