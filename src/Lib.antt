-- ===== src/Lib.antt =====
-- A model of parts of libucl: its MessagePack reader and writer, the object store under them, the
-- array functions, the reader of S-expressions, quoted strings from the writer to the text parser
-- with the variables in them, the comments that the text parser skips, and the schema validator.
--
-- libucl parses a text into a tree of `ucl_object_t` and prints such a tree. A `ucl_parser` holds
-- the chunk to read, a stack of open containers, the current object and the top object. One of its
-- input formats is MessagePack: `ucl_parse_msgpack` (src/ucl_msgpack.c) runs a state machine over
-- the chunk that makes an object for each value and puts it into the container on top of the stack,
-- by `ucl_array_append` (src/ucl_util.c) or, in an object, by `ucl_parser_process_object_element`
-- (src/ucl_parser.c), which searches the hash of the object (src/ucl_hash.c) and applies the
-- strategy for duplicate keys. The writer (`ucl_emit_msgpack_elt` in src/ucl_emitter.c) walks a tree
-- and calls the `ucl_emitter_print_*_msgpack` functions of src/ucl_msgpack.c. In the text formats a
-- string is printed by `ucl_elt_string_write_json` or `ucl_elt_string_write_squoted`
-- (src/ucl_emitter_utils.c), found again by `ucl_lex_json_string` or `ucl_lex_squoted_string`
-- (src/ucl_parser.c), and copied and unescaped by `ucl_copy_or_store_ptr` with the functions of
-- src/ucl_util.c; `ucl_expand_variable` then puts the values of variables in. A finished tree can be
-- checked by `ucl_object_validate` (src/ucl_schema.c) against a schema, which is a tree itself.
--
-- Store.antt models the objects and the operations on containers. A pointer is a number, the store
-- a function from numbers to objects with the next fresh number, an array the list of its pointers,
-- the ordered hash of an object the list of its (key, pointer) entries, and an implicit array the
-- list of siblings behind its first object. The bucket table behind the hash is the vendored khash,
-- so only the order list and the equality of keys are modelled. Store/Update.antt reads the store
-- after a write, Store/Keys.antt has lists of entries with distinct keys, Store/Container.antt what a
-- container keeps, and Store/Insertion.antt each branch of the insertion.
--
-- Array/Ops.antt has the functions `ucl_array_append` to `ucl_array_replace_index`, over the
-- interface for the vector of klib/kvec.h in Array/Vector.antt. A loop over a 32-bit index that
-- comes back to 0 never ends; Array/Index.antt is about the arrays of less than 2^32 elements, on
-- which it ends. Array/Spec.antt says what the functions promise, in commands on a list;
-- Array/Refines.antt and Array/Reads.antt compare the two, and Array/Merge.antt has the merge.
--
-- Msgpack/Format.antt has the type table `parsers[]` and the search in it, Msgpack/Values.antt the
-- value functions `ucl_msgpack_parse_map` to `ucl_msgpack_parse_ignore`. Msgpack/Machine.antt has the
-- state machine: Machine/Containers.antt the stack (`ucl_msgpack_get_container`,
-- `ucl_msgpack_insert_object`, `ucl_msgpack_get_next_container`), Machine/States.antt one function
-- for each `case` of the loop of `ucl_msgpack_consume`, and Machine/Loop.antt the loop, the checks
-- behind it and `ucl_parse_msgpack`. Msgpack/Outcome.antt is the result type: a parser, an error that
-- `ucl_create_err` sets, or a fault, which is a failed assertion or undefined behaviour. The bytes
-- from `p` to `end` are a list, so that `remain` is its length. Msgpack/Emit.antt has the writer over
-- trees; what it appends is a byte string.
--
-- Text/Chars.antt has the table `ucl_chartable`, Text/Lex.antt the two lexers of quoted strings as a
-- machine that takes one byte at a time, Text/Quoted.antt the cases of `ucl_parse_value` for them,
-- with the expansion of variables, Text/Unescape.antt the functions that take escapes away, on byte
-- strings, Text/InPlace.antt the one for JSON on the buffer that it reads and writes, with a round
-- for each byte of the string as its fuel, and Text/Write.antt the two writers. Text/Variables.antt
-- has the two loops of `ucl_expand_variable` with the functions under them, a pointer being the
-- bytes from there on with a number of bytes still to skip; Variables/Copy.antt has the whole of
-- `ucl_copy_or_store_ptr`. Variables/Substitute.antt says in one pass what the expansion is,
-- Variables/Names.antt to Agrees.antt compare the two, and Variables/Room.antt has the size of the
-- buffer. Text/Comments.antt has `ucl_skip_comments`, by recursion on the bytes,
-- Comments/Passed.antt what it passes, and Comments/Nested.antt the comments whose end it finds.
--
-- Schema/Values.antt has objects as trees, an implicit array being a chain of values, and the
-- functions of src/ucl_util.c that the validator asks; what it takes from the C library and the
-- machine is the record `Machine`, with the search in the tree of compared values and the key that
-- an object itself has, which a tree does not hold. Schema/Checks.antt has the result of a check, a
-- Boolean with the error code that is left, Schema/Rules.antt the checks that look at one object,
-- Schema/Refs.antt references, Schema/Containers.antt, Objects.antt and Arrays.antt the checks of
-- objects and arrays, over the recursive call as a parameter, and Schema/Validate.antt
-- `ucl_schema_validate`. Schema/Logic.antt, Counts.antt and Additional.antt compare parts of it with
-- descriptions of their own, and Schema/Ends.antt with its children follows the recursion.
--
-- Csexp.antt has the state machine of `ucl_parse_csexp` (src/ucl_sexp.c), by recursion on the bytes;
-- Csexp/Accepted.antt says which texts it accepts.
--
-- Integers are 64-bit two's complement patterns and floating-point numbers bit patterns of a
-- `double`; the conversion of a `float` to a `double` is a parameter (`widen_float`). A field of 16,
-- 32 or 64 bits stands in the text in big-endian order. The 32-bit `len` of an array wraps.
--
-- The loop of the MessagePack reader runs on fuel: `enough`, 4 * length + 4 rounds. Each byte takes
-- at most four rounds, since a round that consumes nothing leads to one that does;
-- Msgpack/Termination.antt has the measure. The validator runs on fuel, a unit for each nested call
-- of `ucl_schema_validate`: references may lead in circles, and without them twice the number of
-- values of the schema, and two more, is enough. Other loops are recursion on the bytes or the
-- elements. Msgpack/TypeTable.antt compares the type table with the format, Msgpack/Codec.antt
-- follows single values through writer and reader, Msgpack/OpenRoot.antt opens the root, and
-- Msgpack/RoundTrip.antt follows whole trees: RoundTrip/Insert.antt to RoundTrip/Resume.antt one
-- value in an open container, Fill.antt to Tree.antt all values of a container, Root.antt and
-- Document.antt the document. Text/JsonString.antt and Text/SquotedString.antt follow strings,
-- Text/Bounds.antt has the length of an unescaped string and Text/Extent.antt what a lexer has
-- passed.
--
-- Not modelled: allocations that fail, `UCL_PARSER_ZEROCOPY` in the MessagePack reader, the saving
-- of comments, userdata objects, `ucl_array_merge` with a copy, `ucl_object_compare` as an order,
-- the message of a schema error and the cache of external documents, and of the rest of the library
-- the state machine of the text parser, numbers, the text emitters but for quoted strings, includes
-- and macros.
pub mod Base
pub mod Store
pub mod Text
pub mod Array
pub mod Csexp
pub mod Schema
pub mod Msgpack
