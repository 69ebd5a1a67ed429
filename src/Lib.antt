-- ===== src/Lib.antt =====
-- PandABlocks-server: verification of the logic of the server that controls a PandA device.
--
-- The server reads a configuration from indented files, answers commands on one socket and streams
-- captured data on another. The parts that are modelled:
--
-- * The capture buffer (server/buffer.c), a ring of blocks between the task that reads the hardware
--   and the clients of the data socket. Buffer has the writer's side (start_write,
--   release_write_block, end_write and the counting of readers), Buffer/Reader the readers' side
--   (create_reader, open_reader, get_read_block, check_read_block, close_reader). The mutex makes
--   the calls steps of one sequence; a wait on the signal is the list of the buffers that the
--   wake-ups find, whose end is the timeout, and a block is read with the mutex released, so that
--   the buffer may have moved on when the reader checks it. Buffer/History says what the ring holds
--   as a function of the sizes of all blocks released, Buffer/Overrun and Buffer/Reading what a
--   reader may rely on, Buffer/Start where it begins, and Buffer/Clients is the step relation of a
--   writer and any number of readers.
-- * Base 64 (server/base64.c) in Base64, for the tables that are written and read in that form.
-- * Lookup table expressions (server/parse_lut.c) in ParseLut: the tokens and the precedence table
--   in ParseLut/Tokens, and the parser over an interface of operations on values, `Ops`, which 32-bit
--   words and single truth values fill. Its safety is in ParseLut/Safety, Pops, Steps and Returns, its
--   rows in Truth and Rows, and its values in Expressions, Rounds and Evaluates.
-- * Parsing (server/parse.c) in Parse, Parse/Names, Parse/Numbers and Parse/Indents, with the UTF-8
--   check (server/utf8_check.c) in Parse/Utf8. Parse/NameRules and Parse/BlockNames
--   characterise the names, Parse/Printed reads back printed numbers, Parse/Scalars
--   and Parse/Accepts have the texts that pass as encodings, and Parse/Nesting has the stack of
--   indentations. The parsers of single lines that an indented file is given are the interface
--   `IndentParsers`.
-- * Enumerations (server/enums.c) in Enums: the sorted set of entries and its binary search, with the
--   table of names as the interface `NameTable` (server/hashtable.h).
-- * The hash table (server/hashtable.c) in HashTable, over any keys with their hash and comparison: the
--   slots that a lookup visits in HashTable/Cycle and HashTable/Probing, what it finds there in
--   HashTable/Searching and HashTable/Filling; HashTable/Invariant has the well-formed tables, of which
--   HashTable/Changes, HashTable/Counts, HashTable/Moving and HashTable/Resizing show that they stay so,
--   and HashTable/Contents, HashTable/Deletion, HashTable/Insertion and HashTable/Walk have the
--   operations.
-- * The configuration protocol (server/config_server.c) in Config: the change index in Config/Changes,
--   with what a connection is told in Config/Reports; the command that sends a table in Config/PutTable
--   and Config/Lines; the dispatch of a line and the loop of a connection in Config/Commands, whose
--   answers are in Config/Commands/Answers. What serves the commands is the interface `CommandSet`, a
--   table that is written is the interface `PutTableWriter`.
-- * Tables (server/table.c) in Table: the write path of a block, whose writer Table/Commands puts behind
--   the command of the protocol; Table/Writes has the conversion of the lines, Table/Reading the lines
--   in which a table is read and Table/RoundTrip that they write the table again.
-- * Captured samples (server/capture.c and the gathering of fields of server/prepare.c) in Capture: the
--   conversions in Capture, the layout of a sample in Capture/Gather and Capture/Layout, the bytes that
--   a conversion writes in Capture/Sizes, and the printing of converted data in Capture/Ascii and
--   Capture/Rows. The arithmetic of doubles is the interface `Doubles`.
-- * Buffered sockets (server/buffered_file.c) in BufferedFile: what is written, as a stream, in
--   BufferedFile/Output, BufferedFile/Writing and BufferedFile/Calls, and the lines that are read in
--   BufferedFile/Reading and BufferedFile/Lines. The results of the calls of `read` and `write` are lists
--   that the file holds.
-- * MAC addresses (server/mac_address.c) in MacAddress, on top of Parse.
--
-- Prelude has what they share: native numbers and their Boolean tests, lists as arrays and C strings,
-- wrapping words, and Prelude/Bits the bitwise operations digit by digit.
--
-- Numbers. Unsigned words are natural numbers with the wrap-around written out; `size_t` has the 32
-- bits of the target, and the width of `unsigned long` is a parameter of the number parsers.
--
-- Fuel and undefined behaviour. The walk of `count_lost_bytes` has a step for each block of the ring
-- and one more, and `compute_reader_start` is proved to end with a start. The loop of `parse_lut` has
-- two rounds for each character and four more, which is proved to be enough. A lookup in the hash table
-- has a step for each bit of a hash and for each slot, and is proved to end. The loop of `read_line` has a
-- round for each call of `read` and two more, and that of `write_string` one for each byte, which is
-- proved to be enough. `none` is what the C
-- language leaves undefined: a read outside an array or string, or a call that the source rules out.
--
-- Not modelled: the hardware, sockets, threads and files themselves; the texts of error messages; the
-- conversion of floating point and of signed numbers by the C library; the parts of the server that
-- only wire others together; the data task; and the kernel driver, on which the parts above do not
-- depend.
pub mod Prelude
pub mod Buffer
pub mod Base64
pub mod ParseLut
pub mod Parse
pub mod Enums
pub mod MacAddress
pub mod Config
pub mod Table
pub mod Capture
pub mod HashTable
pub mod BufferedFile
