-- ===== src/Lib.antt =====
-- a2ps turns text files into PostScript for printers: it reads lines, chooses faces for them by the
-- rules of a style sheet, and places the characters on virtual pages, several to a sheet. The
-- development models the parts that compute; files, processes, messages and the fixed text of
-- prologs are left out.
--
-- The parts, and where their models stand:
--
-- - PageRange (liba2ps/prange.c): the option that says which pages are printed. set_string is
--   a2ps_page_range_set_string, and page_range_to_buffer the text for other programs; strtok with
--   the separators of the source is the function tokens.
-- - Darray (liba2ps/darray.c, darray.h): growing arrays. The cells are a list, and `fresh` is what
--   an allocation holds. Merge has da_merge, and Counter, Merging, Rounds, Doubles and Merged show
--   what it makes. Sorting is not modelled.
-- - Buffer (src/buffer.c, buffer.h, and streams_copy of liba2ps/routines.c): input by lines. Streams
--   are lists of bytes. tolower and BUFSIZ are parameters, and char is signed. Dump has the
--   sample and the saving. Lines is about the lines of a stream, Strings about those of a string, Saved
--   about the sample and the saved text, Sample about reading the sample
--   again, Lost about bytes that are lost, Unread about how much is left to read.
-- - Escape (liba2ps/psgen.c, encoding.c): the forms of bytes in PostScript strings and their widths,
--   read back by a decoder of such strings in Escape/Decode.
-- - PsGen (liba2ps/psgen.c, fjobs.c, psstat.c): the generator as functions on the state of a job.
--   PsGen has the state and the output, PsGen/Page the sheets and virtual pages, PsGen/Print
--   ps_print_char, PsGen/Files the beginnings and ends of files. Counters, View, Layout, Char, Room,
--   Lines, Text and Align are about the counters, Strings about the order of what is written. It
--   asks PageRange which pages are printed, and Escape for the forms of bytes.
-- - Read (src/read.c): plain_getc, which takes lines from Buffer and undoes the overstrikes of nroff,
--   and plain_print_postscript, which gives the characters to PsGen. Nroff has the characters and
--   their overstrikes, Lines and Print the printing of lines of them, Ends the end of the loop.
-- - Ssheet (src/sshread.c, ssheet.c, ssheet.h, ffaces.h): style sheets. Ssheet has the data, the
--   intervals of struct words and the search in them, Match the attempts to find a keyword, an
--   operator or a sequence at the current point, Token ssh_get_token with its static variables, Print
--   ssh_print_postscript, which gives the tokens to PsGen in the face and with the flags that their
--   rules tell. Tiles, Attempts and Tokens show that each token is a piece of the line, Loop and Ends
--   that the loop ends, Plainly, Colours, Rounds and Painting what a sheet prints that only chooses
--   faces, Search, Tables, Intervals and Longest which string is found. re_match of the regular expressions
--   and get_encoding_by_alias are parameters.
-- - Diversion (liba2ps/output.c, dstring.c, dstring.h): the diversions that keep what is written until
--   the values that it needs are known. Pieces is about the pieces between such values, Room about
--   the size of the dynamic string, Perform about sequences of calls, Dump about what is dumped.
-- - Hashtab (liba2ps/hashtab.c, hashtab.h): hash tables with open addressing. Items are of any type,
--   and the functions of the caller are the fields of Keys. Inverse, Probe, Ends and Trace are about
--   the slots that a search visits, Lookup and Find about what it finds, Change, Insert, Delete, Room,
--   Copy, Rehash and Map about the table as a finite map, Size and Create about new tables.
-- - Substitution (liba2ps/xstrrpl.c): xstrrpl and xvstrrpl, which documents and printers use to
--   replace parts of a text; Replaces says what the result is.
-- - Prelude: tests on numbers, lists, decimal text, and results of routines that may end the program.
--
-- Numbers are natural numbers. The differences of page numbers that wrap in size_t are taken modulo
-- 2 ^ 64, and the product of the test for binary files modulo 2 ^ 32; other counters are taken to be
-- in range. da_unique runs on the length of the array as its fuel, da_merge on
-- the length of the first and twice that of the second, the printing of a decimal number `n` on n + 1, the printing of a text, plain or with a style sheet, on fuel that is enough when it
-- exceeds the number of unread bytes, streams_copy on more than the length of
-- the stream, the dump of a diversion on more than the depth of the ones
-- within it, the search in a hash table on the size of the table, xstrrpl on the length of its
-- string, and the loops that align a file (step_to_multiple) on the number that they align to.
--
-- Not modelled: how style sheets are read and inherited, regular expressions, expand_user_string, the
-- files of the prolog that output_file copies, document structure comments, encodings'
-- files, and the main program.
pub mod Prelude
pub mod Buffer
pub mod Darray
pub mod Escape
pub mod Hashtab
pub mod PageRange
pub mod PsGen
pub mod Read
pub mod Ssheet
pub mod Diversion
pub mod Substitution
