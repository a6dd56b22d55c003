-- ===== src/Lib.antt =====
-- Thorin is a compiler's intermediate representation: a hash-consed graph of definitions (`World`,
-- `Def`), a front end for its text form, dialects that add axioms with normalizers, and passes over
-- the graph. This library models parts that the rest stands on, each from its source:
-- * Util/Utf8 is thorin/util/utf8.h and thorin/util/utf8.cpp. `encode` reads the bytes of one code
--   point, `decode` writes them; a stream is the list of its bytes, and the end of it yields `eof`.
-- * Util/BitSet is thorin/util/bitset.h and thorin/util/bitset.cpp. A set is the list of its 64-bit
--   words; the inline word and the array on the heap are the same list. An operation that may read
--   or shift outside what C++ defines yields `none`. Util/Width holds `std::bit_width`,
--   `std::bit_ceil` and `std::popcount`, which the set calls.
-- * Util/Hash is thorin/util/hash.h and thorin/util/hash.cpp on 32-bit words, and Util/Hash/Finalizer
--   the finalizer of murmur3 undone.
-- * World/Sea is the sea of nodes: number and hash of a definition as the constructors of
--   thorin/def.cpp set them, `Def::equal`, and `next_gid`, `unify`, `insert` and `freeze` of
--   thorin/world.h. A pointer to a definition is its number. The hash set is the submodule absl's: its
--   `find` is an argument, with two laws that are its documentation, and World/Sea/Find is a list that
--   obeys them.
-- * Analyses/PostOrder is `post_order_visit` of thorin/analyses/cfg.cpp, by which `CFG` numbers its
--   nodes. The graph is an argument, and the depth of the calls is bounded by the number of nodes, since
--   every call marks one. `IsIndexed` is the graph that results where nodes are their indices.
-- * Analyses/DomTree is `create` and `least_common_ancestor` of thorin/analyses/domtree.cpp. A node is
--   its index in the numbering, and the control-flow graph is an argument. The inner loops run
--   on the index that climbs, the outer one on the sum of both, and the rounds of `create` on the square
--   of the number of nodes: every change lowers the sum of the immediate dominators.
-- * Analyses/Depth is the children and `depth` of the same file. The depth of the recursion is bounded
--   by the number of nodes, since a child has a greater index.
-- * Analyses/Frontier is thorin/analyses/domfrontier.cpp: the calls of `link`, in their order.
-- * Axiom is the naming of axioms in thorin/axiom.h and thorin/axiom.cpp: the fields of the 64-bit
--   flags, `mangle`, `demangle` and `split`. A string is the list of its bytes.
-- * Axiom/Curry is `get` of thorin/axiom.cpp and the counter by which `World::raw_app` of
--   thorin/world.cpp decides that an application is normalized. The normalizer itself is not run.
-- * Idx is the conversion between the bit width and the size of `.Idx` in thorin/def.h.
-- * Core/Ops is the numbering of sub tags in dialects/core/core.thorin, and the truth tables and
--   `is_commutative` of dialects/core/core.h.
-- * Core/Fold is `fold<Id, id, w>` of dialects/core/normalizers.cpp: operations on literals, with the
--   promotion of narrow operands to `int` and with a result `undefined` where C++ has none.
-- * Core/MergeCmps is `merge_cmps` of the same file.
-- * Core/Normalize is `fold`, `commute`, `normalize_shr`, `normalize_div` and `normalize_icmp` of the
--   same file. An operand is a literal, bottom, or another definition known by its `gid`.
-- * Core/Bitwise is the meaning of the bit operations on words, by the table in core.thorin. Core/Bit2
--   is `normalize_bit2`, `normalize_bit1` on literals, `reassociate`, `op_negate` and `merge_cmps` on
--   integer comparisons of definitions that are neither literals nor bottom, all of dialects/core. How the world builds an operation on two definitions is
--   an argument of them; `build` is the world with a depth of calls.
-- * Core/Wrap is `normalize_wrap` with `reassociate` of the same file, built in the same way.
-- * Core/Ncmp is `normalize_nop` and `normalize_ncmp` of the same file, and Core/Conv is
--   `normalize_conv` with the check of `World::lit` in thorin/world.cpp.
-- * Core/Trait is `pad` and `normalize_trait` of the same file, and `convert` of dialects/core/core.cpp.
--   The two traits of a type are computed together; a failed assertion yields `none`.
-- * Fe/Token is the tables of thorin/fe/tok.h, Fe/Chars the character classes of the "C" locale that
--   thorin/fe/lexer.cpp asks for, Fe/Input the lookahead of `utf8::Lexer` in thorin/util/utf8.h with
--   `next` of thorin/fe/lexer.h, Fe/Step what one round of `Lexer::lex` comes to, Fe/Literals
--   `parse_lit` and what it calls, and Fe/Lexer the rest of thorin/fe/lexer.cpp. An error that is thrown
--   ends the run as a value with its location.
-- * Fe/Scopes is thorin/fe/scopes.h and thorin/fe/scopes.cpp, with the symbols of thorin/debug.h: the
--   stack of scopes of the parser. A scope is the list of its entries, a pointer to one is its index,
--   and the exceptions are values.
-- * Prelude and its children hold what the parts share: Boolean tests, lists over the native numbers,
--   and the bits of a number. Tests holds instances on concrete inputs.
-- Machine words are natural numbers with the wrap-around written out. Loops are recursion on lists or
-- on a count: `mangle` and `demangle` run the eight rounds that the code runs, `merge_bits` one for
-- each bit of the sub tag, and `any_words` has one more than the number of words, which suffices
-- whenever the range begins inside the words. `bit_width n` halves at most `n` times.
-- The loops of the lexer run on the number of characters and bytes left, which every round lowers, so
-- that they never run out. `build` and `build_wrap` take any depth of calls; a depth of 0 builds the
-- application.
-- Not modelled: the smart constructors of the graph and what walks it (checking, rewriting, passes,
-- analyses other than the numbering of the control-flow graph, the dominator tree and its
-- frontiers); use lists, debug information and the arena of the world; the parser;
-- `normalize_bitcast`, `normalize_zip` and `normalize_pe`; the folding and the merging of
-- floating-point comparisons, and `strtod`, of which the lexer keeps the text; printing, code generation,
-- plugins and the command line, which are input and output. The normalizers' memory operand and
-- debug information are left out.
pub mod Analyses
pub mod Prelude
pub mod Util
pub mod Axiom
pub mod Idx
pub mod World
pub mod Core
pub mod Fe
pub mod Tests
