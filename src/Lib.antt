-- ===== src/Lib.antt =====
-- A model of parts of the Sarif compiler and toolchain, with theorems about them.
--
-- The program turns source text into tokens (crates/sarif_syntax), tokens into a syntax tree and
-- from there into a mid-level representation (MIR, crates/sarif_codegen) on which an interpreter,
-- the backends and the escape analysis work. crates/sarif_query_planner is a separate library that
-- plans queries and emits Sarif code for them.
--
-- Base passes on the shared names and has the helpers on tests, lists and integers.
--
-- Mir, Mir/Inst: the data model of the MIR, crates/sarif_codegen/src/lib.rs `Function`, `Inst`,
-- `HandleArm`. Every constructor and field of `Inst` is kept. A `Vec<Inst>` is the type `Insts` and
-- a `Vec<HandleArm>` the type `Arms`, since a data type may not hold a list of itself.
--
-- Escape and its children: crates/sarif_codegen/src/escape.rs. Flags and Env are the bit vectors and
-- the state of the analysis, Analyze the transfer functions (`analyze`, `analyze_inst`), Program the
-- analysis of a program (`analyze_escapes`, `analyze_function`). `HashMap<String, CalleeInfo>` is an
-- association list. The loops of `While` and `Repeat` are `iterate`, on as many rounds as there are
-- flags down and one more; a round that changes the state raises a flag, so the loop always ends by
-- its own test within them. The fixed-point loop over the callees is `settle`, on rounds given by
-- the caller, and `none` where it needs more. Runs is the independent description: runs of a
-- function body seen through one bit for each value and slot. It is part of the interpreter's runs.
-- What a `handle` does is left out, whose arms the interpreter runs in the middle of the body; the
-- results of calls are bounded by the map of callees; and a list, builder or index that is
-- changed in place changes the bit of no other value, though another may name the same one.
--
-- The parser, crates/sarif_syntax/src/parser.rs.
--   Parser.Kinds     the numbers and names of the kinds of tokens
--   Parser.State     `Parser`: the tokens from the cursor on, for the array and the index
--   Parser.Build     what the functions are made of: a piece of code pushes onto the vector of children
--                    and moves the parser; `expect`, `collect_trivia`, `bump`, nodes and loops
--   Parser.Peek      the tests that look ahead, and the binding powers
--   Parser.Types, Parser.Exprs, Parser.Bodies, Parser.Items
--                    the functions, one definition for each. Where functions call each other in a
--                    circle, the later call is a `Call`, which `functions` answers at a depth of calls;
--                    a loop has one round for each token left and one more, since a round takes a
--                    token; a depth of as many calls as tokens is enough, since a `Call` comes after
--                    a token of its function
--   Parser.Leaves    the leaves and the text of a tree
--   Parser.Runs, Parser.Rules, Parser.Trivia, Parser.Steps, Parser.Nodes, Parser.Loops, Parser.Ready
--                    what it is for a piece to run, and the rules by which it does, from its parts
--   Parser.Works, Parser.TypesRun, Parser.ExprsRun, Parser.NamesRun, Parser.OperatorsRun,
--   Parser.BodiesRun, Parser.ItemsRun
--                    the same for each function, by the names of the functions
--   Parser.Total, Parser.Source, Parser.Stuck
--                    the whole parser, the lexer and it, and the parameters of an arm of `handle`
--
-- Tokens and the lexer, crates/sarif_syntax/src/lib.rs and lexer.rs.
--   Syntax.Token, Syntax.Kind, Syntax.Tree
--                    the kinds, tokens, diagnostics and trees
--   Syntax.Lexer     `lex`: the scanner that the logos crate generates is the parameter `next`; the
--                    identifier cache is passed along; the fuel is one round for each character and
--                    one more, since every round but the last passes at least one
--   Syntax.Covered, Syntax.Lossless
--                    what the tokens are of the source; the hypothesis `Scans` says what is used of
--                    the scanner
-- Not modelled of it: `Node::pretty`, which prints in the manner of Rust's `Debug`.
--
-- Types of the semantic analysis, crates/sarif_frontend/src/semantic.rs, hir.rs and semantic/.
--   Types.Data, Types.Compatible
--                    `Type` (here `Ty`), `ConstExpr` and its evaluation in `u32`, which types go
--                    together and which exist; a map is a list of pairs
--   Types.Contains   `type_is_rt_safe` and `type_contains_affine_values`, on a depth of names: one
--                    above the number of declared names is enough, since no name is entered twice
--                    on one way
--   Types.Laws, Types.Consts, Types.Reach, Types.Searches, Types.Found
--                    laws of these; `Reaches` is the description of the two searches as a relation
-- Not modelled of it: reading a type from its name, and the checks of items and bodies.
--
-- Literals, crates/sarif_syntax/src/ast.rs.
--   Ast.Literals     `unescape_string`, `lower_integer_expr`, `lower_bool_expr` and `has_interpolation`
--   Ast.Tokens       which tokens stand among children, said without the functions
--   Ast.Laws         laws of these, with Text.Numbers on digits
-- Not modelled of it: the lowering of declarations, statements and the other expressions.
--
-- The command line, apps/sarifc/src/command.rs.
--   Command.Distance, Command.Table, Command.Script
--                    `edit_distance`, what its table holds, and edit scripts, its specification
--   Command.Suggest  `closest_command`
--   Command.Parse    `parse_command`: a round of the loop is `step_arg`; an option that takes its value
--                    by `iter.next()` leaves the loop waiting for it
--   Command.Keeps, Command.Laws
--                    what the loop keeps, and what is accepted
-- Not modelled of it: `usage`, a constant text.
--
-- The query planner, crates/sarif_query_planner/src, reads a SELECT statement (lib.rs `parse_sql`),
-- optimizes it into an order of stages (optimizer.rs), can print it (plan.rs) or generate a Sarif
-- program for it (codegen.rs), and hands out results through a cursor (lib.rs `SarifResult`), a C
-- interface (capi/mod.rs) and handles for a browser (wasm_api/mod.rs).
--   Text             the methods of `str` that the planner calls, over ASCII text; Text.Laws has their
--                    lengths and parts, Text.Search what is found in a text made of pieces,
--                    Text.Balance counts brackets
--   Planner.Plan     the types of plan.rs; Planner.Pretty its printers; Planner.Balance their brackets
--   Planner.Sql      the reader and `prepare_query`; one level of fuel for each character of a
--                    condition and one more is enough, since each part is shorter than the whole;
--                    Planner.Sql.Laws has that, Planner.Sql.Reads written queries and their plans
--   Planner.Optimizer, Planner.Codegen, Planner.Cursor, Planner.Handle
--                    optimizer.rs, codegen.rs, the cursor with the C interface, and the handles
-- Not modelled of it: the parsing of floats (column_double) and the freeing of boxes.
--
-- TextSlice is the slicing of texts at run time, crates/sarif_codegen/src/lib.rs `slice_text`,
-- `clamp_text_slice_start`, `clamp_text_slice_end`: one round for each byte and one more is enough.
--
-- Not modelled: the high-level representation, the semantic analysis, the lowering to MIR
-- and its interpreter, which stand on the parts above; the backends, which for the most part call
-- Cranelift and the object and WebAssembly writers; the runtime in C; the driver, which is input and
-- output; the programs of bootstrap, which are in the Sarif language.
pub mod Ast
pub mod Base
pub mod Command
pub mod Escape
pub mod Mir
pub mod Parser
pub mod Planner
pub mod Syntax
pub mod Text
pub mod TextSlice
pub mod Types
