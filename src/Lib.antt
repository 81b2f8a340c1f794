-- ===== src/Lib.antt =====
-- A verification library for the tinox compiler: its lexer, with the positions and diagnostics that
-- the lexer reports, the syntax tree and its numbering, the parser's levels of binary operators, the
-- types of the type checker, and the pure core of the package manager.
--
-- The program. crates/tinox-common holds positions, spans and errors. crates/tinox-lexer turns a
-- source text into tokens for crates/tinox-parser; crates/tinox-typecheck and crates/tinox-codegen
-- work on the parsed program; crates/tinox is the command line with the package manager,
-- crates/tinox-lsp the language server. The components interact as in the code: the lexer and the
-- checker report the errors of `Diag`; the parser reads the lexer's tokens and builds the tree of
-- `Ast`, whose expressions `assign_node_ids` numbers for the checker's table of types; the checker's
-- types come from the parsed ones; and the lock file's checksums are those that an install is held
-- to.
--
-- The files.
--   Prelude             lists and texts over native numbers, Boolean tests.
--   Diag                crates/tinox-common/src/lib.rs: Span, Pos, Spanned, Error, ErrorBag.
--   Lexer/Token         crates/tinox-lexer/src/lib.rs: TokenKind, Token and the suffix types.
--   Lexer/Keyword       Keyword and Keyword::lookup.
--   Lexer/Cursor        the struct Lexer, peek, bump, mk_pos, mk_span, and the methods' results.
--   Lexer/Operators     read_plus to read_question.
--   Lexer/Comments      read_line_comment and read_block_comment.
--   Lexer/Escapes       read_escape and read_hex_digit.
--   Lexer/Quoted        read_string, read_raw_string, read_char and read_byte_literal.
--   Lexer/Numbers       read_number, its suffixes, and the radix literals.
--   Lexer/Next          next_token and tokenize.
--   Lexer/Safety        what holds of every method on every input: panics, fuel, spans.
--   Lexer/Reading       what next_token gives for a text that stands at the cursor.
--   Lexer/Tests, Lexer/Examples        concrete inputs.
--   Packages/Types      crates/tinox/src/pm.rs: the manifest, the lock file and the errors.
--   Packages/Strings    the operations of Rust's str that it uses.
--   Packages/Manifest   parse_manifest, manifest_section_for, parse_toml_kv.
--   Packages/Resolve    effective_download_url, lock_entry_for, upsert_lock_entry,
--                       expected_checksum, verify_checksum, sanitize_path_component,
--                       dep_install_dir.
--   Packages/Render     format_dependency, format_repository and the loop of write_manifest over the
--                       dependencies.
--   Packages/Base64     base64_decode.
--   Packages/Envelope   parse_registry_envelope, extract_json_string_field.
--   Packages/Pinning, Addresses, Locations, Sections, RoundTrip, Tables, Decoding, Fields
--                       their theorems.
--   Packages/Examples   concrete inputs.
--
--   Ast/Types, Expr, Decl           crates/tinox-parser/src/ast.rs: the syntax tree.
--   Ast/NodeIds         crates/tinox-parser/src/node_ids.rs: assign_node_ids and Numberer.
--   Ast/Collect, Bare, Ids, DeclIds        the expressions of a tree in order, and the tree without its
--                       ids.
--   Ast/Numbering, Numbered, Assigned        the theorems on the numbering.
--   Parse               crates/tinox-parser/src/parser.rs: Parser, peek and bump.
--   Parse/Ladder        parse_or_expr down to parse_multiplicative_expr.
--   Parse/Operand       is_generic_type_static_call and the tokens with which parse_postfix_expr and
--                       parse_as_expr go on behind an operand.
--   Parse/Grammar       the table of precedences, and the expressions that fit it.
--   Parse/Recovery      parse, synchronize and is_at_end.
--   Parse/Unread, Reading, Progress, Finish        their theorems.
--   Check/ValueType     crates/tinox-typecheck/src/lib.rs: ValueType.
--   Check/Compatible    types_compatible and lub.
--   Check/TypeError     TypeError and to_error.
--   Check/Operators     check_binary_op, check_unary_op, the result types, literal_type.
--   Check/Inheritance   is_subclass_or_equal and check_member_visibility.
--   Check/Generics      unify_param, the substitutions, erasure and the tests for type parameters.
--   Check/ThisUse       stmt_uses_this and expr_uses_this.
--   Ast/Examples, Parse/Examples, Check/Examples        concrete inputs.
--
-- How the code corresponds. A char is its code point and a String the list of them. A method of
-- Lexer is a function from a lexer to an outcome and the lexer behind it (`M`): `ok`, `err` with the
-- error, `panic` where an index or a slice is out of range, and `out_of_fuel`. `usize` positions are
-- numbers; a `u32` (offset, line, column) is cut to 32 bits where the code casts or adds. A literal
-- is an `i64` that the lexer never makes negative, and stands as its number. Parsing an `f64` is
-- Rust's; it is the parameter `FloatParser`. The package manager's results are `Result`, and an
-- error message is a constructor of `PmError` with what the message names; a path is its text, joined
-- as on Unix, and `u8` arithmetic is cut to 8 bits.
--
-- `Spanned<ExprKind>` is the type `Expr`, with node, span and id; a list or an option of a type of
-- the tree is a type of the same mutual block. A method of Parser is a function from a parser to
-- `Parsed`: the expression or the error, with the parser behind it. The operand parser below the
-- levels, `parse_as_expr`, is an argument of theirs, as `parse_decl` is of `parse`. It may look
-- ahead: behind any operand it takes `<` for type arguments where `is_generic_type_static_call`
-- finds `< T > ::`. A map of the checker is the function that looks a name up in it; the errors of
-- the checker are the list that a check is given and returns.
--
-- Loops. A loop of the lexer runs on fuel: `rounds l`, one more than the input's characters, since
-- each round but the last moves the cursor; `tokenize` has one round more, for `Eof`. The package
-- manager's loops are structural recursion. A level's loop in the parser has one round for each unread
-- token and one for the end; a round reads a token. The walk of `is_subclass_or_equal` has no bound in
-- the code; its fuel is enough if it exceeds the length of the chain of parents.
--
-- Not modelled: the `Display` implementations of diagnostics; of the parser all but the levels of
-- binary operators, `parse` and `synchronize`; the formatter; of the type checker the registration
-- of declarations, the checking of classes, functions, statements and expressions, and the
-- annotations; the code generator, the language server and the command line; of the package manager
-- its downloads, archives, file access and the transitive walk over installed packages, and of
-- `write_manifest` all but the tables that it writes.
pub mod Prelude
pub mod Diag
pub mod Lexer
pub mod Packages
pub mod Ast
pub mod Check
pub mod Parse
