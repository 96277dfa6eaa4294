-- ===== src/Lib.antt =====
-- peglib, a header-only C++ library of parsing expression grammars: packrat parsing with left
-- recursion, cuts, automatic skipping and error recovery.
--
-- The parts, and the files that model them:
-- - ParseError (include/peglib/ParseError.h): expected items, their ordered set, the two carriers of
--   a failure (Diagnostic, ParseError). ParseError/FromList builds the set from a list, ParseError/Escape
--   renders elements of integral types, ParseError/Custom of any type, with a user's hook as an
--   argument; ParseError/Display is a decoder of UTF-8, and Diagnostics the two messages.
-- - Context (include/peglib/Context.h): the state of a parse as a record. Each method is a function
--   of the same name on it; `cut()` and `cut(bool)` are `get_cut` and `set_cut`, and `reset` and
--   `lr_pop`, which assert, stand in Engine. The memo table is a
--   function of position and rule, a pointer to a tree node its index in the arena, and a pointer
--   to a rule its index in the grammar.
-- - Expr (include/peglib/Terminals.h, Combinators.h, NonTerminal.h, Recover.h, Grammar.h): the data of
--   a grammar. A C++ expression type is a constructor of `Expr`.
-- - Engine (the `parse` members): Engine is the monad of calls, in which a ParseError is a value, a
--   failed assertion a `fault` and a ScopeGuard is `guarded`. Engine/Terminals models Terminals.h
--   and ParserFwd.h, Engine/Combinators models Combinators.h, Engine/Rules models NonTerminal.h with
--   the seed-grow loop of left recursion, and Engine/Run the dispatch on the expression type.
--   Engine/Recovery is about the scan of an error recovery and the builders of Recover.h,
--   Engine/Reports and Engine/Texts about what a failure records, and Engine/Nodes about a rule's
--   tree node.
-- - Grammar (include/peglib/Grammar.h): the parse entries; Grammar/Table the table of rules,
--   Grammar/Refs, Grammar/Names and Grammar/Reach its validation. Grammar/Factories models the
--   members that make leaves, Grammar/Handles the handles that assign bodies, labels and actions,
--   Grammar/Build is about grammars built by them, and Grammar/Dot models to_dot.
-- - Operators (include/peglib/Rule.h): the operators that build expressions; an overload on a type of
--   expression is a clause.
-- - ResultType (include/peglib/ResultType.h): the result type of an expression and the arguments of an
--   action. A C++ type is a value of `Ty`, and an expression that does not compile has none.
-- - Fold (include/peglib/ResultType.h): the typed fold of a tree, with `children.at` out of range and a
--   null pointer dereferenced as outcomes. Fold/Actions models the bridge to actions, the match hooks
--   and parse_ast; Fold/Types and Fold/Arguments are about the types of the values, Fold/Shape
--   about the trees on which the fold goes through, and Fold/Invoke about the calls of actions.
-- - SourceMap (include/peglib/SourceMap.h): offsets, lines and columns.
-- - FileSource (include/peglib/FileSource.h, InputSource.h): the paged file source, with `fread` and
--   `fseek` as C describes them on a file that does not change; FileSource/Iterators its iterators,
--   FileSource/Opening its constructor, its destructor and slices.
-- - Invariant: what holds of a context between calls, how a call leaves its caller's context,
--   with a module for each part of the engine.
-- - Termination: the measure by which the parses of a grammar without cuts end: the pairs of a rule
--   and a position at which the rule is not running. Each first parse of a rule takes one.
--   Termination/Recovery is about rules with recovery in such grammars.
-- - Semantics: the big-step semantics of parsing expressions with skipping, without a context or a
--   memo table. Semantics/Plan is the certificate that a grammar has no left recursion and no
--   recovery and calls each rule in one skipping mode, Semantics/State what a context holds while
--   every finished memo entry is a true answer, the other modules go through the engine part by
--   part, and Semantics/Entry and Semantics/Language are about the parse entries.
-- - Samples and Witnesses: grammars, runs and the theorems at concrete inputs.
--
-- The entries of Grammar call the skipper and then the start rule through Engine/Run; the engine
-- changes the Context only by Context's operations, which record expected items by ParseError.
--
-- Bounds. `parse` runs to a depth of nested calls, since a grammar can nest calls without end; a run
-- that needs more is `too_deep`. The two loops of the source that have no counter, of a repetition
-- and of a growing rule, get a bound of two rounds more than the input has elements, since each
-- round but the last gets further in the input; a loop that outran it would be `diverged`. The
-- worklist of the validation gets a bound of one round more than the table has references, and the
-- one of to_dot a round for each rule and each reference.
--
-- An element of the input is a number: its code unit, where CharT is integral. Ranges compare these
-- numbers, as an unsigned CharT does. An assertion of a parse (on a range, reset, lr_pop, a rule
-- without a body) that fails is a `fault`, as in a build that checks assertions. Offsets are
-- unbounded, except in SourceMap, where a std::size_t wraps.
--
-- Folds run to a bound on nested rules with actions, since an action's fold can reach its own rule
-- again; a fold that needs more is `too_nested`.
--
-- Not modelled: the concept that checks the signature of an action, which asks the C++ compiler;
-- contexts over a FileSource as a whole, and errors of `fread` and `fseek` on a file that is open.
pub mod Context
pub mod Diagnostics
pub mod Engine
pub mod Expr
pub mod FileSource
pub mod Fold
pub mod Grammar
pub mod Invariant
pub mod Operators
pub mod ParseError
pub mod Prelude
pub mod ResultType
mod Samples
pub mod Semantics
pub mod SourceMap
pub mod Termination
mod Witnesses
