-- ===== src/Lib.antt =====
-- A model of the ascetic-ddd-go library, the parts under asceticddd/ that carry logic of their
-- own, with the theorems that make them correct.
--
-- Parts and files. IdentityMap (session/identitymap): IdentityMap/Lru is the `lruCache` of
-- lru_cache.go, IdentityMap the strategies of strategy.go and the map of identity_map.go;
-- IdentityMap/Spec has the abstract list of bindings, and IdentityMap/Refinement and
-- IdentityMap/Laws compare the two.
-- Saga (saga): Saga has `RoutingSlip` and its steps over a record of activities and any state of
-- the world; Saga/Execution the loops of `executeAlternative`; Saga/Fallback, Saga/Parallel and
-- Saga/Composite the composite activities; Saga/Host the activity host; Saga/Resolver and
-- Saga/Serialization the slip on the wire. Saga/Rollback and Saga/Attempt describe what the loops
-- achieve without the loops. Saga/Parallel/Runs describes what one branch of a parallel activity
-- goes through, and Saga/Parallel/Traces how the steps of several are woven into one sequence.
-- The composite activities run slips, and hosts pass one slip from queue to queue; both are
-- compared with the same description.
-- Specification (specification/domain): Specification has the nodes of nodes.go;
-- Specification/Operators and Specification/Registry operators.go and registry.go;
-- Specification/Evaluation the `EvaluateVisitor` of evaluate_visitor.go; Specification/Semantics
-- what expressions mean without the stack of the visitor, and Specification/Semantics/Scoping
-- with lexical items.
-- Jsonpath (specification/domain/jsonpath/parser.go): Jsonpath/Lexer has `Tokenize` with the
-- regular expressions of `tokenPatterns` written out, Jsonpath/Parser the recursive descent,
-- which takes the list of the tokens from an index on for the index, Jsonpath/Binding the
-- placeholders, their binding and `Match`. Jsonpath/Parser/Printing is a syntax of templates of
-- its own, with the tokens that it is written with and the tree that it means.
-- Sql (specification/infrastructure): Sql/Postgresql is the visitor of postgresql_visitor.go,
-- Sql/Schema the registry of schema.go, Sql/Transform the visitor of transform_visitor.go and the
-- composites of composite_expression_node.go. Sql/Rendering describes the text of an expression
-- without the state of the visitor.
-- Deferreds (deferred/deferred.go): a deferred holds its handlers and each handler its next
-- deferred, so that the chain of `Then` is a tree.
-- Signals (signals), Mediator (mediator) and Optional (option) are one file each with a module of
-- laws. Base has the names that all share: library names, tests on numbers, lists measured by
-- native numbers, and association lists, which stand for Go maps.
--
-- State is passed explicitly. Errors are values; a panic is `none` or the error `panic`.
-- Activities, contexts, observers, handlers, the run-time types of values and the functions
-- registered for operators are parameters. Methods keep their names in snake case; `not_`,
-- `mod_`, `some_of`, `nothing_of` and `map_optional` stand for `Not`, `Mod`, `Some`, `Nothing`
-- and `Map`, and `and_one` and `or_one` for `And` and `Or` with one right operand.
--
-- Fuel. The loops over a slip take a round for each pending item and a compensation for each item
-- or log, which is enough when compensations add no log (Saga/Attempt and Saga/Rollback).
-- Goroutines are interleaved by a schedule that names who moves next; a schedule is fair when
-- each goroutine has the turns it may need. Message passing takes two messages for each item and
-- one for each log. The lexer takes one round for each character, and the parser three for each
-- token and five more (Jsonpath/Parser/Totality).
--
-- Not modelled: contexts and cancellation, slips and signals that are listed twice by pointer, a
-- nil stored as a value of an interface type in the identity map, data races inside one call of
-- an activity, observers and handlers that change the signal or mediator calling them, the
-- default operator functions on floats and times, the run of both SQL visitors in `Compile`,
-- `All` of deferreds, batches, inbox, outbox, sessions, event stores and key management, which
-- talk to a database or a service, and the code generator under cmd/.
pub mod Base
pub mod IdentityMap
pub mod Saga
pub mod Specification
pub mod Signals
pub mod Mediator
pub mod Optional
pub mod Jsonpath
pub mod Sql
pub mod Deferreds
