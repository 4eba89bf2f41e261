-- ===== src/TypeSystem/Parse.antt =====
-- ParseType (internal/typesystem/parser.go): recursive descent over bytes. A parser takes the input
-- that is left and returns what is left after it; the position is only used in the texts of errors,
-- which are not modelled. The depth of the recursion is bounded by fuel.
pub mod Result
pub mod Lexical
pub mod Types
