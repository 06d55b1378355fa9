-- ===== src/Agtype/Parser.antt =====
-- agtype_parser.c: the lexer and the recursive descent, and the callbacks of agtype.c.
pub mod Strings
pub mod Escapes
pub mod Numbers
pub mod Grammar
pub mod Lexer
pub mod Descent
pub mod Input
pub mod Output
pub mod Paths
pub mod Progress
pub mod Termination
pub mod Ends
