-- ===== src/Console.antt =====
-- plugins/ui-console/src/console: the line editor and the command line of the console.
pub mod LineEditor
pub mod Tokenizer
pub mod CommandRouter
