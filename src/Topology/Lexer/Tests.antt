-- ===== src/Topology/Lexer/Tests.antt =====
-- Texts that the lexer reads.
use nemesis.Prelude.{codes, Ensures}
use nemesis.Topology.Lexer.{lex}
use nemesis.Topology.Lexer.Whole.{whole_std}
use nemesis.Topology.Lexer.Total.{AllU32, IsReal, lex-Ensures}

lex-Ensures_example : Ensures AllU32 IsReal (lex whole_std (codes "TP8_NVL600+PP4_IB1|DP64"))
lex-Ensures_example = lex-Ensures whole_std (codes "TP8_NVL600+PP4_IB1|DP64")
