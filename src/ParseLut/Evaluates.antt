-- ===== src/ParseLut/Evaluates.antt =====
-- Expressions with all their brackets are parsed to their values by server/parse_lut.c.
