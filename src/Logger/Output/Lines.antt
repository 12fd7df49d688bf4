-- ===== src/Logger/Output/Lines.antt =====
-- What reaches standard output: whole lines, each of a logging call.
