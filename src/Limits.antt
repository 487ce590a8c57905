-- ===== src/Limits.antt =====
-- The limits of shared/public-jobs.ts and src/lib/formula/limits.ts.
use hive_sat.Prelude.{ℕ}

abbrev pub max_compressed_formula_bytes : ℕ
max_compressed_formula_bytes = 5242880

abbrev pub max_encoded_formula_bytes : ℕ
max_encoded_formula_bytes = 33554432

abbrev pub max_variables : ℕ
max_variables = 2000000

abbrev pub max_clauses : ℕ
max_clauses = 1000000

abbrev pub max_literal_occurrences : ℕ
max_literal_occurrences = 2000000

abbrev pub max_decompressed_dimacs_bytes : ℕ
max_decompressed_dimacs_bytes = 33554432

abbrev pub solver_clause_batch_ints : ℕ
solver_clause_batch_ints = 65536
