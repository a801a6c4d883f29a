-- ===== src/Tests/SourceRuns.antt =====
-- A compound of two pieces (src/datasource.c).
use libsqfs.Prelude.{ℕ, ◌≡◌, some, List, [], ◌∷◌, ◌++◌, All, take, drop, arith}
use libsqfs.DataSource.Defs.{Piece, memory_data, memory_pread, compound_pread}
use libsqfs.DataSource.Compound.{Source, content}
use libsqfs.DataSource.Reads.{memory_pread-reads, memory_data-Source, compound_pread-reads}

abbrev text : List ℕ
text = 1 ∷ 2 ∷ 3 ∷ 4 ∷ []

memory_pread-reads_example : memory_pread text 9 1 ≡ some (2 ∷ 3 ∷ 4 ∷ [])
memory_pread-reads_example = memory_pread-reads text 9 1 (omega arith)

-- The last two bytes, and the first three.
abbrev two_pieces : List Piece
two_pieces =
    record { data_source = memory_data text; offset = 2; size = 2 }
    ∷ record { data_source = memory_data text; offset = 0; size = 3 }
    ∷ []

two_sources : All Source two_pieces
two_sources = (
  memory_data-Source text 2 2 (omega arith) (omega arith),
  (memory_data-Source text 0 3 (omega arith) (omega arith), tt),
)

compound_pread-reads_example :
    compound_pread two_pieces (0 ∷ 0 ∷ 0 ∷ 0 ∷ 0 ∷ 0 ∷ []) 6 1
    ≡ (4, take 4 (drop 1 (content two_pieces two_sources)) ++ (0 ∷ 0 ∷ []))
compound_pread-reads_example =
    compound_pread-reads two_pieces two_sources (0 ∷ 0 ∷ 0 ∷ 0 ∷ 0 ∷ 0 ∷ []) 6 1 (omega arith)
      (omega arith)
