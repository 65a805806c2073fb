-- ===== src/Gguf/Tests.antt =====
-- A small model file.
use llama_chip.Base.{
  All, List, Text, [], arith, codes, insert, lookup, ok, refl, same, ℕ, ◌++◌, ◌∷◌, ◌≡◌,
}
use llama_chip.Gguf.Defs.{Params, params_of, read, read_entry, sign_extend}
use llama_chip.Gguf.Writing.{
  Wire, int32, le_bytes, num, nums, str, table, uint32, uint64, write_all, write_entry,
  write_header, write_string,
}
use llama_chip.Gguf.Ends.{Takes, read_entry-Takes}
use llama_chip.Gguf.Header.{IsEntry, read-write_header}

abbrev entries : List (Text × Wire)
entries =
    (codes "general.architecture", str (codes "qwen"))
    ∷ (codes "qwen.block_count", num uint32 28)
    ∷ (codes "qwen.attention.head_count", nums int32 (16 ∷ 8 ∷ []))
    ∷ (codes "qwen.embedding_length", num uint64 2048)
    ∷ []

abbrev dims : Params
dims = record { arch = codes "qwen"; layers = 28; kv_heads = 16; head_dim = 128; train_ctx = 0 }

dims_of : params_of (table entries []) ≡ dims
unfolding params_of insert lookup same sign_extend
dims_of = refl

entries-IsEntry : All IsEntry entries
entries-IsEntry = (
  (omega arith, omega arith),
  (
    (omega arith, omega arith),
    (
      (omega arith, (omega arith, (omega arith, (omega arith, tt)))),
      ((omega arith, omega arith), tt),
    ),
  ),
)

read-write_header_example :
    read (write_header 3 0 entries ++ 7 ∷ []) ≡ ok (params_of (table entries []))
unfolding write_header write_entry write_all write_string le_bytes
read-write_header_example =
    read-write_header 3 0 entries (7 ∷ []) (omega arith) (omega arith) (omega arith) entries-IsEntry
      (omega arith)

-- An array of arrays in a file that is cut short.
abbrev nested : List ℕ
nested = le_bytes 8 1 ++ (b'k' ∷ (le_bytes 4 9 ++ (le_bytes 4 9 ++ le_bytes 8 2)))

read_entry-Takes_example : Takes 12 nested (read_entry nested)
read_entry-Takes_example = read_entry-Takes nested

-- The entry `k` with the number 7 of 32 bits.
abbrev seven : List ℕ
seven = 1 ∷ 0 ∷ 0 ∷ 0 ∷ 0 ∷ 0 ∷ 0 ∷ 0 ∷ 107 ∷ 4 ∷ 0 ∷ 0 ∷ 0 ∷ 7 ∷ 0 ∷ 0 ∷ 0 ∷ []
