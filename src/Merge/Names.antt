-- ===== src/Merge/Names.antt =====
-- `PackageNameTable` of src/merge.hpp and `decode_package_names` of src/merge.cpp. The inflation by
-- zlib, with its checks of the end of the stream, is a parameter.
pub mod Lines
use aurhub.Base.{
  ℕ, zero, suc, ◌+◌, ◌-◌, ◌%◌, ◌^◌, not, List, [], ◌∷◌, Option, none, some, get_or, take, drop,
  length, ltb, ◌==◌, if◌then◌else◌,
}
use aurhub.Base.Result.{Result, ok, err, ◌>>=◌, ◌>>◌, throw_if}
use aurhub.Bytes.{Bytes, find_byte}
use aurhub.Generation.Format.{u32_max}

pub data NamesError : Type 0 where
  cannot_inflate table_too_large lacks_newline count_differs : NamesError

pub record PackageNameTable : Type 0 where
  pub storage : Bytes
  pub starts : List ℕ

unfoldable pub table_name : PackageNameTable → ℕ → Bytes
table_name table index =
    let first = get_or table.starts index 0 in
    let after_newline = get_or table.starts (index + 1) 0 in
    take (after_newline - first - 1) (drop first table.storage)

-- The loop behind the first start. Every line is at least a byte long, so the fuel may be the size.
unfoldable pub line_starts : Bytes → ℕ → ℕ → Result NamesError (List ℕ)
line_starts storage zero first = ok []
line_starts storage (suc fuel) first =
    if ltb first (length storage)
    then elim (find_byte b'\n' (drop first storage)) [
      | none ↦ err lacks_newline
      | some line ↦
          let next = first + line + 1 in
          line_starts storage fuel next >>= λ rest. ok (next % 2 ^ 32 ∷ rest)
    ]
    else ok []

unfoldable pub decode_package_names :
    (Bytes → Option Bytes) → Bytes → ℕ → Result NamesError PackageNameTable
unfolding line_starts
decode_package_names inflate gzip expected_count = do
  storage ← elim (inflate gzip) [ none ↦ err cannot_inflate | some bytes ↦ ok bytes ]
  throw_if (ltb u32_max (length storage)) table_too_large
  starts ← line_starts storage (length storage) 0
  throw_if (not (length (0 ∷ starts) == expected_count + 1)) count_differs
  ok (record { storage = storage; starts = 0 ∷ starts })
