-- ===== src/Snapshot/Builder/Count.antt =====
-- `write_search_blocks` of src/snapshot.cpp and the counts of its header.
use native.Mathlib.Nat.{div-add-mod', mod-lt}
use aurhub.Base.{
  ℕ, suc, ◌+◌, ◌*◌, ◌/◌, ◌%◌, ◌^◌, ◌≤◌, ◌<◌, ◌≡◌, ◌≢◌, refl, ◌∙◌, not, ◌||◌, false, List, [], ◌∷◌,
  some, none, length, arith, ◌==◌, ==_iff, if◌then◌else◌, get_or, ap, ℕ_discrete, dec_lt,
}
use aurhub.Bytes.{Bytes, AreBytes}
use aurhub.Snapshot.Block.{SearchBlock}
use aurhub.Snapshot.Builder.{
  Blocks, blocks_step, blocks_loop, block_count, no_blocks, write_search_blocks,
}
use aurhub.Snapshot.Builder.Loop.{Covered, Agrees, level_loop, level_loop-no_blocks}

pub lt_of_mul-lt : (a b c : ℕ) → a * c < b * c → a < b
lt_of_mul-lt a b c h = elim (dec_lt a b) [ yes l ↦ l | no n ↦ absurd (n (grind arith)) ]

-- `n` blocks of `limit` packages hold `total` packages, and `n - 1` do not.
pub block_count-eq :
    (total limit n : ℕ)
    → 0 < limit
    → total ≤ n * limit
    → n * limit < total + limit
    → n ≡ block_count total limit
unfolding block_count
block_count-eq total limit n pos enough tight =
    let q = total / limit in
    let r = total % limit in
    let split : q * limit + r ≡ total = div-add-mod' total limit in
    let small : r < limit = mod-lt total pos in
    elim (ℕ_discrete (total % limit) 0) [
      | yes e ↦
          let above : n < q + 1 = lt_of_mul-lt n (q + 1) limit (omega arith) in
          let below : q < n + 1 = lt_of_mul-lt q (n + 1) limit (omega arith) in
          ground (arith, above, below)
      | no ne ↦
          let above : n < q + 2 = lt_of_mul-lt n (q + 2) limit (omega arith) in
          let below : q < n = lt_of_mul-lt q n limit (omega arith) in ground (arith, above, below)
    ]

blocks_loop-fine :
    (b s total index : ℕ) (texts : List Bytes) (blocks : Blocks)
    → (blocks_loop b s total index texts blocks).fine ≡ level_loop b total index texts blocks.fine
unfolding blocks_loop level_loop
blocks_loop-fine b s total index [] blocks = refl
blocks_loop-fine b s total index (t ∷ texts) blocks =
    blocks_loop-fine b s total (suc index) texts (blocks_step b s total index t blocks)

blocks_loop-coarse :
    (b s total index : ℕ) (texts : List Bytes) (blocks : Blocks)
    → (s == 0) ≡ false
    → (blocks_loop b s total index texts blocks).coarse
      ≡ level_loop s total index texts blocks.coarse
unfolding blocks_loop level_loop
blocks_loop-coarse b s total index [] blocks e = refl
blocks_loop-coarse b s total index (t ∷ texts) blocks e =
    blocks_loop-coarse b s total (suc index) texts (blocks_step b s total index t blocks) e ∙ rw e

-- without super blocks the coarse level is left alone
blocks_loop-no_coarse :
    (b total index : ℕ) (texts : List Bytes) (blocks : Blocks)
    → (blocks_loop b 0 total index texts blocks).coarse ≡ blocks.coarse
unfolding blocks_loop
blocks_loop-no_coarse b total index [] blocks = refl
blocks_loop-no_coarse b total index (t ∷ texts) blocks =
    blocks_loop-no_coarse b total (suc index) texts (blocks_step b 0 total index t blocks)

-- every text consists of bytes
abbrev pub AllBytes : List Bytes → Type 0
AllBytes [] = Unit
AllBytes (t ∷ texts) = AreBytes t × AllBytes texts

Agrees-from :
    (text : ℕ → Bytes) (texts : List Bytes) (index : ℕ)
    → ((p : ℕ) → text (index + p) ≡ get_or texts p [])
    → AllBytes texts
    → Agrees text index texts
unfolding get_or
Agrees-from text [] index e b = tt
Agrees-from text (t ∷ texts) index e b = (
  ap text (omega arith) ∙ e 0,
  b.0,
  Agrees-from text texts (suc index) (λ p. ap text (omega arith) ∙ e (suc p)) b.1,
)

pub Agrees-all : (texts : List Bytes) → AllBytes texts → Agrees (λ p. get_or texts p []) 0 texts
Agrees-all texts b =
    Agrees-from (λ p. get_or texts p []) texts 0 (λ p. ap (λ i. get_or texts i []) (omega arith)) b

-- What the writer leaves behind: the blocks of both levels, or no coarse ones.
pub record Wrote (b s : ℕ) (texts : List Bytes) (fine coarse : List SearchBlock) : Type 0 where
  pub fine_covers : Covered (λ p. get_or texts p []) b (length texts) fine
  pub coarse_covers : s ≢ 0 → Covered (λ p. get_or texts p []) s (length texts) coarse
  pub coarse_empty : s ≡ 0 → coarse ≡ []

Covered-count :
    (text : ℕ → Bytes) (limit total : ℕ) (blocks : List SearchBlock)
    → 0 < limit
    → Covered text limit total blocks
    → length blocks ≡ block_count total limit
Covered-count text limit total blocks pos c =
    block_count-eq total limit (length blocks) pos c.enough c.tight

count_check :
    (found : List SearchBlock × List SearchBlock) (m n k l : ℕ)
    → m ≡ n
    → k ≡ l
    → (if not (m == n) || not (k == l) then none else some found) ≡ some found
count_check found m n k l p q = rw (p, q, (==_iff n n).1 refl, (==_iff l l).1 refl)

module _ (b s : ℕ) (texts : List Bytes) (pos : 0 < b) (small : b < 2 ^ 16)
    (coarse_small : s < 2 ^ 16) (few : length texts < 2 ^ 32) (bytes : AllBytes texts) where
  abbrev text : ℕ → Bytes
  text p = get_or texts p []

  abbrev blocks : Blocks
  blocks = blocks_loop b s (length texts) 0 texts (record { fine = no_blocks; coarse = no_blocks })

  fine_Covered : Covered text b (length texts) blocks.fine.written
  fine_Covered =
      rw blocks_loop-fine (
        level_loop-no_blocks text b (length texts) pos small few texts refl
          (Agrees-all texts bytes))

  coarse_Covered : s ≢ 0 → Covered text s (length texts) blocks.coarse.written
  coarse_Covered ne = rw (blocks_loop-coarse b s (length texts) 0 texts _ (ground arith)) (
      level_loop-no_blocks text s (length texts) (ground arith) coarse_small few texts refl
        (Agrees-all texts bytes))

  coarse_none : s ≡ 0 → blocks.coarse.written ≡ []
  coarse_none e = rw (e, blocks_loop-no_coarse)

  coarse_count : length blocks.coarse.written ≡ (if s == 0 then 0 else block_count (length texts) s)
  coarse_count = elim (ℕ_discrete s 0) [
    | yes e ↦ ground (arith, ap length (coarse_none e))
    | no ne ↦
        ground (arith, Covered-count text s (length texts) _ (ground arith) (coarse_Covered ne))
  ]

  -- With fewer than 2 ^ 32 search texts, all byte strings, limits below 2 ^ 16, the fine one not 0,
  -- and the block counts that the header announces, `write_search_blocks` does not throw, and the
  -- blocks it writes, those of a coarse level only where its limit is not 0, partition the packages
  -- and cover their texts.
  pub write_search_blocks-Wrote :
      (fine coarse : List SearchBlock) × (write_search_blocks b s
          (block_count (length texts) b)
          (if s == 0 then 0 else block_count (length texts) s)
          texts
        ≡ some (fine, coarse))
      × Wrote b s texts fine coarse
  unfolding write_search_blocks
  write_search_blocks-Wrote =
      let fine_count = Covered-count text b (length texts) _ pos fine_Covered in
      (
        blocks.fine.written,
        blocks.coarse.written,
        count_check (blocks.fine.written, blocks.coarse.written) _ _ _ _ fine_count coarse_count,
        record {
          fine_covers = fine_Covered;
          coarse_covers = coarse_Covered;
          coarse_empty = coarse_none;
        },
      )
