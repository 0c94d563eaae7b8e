-- ===== src/Bencode/Value.antt =====
-- What a bencoded text can hold, as a visitor that keeps everything sees it. An `i64` is its 64-bit
-- pattern, so that 2 ^ 64 - 1 stands for -1.
use rustorrent.Common.{ℕ, List}

mutual
  pub data Value : Type 0 where
    int : ℕ → Value
    bytes : List ℕ → Value
    list : Values → Value
    dict : Entries → Value

  pub data Values : Type 0 where
    nil : Values
    cons : Value → Values → Values

  pub data Entries : Type 0 where
    end : Entries
    entry : (key value : Value) → Entries → Entries
