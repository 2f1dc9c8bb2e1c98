-- ===== src/Entry/MappingFlags.antt =====
-- page_table_entry/src/lib.rs: the constants of `MappingFlags`.
use page_table_multiarch.Common.{ℕ}

abbrev pub read : ℕ
read = 0b1

abbrev pub write : ℕ
write = 0b10

abbrev pub execute : ℕ
execute = 0b100

abbrev pub user : ℕ
user = 0b1000

abbrev pub device : ℕ
device = 0b10000

abbrev pub uncached : ℕ
uncached = 0b100000

-- The union of all constants is `flag_values - 1`.
abbrev pub flag_values : ℕ
flag_values = 64
