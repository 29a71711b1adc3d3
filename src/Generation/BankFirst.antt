-- ===== src/Generation/BankFirst.antt =====
-- generateNewWordsWithSource: where the database has enough words, a day gets the first of them.
use wordbit_advanced.Prelude.{List, nat_eq}
use wordbit_advanced.Float64.{Float64}
