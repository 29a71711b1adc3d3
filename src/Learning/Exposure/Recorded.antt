-- ===== src/Learning/Exposure/Recorded.antt =====
-- SubmitFirstExposure: a word is exposed once.
use wordbit_advanced.Prelude.{nat_eq}
use wordbit_advanced.Float64.{Float64}
use wordbit_advanced.Learning.Store.{Store}
