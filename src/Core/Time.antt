-- ===== src/Core/Time.antt =====
-- Python's `datetime` and `timedelta`, as the code uses them: an instant is the number of
-- microseconds since the epoch, in UTC.
use retail_os.Prelude.{ℕ, ◌*◌}

abbrev pub DateTime : Type 0
DateTime = ℕ

abbrev pub minutes : ℕ → ℕ
minutes n = n * 60000000

abbrev pub hours : ℕ → ℕ
hours n = n * 3600000000

abbrev pub days : ℕ → ℕ
days n = n * 86400000000
