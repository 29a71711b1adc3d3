-- ===== src/Domain/Instants.antt =====
-- Instants, durations and identifiers, as the domain types use them.
use wordbit_advanced.Prelude.{
  ℕ, ◌+◌, ◌-◌, ◌*◌, ◌/◌, ◌%◌, ◌^◌, Bool, false, Option, none, some, ltb, nat_beq, ℤ, pos, negsuc,
}

-- `time.Time` as the nanoseconds since Go's zero time, the first instant of the year 1.
abbrev pub Time : Type 0
Time = ℕ

abbrev pub second : ℕ
second = 1_000_000_000

abbrev pub minute : ℕ
minute = 60 * second

abbrev pub hour : ℕ
hour = 60 * minute

-- `t.Unix()`, for a time from 1970 on
abbrev pub unix_seconds : Time → ℕ
unix_seconds t = t / second - 62_135_596_800

abbrev pub before : Time → Time → Bool
before a b = ltb a b

abbrev pub after : Time → Time → Bool
after a b = ltb b a

-- `t.IsZero()`
abbrev pub is_zero : Time → Bool
is_zero t = nat_beq t 0

-- `t.Add(time.Duration(n) * time.Second)`, for a result that is not before the zero time.
abbrev pub add_seconds : Time → ℤ → Time
add_seconds t (pos n) = t + n * second
add_seconds t (negsuc n) = t - (n + 1) * second

-- `due != nil && due.After(now)`
abbrev pub is_future : Option Time → Time → Bool
is_future none now = false
is_future (some t) now = after t now

-- `uuid.UUID`, sixteen bytes, as the number that they spell from the first byte on.
abbrev pub Uuid : Type 0
Uuid = ℕ

-- `uuid.Nil`
abbrev pub nil_uuid : Uuid
nil_uuid = 0

-- `id[k]`, for `k` below 16
abbrev pub byte_at : Uuid → ℕ → ℕ
byte_at id k = id / 256 ^ (15 - k) % 256
