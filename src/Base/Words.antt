-- ===== src/Base/Words.antt =====
-- Machine integers. A `u64` or `u32` is its value. An `i64` is held in offset binary: the number n
-- stands for n - 2^63, so that the order of the numbers is the order of the integers.
use Prim.Native.Nat.{ℕ, ◌+◌, ◌-◌, ◌/◌, ◌^◌, ◌<◌, ◌≤◌}
use mathlib.Core.Path.{◌≡◌}
use mathlib.Core.Option.{Option, none, some}
use native.Mathlib.Omega.{arith}
use mathlib.Core.Bool.{◌&&◌}
use herdr_a2a.Base.Tests.{ltb, leb, if◌then◌else◌}

abbrev pub i64_zero : ℕ
i64_zero = 2 ^ 63

abbrev pub i64_end : ℕ
i64_end = 2 ^ 64

abbrev pub u64_max : ℕ
u64_max = 2 ^ 64 - 1

abbrev pub u32_max : ℕ
u32_max = 2 ^ 32 - 1

-- `t.checked_add(d)` on `i64`, for a duration d of zero or more
unfoldable pub i64_add : ℕ → ℕ → Option ℕ
i64_add t d = if ltb (t + d) i64_end then some (t + d) else none

-- `t.checked_sub(d)` on `i64`, for a duration d of zero or more
unfoldable pub i64_sub : ℕ → ℕ → Option ℕ
i64_sub t d = if leb d t then some (t - d) else none

-- `i64::try_from(n)` of a `u64` or `u32`
unfoldable pub i64_of : ℕ → Option ℕ
i64_of n = if ltb n i64_zero then some (n + i64_zero) else none

-- `u64::try_from(n)` of an `i64`
unfoldable pub u64_of : ℕ → Option ℕ
u64_of n = if leb i64_zero n then some (n - i64_zero) else none

-- `u32::try_from(n)` of an `i64`
unfoldable pub u32_of : ℕ → Option ℕ
u32_of n = if leb i64_zero n && leb (n - i64_zero) u32_max then some (n - i64_zero) else none

-- `n.checked_add(1)` on `u64`
unfoldable pub u64_succ : ℕ → Option ℕ
u64_succ n = if ltb n u64_max then some (n + 1) else none

-- `n.checked_add(1)` on `u32`
unfoldable pub u32_succ : ℕ → Option ℕ
u32_succ n = if ltb n u32_max then some (n + 1) else none

-- `t.div_euclid(1_000)` on `i64`: the offset is 1_000 * 9223372036854776 - 192
unfoldable pub i64_seconds : ℕ → ℕ
i64_seconds t = (t + 192) / 1000 + i64_zero - 9223372036854776

pub i64_add-some : (t d : ℕ) {s : ℕ} → i64_add t d ≡ some s → s ≡ t + d
unfolding i64_add
i64_add-some t d h = ground arith

pub i64_add-fits : (t d : ℕ) {s : ℕ} → i64_add t d ≡ some s → s < i64_end
unfolding i64_add
i64_add-fits t d h = ground arith

pub i64_add_in_range : (t d : ℕ) → t + d < i64_end → i64_add t d ≡ some (t + d)
unfolding i64_add
i64_add_in_range t d h = ground arith

pub u64_succ-some : (n : ℕ) {s : ℕ} → u64_succ n ≡ some s → s ≡ n + 1
unfolding u64_succ
u64_succ-some n h = ground arith

pub u64_succ_in_range : (n : ℕ) → n < u64_max → u64_succ n ≡ some (n + 1)
unfolding u64_succ
u64_succ_in_range n h = ground arith

pub u32_succ-some : (n : ℕ) {s : ℕ} → u32_succ n ≡ some s → s ≡ n + 1
unfolding u32_succ
u32_succ-some n h = ground arith

pub u64_of-i64_of : (n : ℕ) {i : ℕ} → i64_of n ≡ some i → u64_of i ≡ some n
unfolding i64_of u64_of
u64_of-i64_of n h = ground arith

pub i64_of-some : (n : ℕ) {i : ℕ} → i64_of n ≡ some i → i ≡ n + i64_zero
unfolding i64_of
i64_of-some n h = ground arith

pub u32_of-offset : (n : ℕ) → n ≤ u32_max → u32_of (n + i64_zero) ≡ some n
unfolding u32_of
u32_of-offset n h = ground arith
