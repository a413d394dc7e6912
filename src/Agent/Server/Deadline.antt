-- ===== src/Agent/Server/Deadline.antt =====
-- `withTotalTimeout`, `withStorageRatesTotalTimeout` and `withStorageInfoTotalTimeout` of
-- agent/internal/grpcserver. A context is its deadline, if it has one; times are in nanoseconds.
-- The clock is read twice: `now` for `time.Until`, and `later` in `context.WithTimeout`.
pub mod Bounds
use mytonprovider_backend.Prelude.{
  ℕ, ◌*◌, ℤ, pos, ◌+ℤ◌, ◌-ℤ◌, ltb_ℤ, is_positive, Bool, not, Option, none, some, ◌==◌,
  if◌then◌else◌,
}
use mytonprovider_backend.RunChecks.Request.{CheckTimeouts}

pub record StorageRatesTimeouts : Type 0 where
  pub query_timeout_ms : ℕ
  pub total_ms : ℕ

pub record StorageInfoTimeouts : Type 0 where
  pub query_timeout_ms : ℕ
  pub total_ms : ℕ

-- `context.WithTimeout(ctx, d)`: the earlier of the two deadlines.
pub with_timeout : Option ℤ → ℤ → ℤ → ℤ
with_timeout none later d = later +ℤ d
with_timeout (some deadline) later d = if ltb_ℤ deadline (later +ℤ d) then deadline else later +ℤ d

-- `if remaining < d { d = remaining }`
pub shorter : ℤ → ℤ → ℤ
shorter remaining d = if ltb_ℤ remaining d then remaining else d

-- The part of the functions that follows the first test.
pub with_duration : Option ℤ → ℤ → ℤ → ℤ → ℤ
with_duration none now later d = with_timeout none later d
with_duration (some deadline) now later d =
    let remaining = deadline -ℤ now in
    if not (is_positive remaining)
    then deadline
    else with_timeout (some deadline) later (shorter remaining d)

pub with_total_ms : Option ℤ → ℤ → ℤ → ℕ → Option ℤ
with_total_ms ctx now later total_ms =
    if total_ms == 0 then ctx else some (with_duration ctx now later (pos (total_ms * 1_000_000)))

pub with_total_timeout : Option ℤ → ℤ → ℤ → Option CheckTimeouts → Option ℤ
with_total_timeout ctx now later none = ctx
with_total_timeout ctx now later (some timeouts) = with_total_ms ctx now later timeouts.total_ms

pub with_storage_rates_total_timeout : Option ℤ → ℤ → ℤ → Option StorageRatesTimeouts → Option ℤ
with_storage_rates_total_timeout ctx now later none = ctx
with_storage_rates_total_timeout ctx now later (some timeouts) =
    with_total_ms ctx now later timeouts.total_ms

pub with_storage_info_total_timeout : Option ℤ → ℤ → ℤ → Option StorageInfoTimeouts → Option ℤ
with_storage_info_total_timeout ctx now later none = ctx
with_storage_info_total_timeout ctx now later (some timeouts) =
    with_total_ms ctx now later timeouts.total_ms
