-- ===== src/Effect/Errors.antt =====
-- Go's error values, as far as the workers tell them apart.
use emailservice_worker.Prelude.{◌≡◌, ◌≢◌, refl, String, Bool, true, false}
use Prim.Native.String.{◌++◌}

pub data Error : Type 0 where
  -- an error known by its text alone
  text : String → Error
  -- a `smithy.APIError`: its code and its text
  api : String → String → Error
  -- `redis.ErrLockNotAcquired`
  lock_not_acquired : Error
  -- `ratelimit.ErrRateLimitExceeded`, with the wait as text
  rate_limit_exceeded : String → Error
  -- `fmt.Errorf("prefix: %w", err)`
  wrap : String → Error → Error
  -- the model's own: a loop has used up its fuel
  out_of_fuel : Error

pub data Result (A : Type 0) : Type 0 where
  ok : A → Result A
  err : Error → Result A

abbrev pub is_out_of_fuel : Error → Bool
is_out_of_fuel out_of_fuel = true
is_out_of_fuel _ = false

pub not-is_out_of_fuel : (x : Error) → x ≢ out_of_fuel → is_out_of_fuel x ≡ false
not-is_out_of_fuel (text s) h = refl
not-is_out_of_fuel (api c s) h = refl
not-is_out_of_fuel lock_not_acquired h = refl
not-is_out_of_fuel (rate_limit_exceeded s) h = refl
not-is_out_of_fuel (wrap s x) h = refl
not-is_out_of_fuel out_of_fuel h = absurd (h refl)

-- `err.Error()`
unfoldable pub message : Error → String
message (text s) = s
message (api code s) = s
message lock_not_acquired = "lock not acquired"
message (rate_limit_exceeded wait) = "rate limit exceeded: would wait " ++ wait
message (wrap prefix e) = prefix ++ ": " ++ message e
message out_of_fuel = ""
