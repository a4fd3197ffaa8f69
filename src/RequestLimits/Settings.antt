-- ===== src/RequestLimits/Settings.antt =====
-- app/request_limits/settings.py LimitSettings, with the checks of its constructor. Times are whole
-- microseconds; the length of the secret stands for the secret.
use job_ping.RequestLimits.TokenBucket.{Rate}
use job_ping.RequestLimits.Policies.{Family, default_policies}
use job_ping.Base.{ℕ, Bool, ◌&&◌, ◌||◌, ltb, leb, ◌==◌, discrete_eq, Eq, nat_eq}

pub data Mode : Type 0 where
  off : Mode
  shadow : Mode
  enforce : Mode

unfoldable pub Mode-discrete : Discrete Mode
Mode-discrete = hlevel

instance abbrev pub mode_eq : Eq Mode
mode_eq = discrete_eq Mode-discrete

pub record LimitSettings : Type 0 where
  pub mode : Mode
  pub secret_bytes : ℕ
  pub policies : Family → Rate
  pub timeout : ℕ
  pub streams_per_ip : ℕ
  pub streams_total : ℕ
  pub lease_seconds : ℕ
  pub cache_seconds : ℕ
  pub http_concurrency : ℕ

-- LimitSettings.__post_init__
unfoldable pub is_valid_settings : LimitSettings → Bool
is_valid_settings s =
    (s.mode == Mode.off || leb 32 s.secret_bytes)
    && ltb 0 s.timeout
    && leb s.timeout 5000000
    && leb 1 s.streams_per_ip
    && leb s.streams_per_ip 10000
    && leb 1 s.streams_total
    && leb s.streams_total 100000
    && leb 6 s.lease_seconds
    && leb s.lease_seconds 300
    && leb s.cache_seconds 60
    && leb 1 s.http_concurrency
    && leb s.http_concurrency 1000

abbrev pub default_settings : LimitSettings
default_settings = record {
  mode = Mode.off;
  secret_bytes = 0;
  policies = default_policies;
  timeout = 250000;
  streams_per_ip = 20;
  streams_total = 200;
  lease_seconds = 60;
  cache_seconds = 30;
  http_concurrency = 32;
}
