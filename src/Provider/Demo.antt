-- ===== src/Provider/Demo.antt =====
-- A provider for the tests, with a quota of five requests, and tenths in place of float64.
use go_block_walk.Prelude.{◌*◌, ◌/◌, ◌^◌, true, false, none, [], Text, codes}
use go_block_walk.Prelude.Int.{ℤ, pos, pos_part, neg_part, ltb_ℤ, sub_ℕ, ◌*ℤ◌, ◌+ℤ◌, ◌-ℤ◌}
use go_block_walk.Prelude.Float.{Float64}
use go_block_walk.Provider.{DialFunc, Provider, ProviderConfig, new_provider}

-- Tenths in place of float64.
abbrev pub tenths : Float64 ℤ
tenths = record {
  from_int = λ n. n *ℤ pos 10;
  pow_2 = λ n. pos (10 * 2 ^ n);
  times = λ x y. sub_ℕ (pos_part (x *ℤ y) / 10) (neg_part (x *ℤ y) / 10);
  plus = λ x y. x +ℤ y;
  minus = λ x y. x -ℤ y;
  above = λ x y. ltb_ℤ y x;
  half = pos 5;
  tenth = pos 1;
  fifth = pos 2;
  to_duration = λ x. sub_ℕ (pos_part x / 10) (neg_part x / 10);
}

abbrev pub config : Text → ℤ → ProviderConfig ℤ
config name priority = record {
  name = name;
  url = codes "http://a";
  api_key = [];
  priority = priority;
  quota = record { limit = pos 5; period = pos 100; credits = none };
  rate_limit = record { enabled = true; rps = pos 100; burst = pos 1 };
  circuit_breaker = record {
    enabled = true;
    threshold = pos 3;
    timeout = pos 10;
    half_open_max_calls = pos 1;
    filter_errors = [];
  };
  retry = record {
    max_attempts = pos 3;
    base_delay = pos 1000000;
    max_delay = pos 0;
    jitter = false;
  };
  request_timeout = pos 7;
  dial = none;
  max_log_block_range = pos 0;
}

abbrev pub dial : DialFunc
dial url = (true, none)

abbrev pub provider : Provider ℤ
provider = new_provider tenths dial (config (codes "a") (pos 1)) (pos 0)
