-- ===== src/Policy/Std.antt =====
-- What policy evaluation uses of Go's `strings`, `strconv`, `time` and `net` packages on texts that
-- the model does not read any further: folding of letter case, floating-point numbers, dates and
-- IP addresses. No law of them is needed, so none is assumed.
use opens.Prelude.{Bool, Option, Bytes}

pub record Std : Type 1 where
  -- strings.ToLower, strings.EqualFold
  pub to_lower : Bytes → Bytes
  pub equal_fold : Bytes → Bytes → Bool
  -- strconv.ParseFloat(s, 64), and ==, <, <= on float64 (x > y is y < x there)
  pub Float : Type 0
  pub parse_float : Bytes → Option Float
  pub float_eq : Float → Float → Bool
  pub float_lt : Float → Float → Bool
  pub float_le : Float → Float → Bool
  -- time.Parse(time.RFC3339, s); strconv.ParseInt(s, 10, 64) followed by time.Unix(n, 0)
  pub Time : Type 0
  pub parse_rfc3339 : Bytes → Option Time
  pub parse_unix : Bytes → Option Time
  pub time_equal : Time → Time → Bool
  pub before : Time → Time → Bool
  -- net.ParseIP, ip.To4() != nil, net.ParseCIDR, n.Contains(ip)
  pub Ip : Type 0
  pub Net : Type 0
  pub parse_ip : Bytes → Option Ip
  pub is_v4 : Ip → Bool
  pub parse_cidr : Bytes → Option Net
  pub contains : Net → Ip → Bool
