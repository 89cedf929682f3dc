-- ===== src/Tests/Config.antt =====
-- The configuration: a file with a port and an address.
use oi_c.Prelude.{Bytes, equal, ℕ, ◌≡◌, refl, Bool, true, [], ◌∷◌, codes, ◌++◌, none, some}
use oi_c.Config.{
  Config, Opened, opened, load_file, load_env, init_defaults, set, parse_line, trim_start, trim_end,
}
use oi_c.Config.Line.{IsKey, IsValue, line, parse_line-set}
use oi_c.Config.Secret.{load_file-api_key}
use oi_c.Config.Ranges.{InRange, resolved-InRange}

abbrev all_granted : ℕ → Bool
all_granted n = true

abbrev settings : Config
settings = record {
  api_key = some (codes "secret");
  host = none;
  port = 443;
  use_tls = true;
  ca_file = none;
  path = none;
  model = none;
  timeout_ms = 60000;
}

abbrev file : Opened
file = opened (codes "port = 8080" ++ (10 ∷ (codes "api_key = x" ++ (10 ∷ []))))

load_file-api_key_example : (load_file all_granted settings file).1.api_key ≡ some (codes "secret")
load_file-api_key_example = load_file-api_key all_granted settings file

resolved-InRange_example :
    InRange
      (set all_granted
        (load_env all_granted
          (load_file all_granted (init_defaults all_granted).1 file).1
          (some (codes "secret"))).1
        (codes "timeout_ms")
        (codes "5000")).1
resolved-InRange_example =
    resolved-InRange all_granted file (some (codes "secret")) (codes "timeout_ms") (codes "5000")

abbrev port : Bytes
port = codes "port"

abbrev number : Bytes
number = codes "8080"

port-IsKey : IsKey 112 (codes "ort")
unfolding equal
port-IsKey = record { plain = (refl, (refl, (refl, (refl, tt)))); comment = refl; public = refl }

number-IsValue : IsValue number
unfolding trim_start trim_end
number-IsValue = record { whole = (refl, (refl, (refl, (refl, tt)))); start = refl; end = refl }

parse_line-set_example :
    parse_line all_granted settings (line port number) ≡ set all_granted settings port number
parse_line-set_example =
    parse_line-set all_granted settings 112 (codes "ort") number port-IsKey number-IsValue
