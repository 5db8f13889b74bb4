-- ===== src/Ipv4Filter/Config.antt =====
-- `AppConfig` of services/ipv4_filter/config/config.h; `getenv` is the environment of the process. The
-- list of filters, which `main` sets afterwards, is left out.
pub mod Refused
use two_services.Base.{ℕ, ◌-◌, ◌%◌, ◌^◌, String, Bool, true, false, Option, none, some}
use two_services.Base.Decimal.{read_digits}
use two_services.Ipv4Filter.Cli.Filter.{skip_white, read_sign}

pub record AppConfig : Type 0 where
  pub service_name : String
  pub server_address : String
  pub server_port : ℕ

abbrev pub value_or : {A : Type 0} → A → Option A → A
value_or default none = default
value_or default (some a) = a

-- an int as it is converted to uint16_t
abbrev pub int_to_uint16 : Bool → ℕ → ℕ
int_to_uint16 false n = n % 2 ^ 16
int_to_uint16 true n = (2 ^ 16 - n % 2 ^ 16) % 2 ^ 16

-- `atoi`, on a text whose number fits an int; no digits are 0
unfoldable pub port_of : String → ℕ
unfolding skip_white
port_of text =
    let (minus, digits) = read_sign (skip_white text) in
    int_to_uint16 minus (read_digits 0 digits).0

abbrev pub port_or_default : Option String → ℕ
port_or_default none = 50_051
port_or_default (some text) = port_of text

unfoldable pub app_config : (String → Option String) → AppConfig
unfolding port_of
app_config getenv = record {
  service_name = value_or "ipv4_filter" (getenv "POSTGRES_HOST");
  server_address = value_or "history-server" (getenv "SERVER_ADDRESS");
  server_port = port_or_default (getenv "SERVER_PORT");
}
