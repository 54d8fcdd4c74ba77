-- ===== src/Tests/Config.antt =====
-- Runs of the configuration.
use scalp_bot_os.Base.{◌≡◌, refl, Option, none, some, Text, bytes, text_eq, if◌then◌else◌, lit}
use scalp_bot_os.Base.Fixed.{Fixed, fixed_float}
use scalp_bot_os.Config.{Config}
use scalp_bot_os.Config.Load.{
  Loading, ConfigError, Invalid, default_config, validate, apply_env_overrides, load_config,
}
use scalp_bot_os.Config.Checks.{Tells, load_config-Tells}

abbrev path : Text
path = bytes "config.yaml"

abbrev read_file : Text → Option Text
read_file p = if text_eq p path then some (bytes "{}") else none

abbrev getenv : Text → Text
getenv key = if text_eq key (bytes "SCALP_SYMBOL") then bytes "EURUSD" else bytes ""

-- An empty file leaves the defaults.
abbrev unmarshal : Text → Config Fixed → Option (Config Fixed)
unmarshal content c = some c

abbrev config : Config Fixed
config = apply_env_overrides getenv default_config

loads : load_config read_file getenv unmarshal path ≡ Loading.loaded config
unfolding load_config validate apply_env_overrides default_config
loads = refl

load_config-Tells_example :
    Tells {F = Fixed} read_file getenv unmarshal path (load_config read_file getenv unmarshal path)
load_config-Tells_example = load_config-Tells read_file getenv unmarshal path

-- A risk above a tenth is refused.
refuses :
    load_config {F = Fixed} read_file getenv
      (λ content c. some (record c { risk = record c.risk { risk_per_trade = lit 1 } }))
      path
    ≡ Loading.failed (ConfigError.validation_failed Invalid.risk_out_of_range)
unfolding load_config validate apply_env_overrides default_config
refuses = refl
