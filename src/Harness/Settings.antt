-- ===== src/Harness/Settings.antt =====
-- `scenario_config` and `network_config_from` of src/main.py. A number in a setting is in
-- billionths: times are then nanoseconds, and counts are whole multiples of a billion.
pub mod Precedence
use Prim.Native.Char.{code}
use blockchain_application.Prelude.{
  ℕ, ◌/◌, String, Bool, true, Option, none, some, List, [], ◌∷◌, not, keep, contains, ◌==◌,
  string_eq, nat_eq,
}
use blockchain_application.Prelude.Dict
use blockchain_application.Prelude.Dict.{Dict}
use blockchain_application.Network.Types.{NetworkConfig}
use blockchain_application.Network.{billion}

-- What a setting can hold.
pub data Value : Type 0 where
  num : ℕ → Value
  flag : Bool → Value
  series : List ℕ → Value

abbrev pub Settings : Type 0
Settings = Dict String Value

-- `_BUILTIN_DEFAULTS`
abbrev pub builtin_defaults : Settings
builtin_defaults =
    ("num_nodes", num 8_000_000_000)
    ∷ ("bounded_delay", num 20_000_000)
    ∷ ("min_delay", num 10_000_000)
    ∷ ("max_delay", num 150_000_000)
    ∷ ("drop_rate", num 0)
    ∷ ("duplicate_rate", num 0)
    ∷ ("rate_limit", num 0)
    ∷ ("rate_window", num 1_000_000_000)
    ∷ ("block_duration", num 1_000_000_000)
    ∷ ("duration", num 4_000_000_000)
    ∷ []

-- `not k.startswith("_")`
unfoldable pub is_setting : String → Bool
unfolding nat_eq
is_setting String.[] = true
is_setting (String.◌∷◌ c s) = not (code c == b'_')

-- `cfg.update(block)`
unfoldable pub update : Settings → Settings → Settings
update cfg [] = cfg
update cfg ((k, v) ∷ block) = update (Dict.insert k v cfg) block

-- A block of the file less its comments, as it overlays the settings before it.
unfoldable pub overlay : String → Dict String Settings → Settings → Settings
unfolding update
overlay name raw cfg = update cfg (keep (λ (k, _). is_setting k) (Dict.get_or name [] raw))

-- The file's content is `none` when it is missing or is no JSON; its blocks are objects.
unfoldable pub scenario_config : Option (Dict String Settings) → String → Settings
unfolding overlay
scenario_config none name = builtin_defaults
scenario_config (some raw) name = overlay name raw (overlay "default" raw builtin_defaults)

-- The parameters of `NetworkConfig`.
abbrev pub fields : List String
fields =
    "min_delay" ∷ "max_delay" ∷ "drop_rate" ∷ "duplicate_rate" ∷ "stabilized" ∷ "bounded_delay"
    ∷ "rate_limit" ∷ "rate_window" ∷ "block_duration" ∷ "reorder_list" ∷ []

-- A keyword argument, or the default. A value of another type, which Python would store as it is, is not modelled.
abbrev pub num_or : ℕ → Option Value → ℕ
num_or d (some (num n)) = n
num_or d _ = d

abbrev pub flag_or : Bool → Option Value → Bool
flag_or d (some (flag b)) = b
flag_or d _ = d

abbrev pub series_or : List ℕ → Option Value → List ℕ
series_or d (some (series ns)) = ns
series_or d _ = d

-- `NetworkConfig(**kwargs)`, with the defaults of the dataclass.
unfoldable pub config_of : Settings → NetworkConfig
config_of kwargs = record {
  min_delay = num_or 10_000_000 (Dict.lookup "min_delay" kwargs);
  max_delay = num_or 150_000_000 (Dict.lookup "max_delay" kwargs);
  drop_rate = num_or 0 (Dict.lookup "drop_rate" kwargs);
  duplicate_rate = num_or 0 (Dict.lookup "duplicate_rate" kwargs);
  reorder_list = series_or [] (Dict.lookup "reorder_list" kwargs);
  stabilized = flag_or true (Dict.lookup "stabilized" kwargs);
  bounded_delay = num_or 50_000_000 (Dict.lookup "bounded_delay" kwargs);
  rate_limit = num_or 0 (Dict.lookup "rate_limit" kwargs) / billion;
  rate_window = num_or 1_000_000_000 (Dict.lookup "rate_window" kwargs);
  block_duration = num_or 1_000_000_000 (Dict.lookup "block_duration" kwargs);
}

unfoldable pub network_config_from : Settings → Settings → NetworkConfig
unfolding update config_of
network_config_from cfg overrides =
    config_of (update (keep (λ (k, _). contains fields k) cfg) overrides)
