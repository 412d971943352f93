-- ===== src/Harness/Settings/Precedence.antt =====
-- Which layer of the configuration a setting comes from (`scenario_config` of src/main.py).
use blockchain_application.Prelude.{
  ◌≡◌, refl, String, Option, none, some, [], ◌∷◌, arith, keep, if◌then◌else◌, string_eq, Bool-cases,
  inl, inr,
}
use blockchain_application.Prelude.Dict
use blockchain_application.Prelude.Dict.{Dict, NodupKeys, lookup-insert}
use blockchain_application.Harness.Settings.{
  Value, Settings, builtin_defaults, is_setting, update, overlay, scenario_config,
}

abbrev pub or_else : Option Value → Option Value → Option Value
or_else none o = o
or_else (some v) o = some v

-- What a block says of a setting; comments are no settings.
abbrev pub set_by : Settings → String → Option Value
set_by block k = if is_setting k then Dict.lookup k block else none

abbrev settings_of : Settings → Settings
settings_of block = keep (λ (k, _). is_setting k) block

lookup-keep : (block : Settings) (k : String) → Dict.lookup k (settings_of block) ≡ set_by block k
unfolding Dict.lookup
lookup-keep [] k = ground arith
lookup-keep ((j, v) ∷ block) k = ground (arith, lookup-keep block k)

keep-NodupKeys : (block : Settings) → NodupKeys block → NodupKeys (settings_of block)
keep-NodupKeys [] once = tt
keep-NodupKeys ((j, v) ∷ block) (new, once) = elim (Bool-cases (is_setting j)) [
  | inl kept ↦ rw kept (ground (arith, lookup-keep block j), keep-NodupKeys block once)
  | inr skipped ↦ rw skipped (keep-NodupKeys block once)
]

lookup-update :
    (cfg block : Settings) (k : String)
    → NodupKeys block
    → Dict.lookup k (update cfg block) ≡ or_else (Dict.lookup k block) (Dict.lookup k cfg)
unfolding update Dict.lookup
lookup-update cfg [] k once = refl
lookup-update cfg ((j, v) ∷ block) k (new, once) =
    ground (arith, lookup-update (Dict.insert j v cfg) block k once, lookup-insert k j v cfg)

lookup-overlay :
    (name : String) (raw : Dict String Settings) (cfg : Settings) (k : String)
    → NodupKeys (Dict.get_or name [] raw)
    → Dict.lookup k (overlay name raw cfg)
      ≡ or_else (set_by (Dict.get_or name [] raw) k) (Dict.lookup k cfg)
unfolding overlay
lookup-overlay name raw cfg k once =
    let block = Dict.get_or name [] raw in
    rw (lookup-update cfg (settings_of block) k (keep-NodupKeys block once), lookup-keep block k)
      refl

-- Take a configuration file whose blocks name no setting twice. A scenario's setting is that of its
-- own block; else that of the block `default`; else the built-in one. A name that begins with an
-- underscore counts in neither block.
pub scenario_config-lookup :
    (raw : Dict String Settings) (name k : String)
    → NodupKeys (Dict.get_or name [] raw)
    → NodupKeys (Dict.get_or "default" [] raw)
    → Dict.lookup k (scenario_config (some raw) name)
      ≡ or_else
          (set_by (Dict.get_or name [] raw) k)
          (or_else (set_by (Dict.get_or "default" [] raw) k) (Dict.lookup k builtin_defaults))
unfolding scenario_config
scenario_config-lookup raw name k own default =
    rw
      (
        lookup-overlay name raw (overlay "default" raw builtin_defaults) k own,
        lookup-overlay "default" raw builtin_defaults k default,
      )
      refl
