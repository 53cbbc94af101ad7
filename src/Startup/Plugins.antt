-- ===== src/Startup/Plugins.antt =====
-- The plugins of the server (main of cmd/lightspeed-chat/main.go): their names from the paths of the
-- command line, and their configuration. Starting the programs is a parameter.
use lightspeed_chat.Base.{
  ℕ, ◌-◌, Text, codes, Dict, Bool, false, ◌≡◌, Option, none, some, List, [], ◌∷◌, ◌++◌, take, drop,
  length, if◌then◌else◌, ltb, ◌==◌, text_eq, has_prefix, insert, lookup, lookup-insert, Run,
  returns, panics, ◌>>=◌, Ensures, Ensures-bind, Ensures-if, Ensures-option, ◌∙◌,
}
use lightspeed_chat.Strings.{is_empty}
use lightspeed_chat.PluginChain.{PluginSpec}

-- What follows the last slash, and the text without the slashes at its end.
unfoldable pub last_part : Text → Text → Text
last_part part [] = part
last_part part (c ∷ path) = last_part (if c == 47 then [] else part ++ (c ∷ [])) path

abbrev pub snoc_unless_slash : ℕ → Text → Text
snoc_unless_slash c [] = if c == 47 then [] else c ∷ []
snoc_unless_slash c (d ∷ rest) = c ∷ d ∷ rest

unfoldable pub without_slashes : Text → Text
without_slashes [] = []
without_slashes (c ∷ path) = snoc_unless_slash c (without_slashes path)

-- `filepath.Base`, on Unix
unfoldable pub base : Text → Text
unfolding last_part without_slashes
base [] = codes "."
base (c ∷ path) =
    let part = last_part [] (without_slashes (c ∷ path)) in
    if is_empty part then codes "/" else part

abbrev pub has_suffix : Text → Text → Bool
has_suffix s p =
    if ltb (length s) (length p) then false else text_eq (drop (length s - length p) s) p

abbrev pub trim_start : Text → Text → Text
trim_start p s = if has_prefix s p then drop (length p) s else s

abbrev pub trim_end : Text → Text → Text
trim_end p s = if has_suffix s p then take (length s - length p) s else s

-- The name of the plugin at a path; `to_lower` is `strings.ToLower`.
unfoldable pub plugin_name : (Text → Text) → Text → Text
unfolding base
plugin_name to_lower path =
    to_lower (trim_end (codes "-plugin") (trim_start (codes "lightspeed-chat-") (base path)))

-- A PluginConfig, with the settings that are passed on.
pub record PluginConfig (V : Type 0) : Type 0 where
  pub name : Text
  pub raw : V

-- `configure` is the plugin's Configure, none for an error; `dispense` starts the plugin, none where the
-- program ends with exit code 1.
module _ {P V : Type 0} (to_lower : Text → Text) (dispense : Text → Option P)
    (configure : P → V → Option (Text × Text)) where
  abbrev pub bare_spec : PluginSpec
  bare_spec = record { cron_spec = []; event_filter = [] }

  abbrev pub configured : Option (Text × Text) → Run PluginSpec
  configured none = panics
  configured (some (cron_spec, event_filter)) =
      returns (record { cron_spec = cron_spec; event_filter = event_filter })

  -- The first configuration of the name counts.
  unfoldable pub find_spec : Text → P → List (PluginConfig V) → Run PluginSpec
  find_spec name plugin [] = returns bare_spec
  find_spec name plugin (cfg ∷ cfgs) =
      if text_eq cfg.name name
      then configured (configure plugin cfg.raw)
      else find_spec name plugin cfgs

  -- A plugin is loaded unless its name is that of the main program.
  unfoldable pub load_plugin :
      List (PluginConfig V) → Text → P → Dict PluginSpec → Run (Dict PluginSpec)
  unfolding find_spec
  load_plugin cfgs name plugin plugins =
      if text_eq name (codes "main")
      then returns plugins
      else find_spec name plugin cfgs >>= λ spec. returns (insert name spec plugins)

  -- The loop over the paths; none where the program ends.
  unfoldable pub load_plugins :
      List (PluginConfig V) → List Text → Dict PluginSpec → Run (Option (Dict PluginSpec))
  unfolding load_plugin
  load_plugins cfgs [] plugins = returns (some plugins)
  load_plugins cfgs (path ∷ paths) plugins = elim (dispense path) [
    | none ↦ returns none
    | some plugin ↦ load_plugin cfgs (plugin_name to_lower path) plugin plugins >>= λ plugins'.
        load_plugins cfgs paths plugins'
  ]

  -- No plugin has the name of the main program.
  abbrev pub IsFree : Option (Dict PluginSpec) → Type 0
  IsFree none = Unit
  IsFree (some plugins) = lookup (codes "main") plugins ≡ none

  configured-Ends : (o : Option (Text × Text)) → Ensures (λ _. Unit {0}) (configured o)
  configured-Ends none = tt
  configured-Ends (some both) = tt

  find_spec-Ends :
      (name : Text) (plugin : P) (cfgs : List (PluginConfig V))
      → Ensures (λ _. Unit {0}) (find_spec name plugin cfgs)
  unfolding find_spec
  find_spec-Ends name plugin [] = tt
  find_spec-Ends name plugin (cfg ∷ cfgs) =
      Ensures-if (λ _. Unit {0}) (text_eq cfg.name name) _ _
        (λ _. configured-Ends (configure plugin cfg.raw)) (λ _. find_spec-Ends name plugin cfgs)

  load_plugin-IsFree :
      (cfgs : List (PluginConfig V)) (name : Text) (plugin : P) (plugins : Dict PluginSpec)
      → IsFree (some plugins)
      → Ensures (λ loaded. IsFree (some loaded)) (load_plugin cfgs name plugin plugins)
  unfolding load_plugin
  load_plugin-IsFree cfgs name plugin plugins h =
      Ensures-if (λ loaded. IsFree (some loaded)) (text_eq name (codes "main")) _ _ (λ _. h)
        (λ other.
          Ensures-bind (λ _. Unit {0}) (λ loaded. IsFree (some loaded)) (find_spec name plugin cfgs)
            _ (find_spec-Ends name plugin cfgs)
            (λ spec _. lookup-insert name (codes "main") spec plugins ∙ rw other h))

  -- Whatever the paths and the configuration, no plugin is loaded under the name of the main program.
  pub load_plugins-IsFree :
      (cfgs : List (PluginConfig V)) (paths : List Text) (plugins : Dict PluginSpec)
      → IsFree (some plugins)
      → Ensures IsFree (load_plugins cfgs paths plugins)
  unfolding load_plugins
  load_plugins-IsFree cfgs [] plugins h = h
  load_plugins-IsFree cfgs (path ∷ paths) plugins h =
      Ensures-option IsFree (dispense path) _ _ (λ _. tt)
        λ plugin _.
          Ensures-bind (λ loaded. IsFree (some loaded)) IsFree
            (load_plugin cfgs (plugin_name to_lower path) plugin plugins) _
            (load_plugin-IsFree cfgs (plugin_name to_lower path) plugin plugins h)
            (λ loaded free. load_plugins-IsFree cfgs paths loaded free)
