-- ===== src/Config/Tests.antt =====
-- The theorems on the configuration at concrete values, with simple codecs in place of strconv and
-- encoding/json: a number is a sign and one digit of any size, each text of a list ends with 0.
use osante_ai_proxy.Base.{
  ℕ, zero, suc, true, false, Option, none, some, List, [], ◌∷◌, Text, text, is_empty, ◌≡◌, ◌≢◌, ◌↔◌,
  refl, ap, All, ◌∙◌, same,
}
use osante_ai_proxy.Config.Types.{ℤ, pos, negsuc, Config, default_config, is_zero}
use osante_ai_proxy.Config.Codec.{is_int, Codec, IsCodec}
use osante_ai_proxy.Config.Store.{Faults, get_config}
use osante_ai_proxy.Config.Save.{save_to_storage}
use osante_ai_proxy.Config.Load.{load_from_storage}
use osante_ai_proxy.Config.Rules.{settle}
use osante_ai_proxy.Config.Reload.{IsSettled}
use osante_ai_proxy.Config.Rules.{validate, valid_port}
use osante_ai_proxy.Config.Checked.{FitsMode, IsCallable, settled, validate_lem}
use osante_ai_proxy.Config.Saved.{IsSettledEndpoint, load-save}

itoa : ℤ → Text
itoa (pos n) = b'+' ∷ n ∷ []
itoa (negsuc n) = n ∷ []

atoi : Text → Option ℤ
atoi (n ∷ []) = some (negsuc n)
atoi (_ ∷ n ∷ []) = some (pos n)
atoi _ = none

ended : Text → Text → Text
ended [] rest = 0 ∷ rest
ended (c ∷ d) rest = suc c ∷ ended d rest

join : List Text → Text
join [] = []
join (d ∷ ds) = ended d (join ds)

onto_first : ℕ → List Text → List Text
onto_first c [] = []
onto_first c (d ∷ ds) = (c ∷ d) ∷ ds

cut : Text → List Text
cut [] = []
cut (zero ∷ t) = [] ∷ cut t
cut (suc c ∷ t) = onto_first c (cut t)

cut-ended : (d rest : Text) → cut (ended d rest) ≡ d ∷ cut rest
unfolding cut ended onto_first
cut-ended [] rest = refl
cut-ended (c ∷ d) rest = ap (onto_first c) (cut-ended d rest)

cut-join : (ds : List Text) → cut (join ds) ≡ ds
unfolding cut join
cut-join [] = refl
cut-join (d ∷ ds) = cut-ended d (join ds) ∙ ap (λ r. d ∷ r) (cut-join ds)

unmarshal : Text → Option (List Text)
unmarshal [] = none
unmarshal (_ ∷ t) = some (cut t)

abbrev plain_codec : Codec
plain_codec = record {
  itoa = itoa;
  atoi = atoi;
  marshal_dirs = λ dirs. b'[' ∷ join dirs;
  unmarshal_dirs = unmarshal;
  are_utf8 = λ dirs. true;
  parse_url = λ t. none;
  clean_path = λ t. t;
}

reads_back : (n : ℤ) → atoi (itoa n) ≡ some n
unfolding atoi itoa
reads_back (pos n) = refl
reads_back (negsuc n) = refl

nonempty : (n : ℤ) → is_empty (itoa n) ≡ false
unfolding itoa is_empty
nonempty (pos n) = refl
nonempty (negsuc n) = refl

plain_codec-IsCodec : IsCodec plain_codec
unfolding unmarshal is_empty
plain_codec-IsCodec = record {
  reads_numbers = λ n _. reads_back n;
  numbers_nonempty = nonempty;
  reads_dirs = λ dirs _. ap some (cut-join dirs);
  dirs_nonempty = λ dirs. refl;
}

abbrev no_faults : Faults
no_faults = record {
  no_endpoints = false;
  endpoint_fails = λ name. false;
  get_fails = λ key. false;
  set_fails = λ key. false;
}

-- The default with every section set.
abbrev full_config : Config
full_config = record default_config {
  theme = text "dark";
  auto_light_theme = text "light";
  auto_dark_theme = text "dark";
  close_window_behavior = text "quit";
  claude_notification_type = text "toast";
  web_dav = some (record {
    url = text "https://dav";
    username = text "u";
    password = text "p";
    config_path = [];
    stats_path = [];
  });
  backup = some (record { provider = text "local"; local_dir = some (text "/b"); s3 = none });
  terminal = some (record {
    selected_terminal = text "cmd";
    project_dirs = text "/a" ∷ text "/b" ∷ [];
    claude_command = [];
  });
  proxy_url = some (text "http://127.0.0.1:7890");
}

full_config-settled : All (IsSettledEndpoint plain_codec no_faults) full_config.endpoints
unfolding settle
full_config-settled = (refl, tt)

full_config-IsSettled : IsSettled plain_codec [] [] full_config
unfolding is_zero is_empty same text is_int
full_config-IsSettled = record {
  port_set = refl;
  ttl_set = refl;
  width_set = refl;
  height_set = refl;
  language_set = refl;
  theme_set = refl;
  light_set = refl;
  dark_set = refl;
  behavior_set = refl;
  notification_set = refl;
  web_dav_stored = refl;
  backup_stored = (refl, refl, refl);
  update_set = refl;
  port_int = refl;
  level_int = refl;
  width_int = refl;
  height_int = refl;
  ttl_int = refl;
  terminal_set = (refl, refl);
  proxy_set = refl;
  codex_proxy_set = tt;
}

full_config_saves :
    (save_to_storage plain_codec no_faults full_config (record { rows = []; settings = [] })).0
    ≡ true
unfolding save_to_storage
full_config_saves = refl

load-save_example :
    load_from_storage plain_codec no_faults
      (save_to_storage plain_codec no_faults full_config (record { rows = []; settings = [] })).1
    ≡ some full_config
unfolding get_config
load-save_example =
    load-save plain_codec no_faults plain_codec-IsCodec (λ k. refl) full_config [] refl
      full_config-settled full_config-IsSettled full_config_saves

validate_lem_example :
    ((validate (λ t. none) (λ t. t) default_config).0 ≡ none
      ↔ (valid_port default_config.port ≡ true)
        × (default_config.endpoints ≢ [])
        × All (λ ep. IsCallable (settle (λ t. none) (λ t. t) ep)) default_config.endpoints)
    × ((validate (λ t. none) (λ t. t) default_config).0 ≡ none
        → (validate (λ t. none) (λ t. t) default_config).1 ≡ record default_config {
          endpoints = settled (λ t. none) (λ t. t) default_config.endpoints;
        })
    × All FitsMode (settled (λ t. none) (λ t. t) default_config.endpoints)
validate_lem_example = validate_lem (λ t. none) (λ t. t) default_config

default_passes : (validate (λ t. none) (λ t. t) default_config).0 ≡ none
unfolding validate
default_passes = refl
