-- ===== src/Config/Written.antt =====
-- What a sequence of calls of SetConfig leaves in the table, and where SaveToStorage writes each key.
use osante_ai_proxy.Base.{
  Bool, true, false, Option, none, some, List, [], ◌∷◌, ◌++◌, Text, text, same, same_iff,
  has_prefix, ◌≡◌, refl, sym, ◌∙◌, ap, All, All-append, insert, lookup-insert, text_eq, arith,
  Bool-cases, inl, inr, if◌then◌else◌,
}
use osante_ai_proxy.Config.Types.{
  Config, WebDavConfig, BackupConfig, S3BackupConfig, UpdateConfig, TerminalConfig,
}
use osante_ai_proxy.Config.Codec.{Codec}
use osante_ai_proxy.Config.Store.{Store, Faults, get_config, set_config, set_all}
use osante_ai_proxy.Config.Save.{
  app_settings, web_dav_settings, local_settings, s3_settings, backup_settings, update_settings,
  terminal_settings, all_settings, format_bool, url_of,
}

abbrev pub later : Option Text → Option Text → Option Text
later (some v) o = some v
later none o = o

-- The last value written to a key.
unfoldable pub written : Text → List (Text × Text) → Option Text
unfolding same
written k [] = none
written k ((j, v) ∷ sets) = later (written k sets) (if same j k then some v else none)

written-append :
    (k : Text) (a b : List (Text × Text)) → written k (a ++ b) ≡ later (written k b) (written k a)
unfolding written
written-append k [] b = ground (arith)
written-append k ((j, v) ∷ a) b = ground (arith, written-append k a b)

get-insert :
    (faults : Faults) (k j v : Text) (s : Store)
    → faults.get_fails k ≡ false
    → get_config faults k (record s { settings = insert j v s.settings })
      ≡ (if same j k then v else get_config faults k s)
unfolding get_config
get-insert faults k j v s h = elim (Bool-cases (same j k)) [
  | inl e ↦ simp (h, lookup-insert j k v s.settings, e) refl
  | inr e ↦ simp (h, lookup-insert j k v s.settings, e) refl
]

abbrev pub given : Text → Option Text → Text
given d none = d
given d (some v) = v

given-later :
    (d : Text) (b : Bool) (v : Text) (o : Option Text)
    → given (if b then v else d) o ≡ given d (later o (if b then some v else none))
given-later d true v none = refl
given-later d false v none = refl
given-later d true v (some w) = refl
given-later d false v (some w) = refl

set_config-accepted :
    (faults : Faults) (j v : Text) (s : Store)
    → faults.set_fails j ≡ false
    → set_config faults j v s ≡ (true, record s { settings = insert j v s.settings })
unfolding set_config
set_config-accepted faults j v s h = rw h refl

set_config-refused :
    (faults : Faults) (j v : Text) (s : Store)
    → faults.set_fails j ≡ true
    → set_config faults j v s ≡ (false, s)
unfolding set_config
set_config-refused faults j v s h = rw h refl

pub set_all_step :
    (faults : Faults) (j v : Text) (sets : List (Text × Text)) (s : Store)
    → faults.set_fails j ≡ false
    → set_all faults ((j, v) ∷ sets) s
      ≡ set_all faults sets (record s { settings = insert j v s.settings })
unfolding set_all
set_all_step faults j v sets s h =
    let stored = set_config-accepted faults j v s h in
    rw (set_all, stored) (ap (λ r. set_all faults sets r.1) stored)

pub set_all_refused :
    (faults : Faults) (j v : Text) (sets : List (Text × Text)) (s : Store)
    → faults.set_fails j ≡ true
    → set_all faults ((j, v) ∷ sets) s ≡ (false, s)
unfolding set_all
set_all_refused faults j v sets s h =
    let refused = set_config-refused faults j v s h in rw (set_all, refused) refused

-- What is read after a sequence of writes that all succeed.
pub get-set_all :
    (faults : Faults) (k : Text) (sets : List (Text × Text)) (s : Store)
    → faults.get_fails k ≡ false
    → (set_all faults sets s).0 ≡ true
    → get_config faults k (set_all faults sets s).1 ≡ given (get_config faults k s) (written k sets)
unfolding written
get-set_all faults k [] s h ok = unfold set_all in refl
get-set_all faults k ((j, v) ∷ sets) s h ok = elim (Bool-cases (faults.set_fails j)) [
  | inl refused ↦ absurd (cc (ap (λ r. r.0) (set_all_refused faults j v sets s refused), ok))
  | inr accepted ↦
      let s1 = record s { settings = insert j v s.settings } in
      let step = set_all_step faults j v sets s accepted in
      let ok1 : (set_all faults sets s1).0 ≡ true = sym (ap (λ r. r.0) step) ∙ ok in
      ap (λ r. get_config faults k r.1) step
      ∙ get-set_all faults k sets s1 h ok1
      ∙ ap (λ d. given d (written k sets)) (get-insert faults k j v s h)
      ∙ given-later (get_config faults k s) (same j k) v (written k sets)
]

pub written_elsewhere :
    (p k : Text) (sets : List (Text × Text))
    → All (λ kv. has_prefix kv.0 p ≡ true) sets
    → has_prefix k p ≡ false
    → written k sets ≡ none
unfolding written
written_elsewhere p k [] all h = refl
written_elsewhere p k ((j, v) ∷ sets) all h = elim (Bool-cases (same j k)) [
  | inl e ↦ absurd (cc (all.0, h, (same_iff j k).0 e))
  | inr e ↦ rw (written_elsewhere p k sets all.1 h, e) refl
]

pub web_dav_prefix :
    (w : Option WebDavConfig)
    → All (λ kv. has_prefix kv.0 (text "webdav_") ≡ true) (web_dav_settings w)
unfolding web_dav_settings has_prefix text
web_dav_prefix none = tt
web_dav_prefix (some w) = (refl, (refl, (refl, (refl, (refl, tt)))))

local_prefix :
    (d : Option Text) → All (λ kv. has_prefix kv.0 (text "backup_") ≡ true) (local_settings d)
unfolding local_settings has_prefix text
local_prefix none = tt
local_prefix (some d) = (refl, tt)

s3_prefix :
    (b : Option S3BackupConfig)
    → All (λ kv. has_prefix kv.0 (text "backup_") ≡ true) (s3_settings b)
unfolding s3_settings has_prefix text
s3_prefix none = tt
s3_prefix (some b) = (refl, (refl, (refl, (refl, (refl, (refl, (refl, (refl, (refl, tt)))))))))

pub backup_prefix :
    (b : Option BackupConfig)
    → All (λ kv. has_prefix kv.0 (text "backup_") ≡ true) (backup_settings b)
unfolding backup_settings local_settings s3_settings has_prefix text
backup_prefix none = tt
backup_prefix (some b) = (
  refl,
  All-append _ (local_settings b.local_dir) (s3_settings b.s3) (local_prefix b.local_dir)
      (s3_prefix b.s3),
)

module _ (codec : Codec) where
  pub update_prefix :
      (u : Option UpdateConfig)
      → All (λ kv. has_prefix kv.0 (text "update_") ≡ true) (update_settings codec u)
  unfolding update_settings has_prefix text
  update_prefix none = tt
  update_prefix (some u) = (refl, (refl, (refl, (refl, tt))))

  pub terminal_prefix :
      (t : Option TerminalConfig)
      → All (λ kv. has_prefix kv.0 (text "terminal_") ≡ true) (terminal_settings codec t)
  unfolding terminal_settings has_prefix text
  terminal_prefix none = tt
  terminal_prefix (some t) = (refl, (refl, (refl, tt)))

  -- The writes after the sections that may be absent.
  abbrev pub last_settings : Config → List (Text × Text)
  last_settings c =
      (text "proxy_url", url_of c.proxy_url)
      ∷ (text "codex_proxy_url", url_of c.codex_proxy_url)
      ∷ (text "claude_notification_enabled", format_bool c.claude_notification_enabled)
      ∷ (text "claude_notification_type", c.claude_notification_type)
      ∷ []

  pub written_all :
      (k : Text) (c : Config)
      → written k (all_settings codec c)
        ≡ later
            (later
              (later
                (later
                  (later
                    (written k (last_settings c))
                    (written k (terminal_settings codec c.terminal)))
                  (written k (update_settings codec c.update)))
                (written k (backup_settings c.backup)))
              (written k (web_dav_settings c.web_dav)))
            (written k (app_settings codec c))
  unfolding all_settings
  written_all k c = simp written-append refl
