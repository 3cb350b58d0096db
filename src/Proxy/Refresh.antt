-- ===== src/Proxy/Refresh.antt =====
-- internal/proxy/codex_credentials.go: refreshing a token of the pool. What the OAuth server
-- answered, trimmed and with the claims of its id token, is an argument.
use osante_ai_proxy.Base.{
  ℕ, ◌+◌, ◌*◌, Bool, true, false, Option, none, some, Text, [], trim_space, is_empty, ltb, ◌==◌,
  ◌||◌, not, if◌then◌else◌,
}
use osante_ai_proxy.Storage.Credential.{Status, active, need_refresh, Credential, minute, second}
use osante_ai_proxy.Storage.Pool.{Db, ok, err, update}
use osante_ai_proxy.Proxy.Classify.{is_codex_provider}

-- `codexRefreshTokenResponse` of a reply with status 200, with `parseCodexIDToken` of its id token.
pub record TokenReply : Type 0 where
  pub access_token : Text
  pub refresh_token : Text
  pub id_token : Text
  pub account_id : Text
  pub email : Text
  pub expires_in : ℕ

unfoldable pub is_need_refresh : Status → Bool
is_need_refresh need_refresh = true
is_need_refresh _ = false

unfoldable pub expires_within : ℕ → Option ℕ → Bool
expires_within deadline none = false
expires_within deadline (some t) = ltb t deadline

-- `shouldTryCredentialRefresh`
unfoldable pub should_refresh : Credential → ℕ → Bool
should_refresh c now =
    if not (is_codex_provider c.provider_type)
    then false
    else if is_empty (trim_space c.refresh_token)
    then false
    else is_need_refresh c.status || expires_within (now + 2 * minute) c.expires_at

unfoldable pub or_old : Text → Text → Text
or_old new old = if is_empty new then old else new

unfoldable pub refreshed : TokenReply → ℕ → Credential → Credential
refreshed reply now c = record c {
  access_token = reply.access_token;
  refresh_token = or_old reply.refresh_token c.refresh_token;
  id_token = or_old reply.id_token c.id_token;
  account_id =
      if is_empty reply.id_token then c.account_id else or_old reply.account_id c.account_id;
  email = if is_empty reply.id_token then c.email else or_old reply.email c.email;
  expires_at =
      if reply.expires_in == 0 then c.expires_at else some (now + reply.expires_in * second);
  last_refresh = some now;
  status = active;
  failure_count = 0;
  cooldown_until = none;
  last_error = [];
  last_checked_at = some now;
}

-- `refreshCredential`: `none` is an error, from the server (no reply) or from the store.
unfoldable pub refresh_credential : Option TokenReply → ℕ → Credential → Db → Option Credential × Db
refresh_credential none now c db = (none, db)
refresh_credential (some reply) now c db =
    if is_empty (trim_space c.refresh_token) || is_empty reply.access_token
    then (none, db)
    else elim (update (refreshed reply now c) now db) [
      | ok db' ↦ (some (refreshed reply now c), db')
      | err e ↦ (none, db)
    ]
