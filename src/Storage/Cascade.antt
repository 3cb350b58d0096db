-- ===== src/Storage/Cascade.antt =====
-- What a change of name and the removal of an endpoint do to the credential tables:
-- renameEndpointReferences and DeleteEndpoint of internal/storage/sqlite.go.
use osante_ai_proxy.Base.{
  nat_eq, ℕ, Bool, List, [], ◌∷◌, Text, Table, erase, not, same, keep_if, if◌then◌else◌,
}
use osante_ai_proxy.Storage.Credential.{Credential}
use osante_ai_proxy.Storage.Pool.{Db, CredentialUsage, CredentialRateLimits, update_where}

unfoldable pub of_name : Text → Credential → Bool
unfolding same
of_name name c = same c.endpoint_name name

unfoldable pub rename_usage : Text → Text → Table ℕ CredentialUsage → Table ℕ CredentialUsage
unfolding same
rename_usage old new [] = []
rename_usage old new ((id, u) ∷ rows) =
    (id, (if same u.endpoint_name old then record u { endpoint_name = new } else u))
    ∷ rename_usage old new rows

-- The statements on `endpoint_credentials` and `credential_usage`.
unfoldable pub rename_references : Text → Text → ℕ → Db → Db
unfolding of_name rename_usage
rename_references old new clock db =
    update_where (of_name old) (λ c. record c { endpoint_name = new; updated_at = clock })
      (record db { usage = rename_usage old new db.usage })

-- The rate limits of the credentials of an endpoint.
unfoldable pub delete_rate_limits :
    Text → List Credential → Table ℕ CredentialRateLimits → Table ℕ CredentialRateLimits
unfolding of_name erase
delete_rate_limits name [] limits = limits
delete_rate_limits name (c ∷ cs) limits =
    let rest = delete_rate_limits name cs limits in if of_name name c then erase c.id rest else rest

-- The first two statements; the counters of use stay.
unfoldable pub delete_pool : Text → Db → Db
unfolding of_name delete_rate_limits
delete_pool name db = record db {
  rate_limits = delete_rate_limits name db.credentials db.rate_limits;
  credentials = keep_if (λ c. not (of_name name c)) db.credentials;
}
