-- ===== src/Lib.antt =====
-- Osante AI Proxy: a proxy between LLM clients and several upstream endpoints, which fails over
-- from one endpoint to another and from one token of a pool to the next.
--
-- A request (internal/proxy/proxy_request.go, handleProxyRequest) is accepted or refused, and then
-- makes attempts until one is done. For each it takes an endpoint (internal/proxy/proxy.go: the
-- rotation, or the endpoint that internal/proxy/endpoint_resolver.go found), skips it in a cooldown
-- (internal/proxy/usage_limit.go), claims a token of the endpoint's pool
-- (internal/storage/credentials.go), sends, and marks the token, the endpoint, the usage and the
-- statistics by what came back.
--
-- Files and the code they model:
--   Base           lists, byte texts, association lists and Boolean tests over the native ℕ
--   Truncate       truncateErrMsg (internal/storage/credentials.go) and truncateString
--   Storage        internal/storage: Credential (deriveCredentialStatus, classifyCredentialForStats),
--                  Pool (SaveEndpointCredential up to GetTokenPoolStats, one function for each), Order
--                  (ORDER BY), Usage (credential_usage.go, rate_limits.go), Cascade
--                  (sqlite.go: endpoints renamed and removed). Proofs: Status, Keys, Claims, Fairness,
--                  Cooldowns, Reactivation, Totals, History, Refusals
--   Proxy          internal/proxy: Endpoint, Runtime (usage_limit.go), Rotation (proxy.go), Classify (the
--                  tests on codes, bodies and paths), State (what a request works on), Refresh
--                  (codex_credentials.go), Attempt and Response (the handlers of proxy_request.go, with
--                  their names in snake case), ErrorBody and Loop (the end of a request and its loop),
--                  Request (newProxyRequestContext and the whole of handleProxyRequest),
--                  Dedup (gitlabduo_dedup.go), UsageLimit (parseUsageLimitCooldown), Resolver, Trace
--                  (the ring of trace.go), Stats (stats.go and the table daily_stats). Proofs:
--                  Cooling, Selection, InFlight, Kept, Handled, Exchange, Prepared, Once, Served,
--                  Penalties, Choice, Shown, Leaders, Waiters, Resets, Wishes, Traces, Sums, Renames
--   Logger         internal/logger/logger.go: the ring and the subscribers. Proofs: Kept
--   Config         internal/config: Types (types.go), Rules (ApplyEndpointAuthModeRules, Validate), Store
--                  (the tables by way of internal/storage/adapter.go and sqlite.go), Codec (strconv and
--                  encoding/json), Save (SaveToStorage) and Load (LoadFromStorage). Proofs: Written, Reads,
--                  Sections, Reload, Saved, Checked
--   Transformer    internal/transformer/convert: Context (StreamContext and the events), ThinkTags
--                  (think_tags.go), OpenAiStream (OpenAIStreamToClaude of claude_openai.go),
--                  ResponsesStream (OpenAI2StreamToClaude of claude_openai2.go). Proofs: Tagged (a
--                  description of think tags), Partial, Said, Delivered, Quiet, Steps, Chunks, Deltas,
--                  Blocks
--   The files Tests and TableTests in these folders hold runs on small inputs.
--
-- Conventions. An instant is a number of nanoseconds, a nil or zero time is none. Ids and counters
-- are not bounded. A table is a list of rows or an association list; ORDER BY is a stable sort by
-- its terms, and statements of the database succeed. Where a function reads the clock twice the two
-- readings are two arguments; the handlers of an attempt give them one value. Case folding and
-- white space are those of ASCII. A request runs alone on the tables between its reads and writes;
-- only the registry of GitLab Duo requests is modelled with interleavings.
--
-- An attempt's environment (Attempt.Env) holds what this code does not decide: the clock, whether
-- the client is there, the reply of the OAuth server, whether the transformer prepared the request,
-- the upstream's reply with what the stream handlers and converters made of it, the outcome of a
-- GitLab Duo workflow. json.Unmarshal, the verb %q, the regular expression of the reset time and
-- time.Date are parameters. The loop's bound is computeMaxRetries, as in the code, so it ends by
-- construction. The loops over think tags have the length of their text as fuel, which is enough
-- since every round drops a tag. strconv, encoding/json, net/url and path are the record
-- Config.Codec.
--
-- Not modelled: the web UI, the schema of the database, the format transformers but for the streams
-- from OpenAI Chat and Responses to Claude, the stream handlers, the building of upstream requests,
-- the debug file and what a trace records, and the wait of rotateEndpoint for requests in flight.
pub mod Base
pub mod Truncate
pub mod Storage
pub mod Logger
pub mod Proxy
pub mod Config
pub mod Transformer
