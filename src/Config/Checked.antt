-- ===== src/Config/Checked.antt =====
-- What the auth-mode rules and Validate guarantee of a configuration.
use osante_ai_proxy.Base.{
  ℕ, suc, true, false, Option, none, List, [], ◌∷◌, map, Text, text, is_empty, same, trim_space,
  ◌&&◌, ◌≢◌, ◌≡◌, refl, ap, All, ◌↔◌, ◌⊎◌, inl, inr, Bool-cases,
}
use osante_ai_proxy.Proxy.Endpoint.{Endpoint}
use osante_ai_proxy.Proxy.Classify.{AuthMode, api_key, token_pool, codex_token_pool}
use osante_ai_proxy.Config.Types.{Config}
use osante_ai_proxy.Config.Rules.{
  mode_name, with_mode, apply_rules, settle, validate_from, validate, valid_port, codex_api_url,
  codex_transformer,
}

-- An endpoint of one of the three modes: with a pool it has no API key, and the pool of Codex has its
-- own URL and transformer.
abbrev pub FitsMode : Endpoint → Type 0
FitsMode ep =
    (ep.auth_mode ≡ text "api_key")
    ⊎ ((ep.auth_mode ≡ text "token_pool") × (ep.api_key ≡ [])
        ⊎ ((ep.auth_mode ≡ text "codex_token_pool")
            × (ep.api_key ≡ [])
            × (ep.api_url ≡ codex_api_url)
            × (ep.transformer ≡ codex_transformer)))

-- An endpoint that can be called: it has a URL, and a key where its mode wants one.
abbrev pub IsCallable : Endpoint → Type 0
IsCallable ep =
    (is_empty ep.api_url ≡ false)
    × ((same ep.auth_mode (text "api_key") && is_empty (trim_space ep.api_key)) ≡ false)

with_mode-FitsMode : (mode : AuthMode) (ep : Endpoint) → FitsMode (with_mode mode ep)
unfolding with_mode mode_name
with_mode-FitsMode api_key ep = inl refl
with_mode-FitsMode token_pool ep = inr (inl (refl, refl))
with_mode-FitsMode codex_token_pool ep = inr (inr (refl, refl, refl, refl))

module _ (parse_url : Text → Option (Text × Text)) (clean_path : Text → Text) where
  settle-FitsMode : (ep : Endpoint) → FitsMode (settle parse_url clean_path ep)
  unfolding settle apply_rules
  settle-FitsMode ep = with_mode-FitsMode _ _

  abbrev pub settled : List Endpoint → List Endpoint
  settled eps = map (settle parse_url clean_path) eps

  validate_from_lem :
      (i : ℕ) (eps : List Endpoint)
      → ((validate_from parse_url clean_path i eps).0 ≡ none)
        ↔ All (λ ep. IsCallable (settle parse_url clean_path ep)) eps
  unfolding validate_from
  validate_from_lem i [] = (λ h. tt, λ h. refl)
  validate_from_lem i (ep ∷ eps) =
      let e = settle parse_url clean_path ep in
      let ih = validate_from_lem (suc i) eps in
      elim (Bool-cases (is_empty e.api_url)) [
        | inl no_url ↦ rw no_url (λ h. absurd (cc), λ h. absurd (cc (h.0.0)))
        | inr url ↦
            elim (Bool-cases
              (same e.auth_mode (text "api_key") && is_empty (trim_space e.api_key))) [
                | inl no_key ↦ rw (url, no_key) (λ h. absurd (cc), λ h. absurd (cc (h.0.1)))
                | inr key ↦ rw (url, key) (λ h. ((refl, refl), ih.0 h), λ h. ih.1 h.1)
              ]
      ]

  validate_from-settled :
      (i : ℕ) (eps : List Endpoint)
      → (validate_from parse_url clean_path i eps).0 ≡ none
      → (validate_from parse_url clean_path i eps).1 ≡ settled eps
  unfolding validate_from
  validate_from-settled i [] h = refl
  validate_from-settled i (ep ∷ eps) h =
      let e = settle parse_url clean_path ep in
      let all = (validate_from_lem i (ep ∷ eps)).0 h in
      rw (all.0.0, all.0.1)
        (ap (λ r. e ∷ r)
          (validate_from-settled (suc i) eps ((validate_from_lem (suc i) eps).1 all.1)))

  settled-FitsMode : (eps : List Endpoint) → All FitsMode (settled eps)
  settled-FitsMode [] = tt
  settled-FitsMode (ep ∷ eps) = (settle-FitsMode ep, settled-FitsMode eps)

  passes :
      (c : Config) (eps : List Endpoint)
      → ((validate parse_url clean_path (record c { endpoints = eps })).0 ≡ none) ↔ (
          (valid_port c.port ≡ true)
          × (eps ≢ [])
          × All (λ ep. IsCallable (settle parse_url clean_path ep)) eps)
  unfolding validate
  passes c [] = elim (Bool-cases (valid_port c.port)) [
    | inl ok ↦ rw ok (λ h. absurd (cc), λ h. absurd (h.1 refl))
    | inr bad ↦ rw bad (λ h. absurd (cc), λ h. absurd (cc (h.0)))
  ]
  passes c (ep ∷ eps) =
      let checked = validate_from_lem 0 (ep ∷ eps) in
      elim (Bool-cases (valid_port c.port)) [
        | inl ok ↦ rw ok (λ h. (refl, (λ e. cc), checked.0 h), λ h. checked.1 h.2)
        | inr bad ↦ rw bad (λ h. absurd (cc), λ h. absurd (cc (h.0)))
      ]

  leaves :
      (c : Config) (eps : List Endpoint)
      → (validate parse_url clean_path (record c { endpoints = eps })).0 ≡ none
      → (validate parse_url clean_path (record c { endpoints = eps })).1
        ≡ record c { endpoints = settled eps }
  unfolding validate
  leaves c [] h = absurd (((passes c []).0 h).1 refl)
  leaves c (ep ∷ eps) h =
      let all = (passes c (ep ∷ eps)).0 h in
      rw (all.0) (
        ap (λ r. record c { endpoints = r })
          (validate_from-settled 0 (ep ∷ eps) ((validate_from_lem 0 (ep ∷ eps)).1 all.2)))

  -- The check passes exactly when the port is in 1 to 65535 and there are endpoints, each of which, once
  -- the rules are applied, has a URL and, in the mode of API keys, a key that is not blank. When it passes
  -- it leaves the configuration with the rules applied to every endpoint. An endpoint under the rules has
  -- one of the three modes, no API key with a pool of tokens, and Codex's own URL and transformer with the
  -- pool of Codex.
  pub validate_lem :
      (c : Config)
      → ((validate parse_url clean_path c).0 ≡ none
          ↔ (valid_port c.port ≡ true)
            × (c.endpoints ≢ [])
            × All (λ ep. IsCallable (settle parse_url clean_path ep)) c.endpoints)
        × ((validate parse_url clean_path c).0 ≡ none
            → (validate parse_url clean_path c).1 ≡ record c { endpoints = settled c.endpoints })
        × All FitsMode (settled c.endpoints)
  validate_lem c = (passes c c.endpoints, leaves c c.endpoints, settled-FitsMode c.endpoints)
