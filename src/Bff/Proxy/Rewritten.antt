-- ===== src/Bff/Proxy/Rewritten.antt =====
-- Where API requests go, and with which bearer token.
use oidc_oauth2_idp.Prelude.{
  Bool-cases, Option, String, ap, contains, false, inl, inr, none, refl, some, sym, text_cases,
  true, ℕ, ◌++◌, ◌∙◌, ◌≡◌, ◌≢◌, ◌⊎◌,
}
use oidc_oauth2_idp.Prelude.Text.{has_prefix, split, trim_space, ◌⧺◌}
use oidc_oauth2_idp.Prelude.Text.Affixes.{trim_prefix-append}
use oidc_oauth2_idp.Prelude.Text.Paths.{path_join-path_names, path_names, rooted_path}
use oidc_oauth2_idp.Idp.External.{Url}
use oidc_oauth2_idp.Bff.Store.{BffSession, Store}
use oidc_oauth2_idp.Bff.Config.Prefix.{IsPathPrefix}
use oidc_oauth2_idp.Bff.Proxy.{
  Outgoing, api_director, forwarded, rewritten_path, serve_api, serve_loaded,
  with_forwarding_headers,
}
use oidc_oauth2_idp.Bff.Manager.{get_session}

-- A request below the API prefix, to an upstream server whose URL has no path, goes to the upstream
-- prefix with the names that stand behind the API prefix: empty and dot elements and a slash at the end are
-- dropped. The condition is that no element is "..".
pub api_director_path :
    (original : Outgoing → Outgoing) (target : Url) (api upstream rest : String) (req : Outgoing)
    → IsPathPrefix upstream
    → contains (split b'/' upstream) ".." ≡ false
    → contains (split b'/' rest) ".." ≡ false
    → (original req).url_path ≡ api ⧺ rest
    → (api_director original target api upstream req).url_path
      ≡ rooted_path (path_names (split b'/' upstream) ++ path_names (split b'/' rest))
unfolding api_director rewritten_path
api_director_path original target api upstream rest req begins up k same =
    rw (same, trim_prefix-append api rest) (path_join-path_names upstream rest begins.0 up k)

with_forwarding_headers_lem :
    (request_host : String) (remote_host : Option String) (req : Outgoing)
    → ((with_forwarding_headers request_host remote_host req).bearer_header ≡ req.bearer_header)
      × ((with_forwarding_headers request_host remote_host req).forwarded_host ≡ request_host)
with_forwarding_headers_lem request_host none req = (refl, refl)
with_forwarding_headers_lem request_host (some remote) req = (refl, refl)

forwarded_injective : {a b : Outgoing} → forwarded a ≡ forwarded b → a ≡ b
forwarded_injective e = cc

module _ {S : Type 0} (st : Store S) where
  serve_loaded_lem :
      (finish : Outgoing → Outgoing) (req : Outgoing) (r : S × Option (Option BffSession))
      (out : Outgoing)
      → (serve_loaded st finish req r).1 ≡ forwarded out
      → (current : BffSession) × (r.1 ≡ some (some current))
        × (trim_space current.access_token ≢ "")
        × (finish (record req { bearer_header = "Bearer " ⧺ current.access_token }) ≡ out)
  serve_loaded_lem finish req (s, none) out e = cc
  serve_loaded_lem finish req (s, some none) out e = cc
  serve_loaded_lem finish req (s, some (some current)) out e =
      elim (text_cases (trim_space current.access_token) "") [
        | inl (_, t) ↦ cc (rw t at e)
        | inr (n, t) ↦ (current, refl, n, forwarded_injective (rw t at e))
      ]

  -- What the API proxy sends upstream names the host that was asked for, and carries the bearer token that
  -- the request came with or, if it had none, the access token, not blank, of the session behind its
  -- cookie.
  pub serve_api-bearer_header :
      (request_host : String) (remote_host cookie : Option String) (req : Outgoing) (now : ℕ)
      (s : S) (out : Outgoing)
      → (serve_api st request_host remote_host cookie req now s).1 ≡ forwarded out
      → (out.forwarded_host ≡ request_host)
        × (((has_prefix (trim_space req.bearer_header) "Bearer " ≡ true)
              × (out.bearer_header ≡ req.bearer_header))
            ⊎ ((current : BffSession) × ((get_session st cookie now s).1 ≡ some (some current))
                × (trim_space current.access_token ≢ "")
                × (out.bearer_header ≡ "Bearer " ⧺ current.access_token)))
  unfolding serve_api
  serve_api-bearer_header request_host remote_host cookie req now s out e =
      let finish = with_forwarding_headers request_host remote_host in
      elim (Bool-cases (has_prefix (trim_space req.bearer_header) "Bearer ")) [
        | inl t ↦
            let same = forwarded_injective (rw (t, serve_api) at e) in
            let (own, host) = with_forwarding_headers_lem request_host remote_host req in
            (
              ap (λ (o : Outgoing). o.forwarded_host) (sym same) ∙ host,
              inl (t, ap (λ (o : Outgoing). o.bearer_header) (sym same) ∙ own),
            )
        | inr t ↦
            let (current, found, n, same) =
              serve_loaded_lem finish req (get_session st cookie now s) out
                (rw (t, serve_api) at e) in
            let (given, host) =
              with_forwarding_headers_lem request_host remote_host
                (record req { bearer_header = "Bearer " ⧺ current.access_token }) in
            (
              ap (λ (o : Outgoing). o.forwarded_host) (sym same) ∙ host,
              inr (current, found, n, ap (λ (o : Outgoing). o.bearer_header) (sym same) ∙ given),
            )
      ]
