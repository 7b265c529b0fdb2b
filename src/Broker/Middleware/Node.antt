-- ===== src/Broker/Middleware/Node.antt =====
-- packages/broker/src/middleware.ts: `createNodeMiddleware`.
use warden_md.Common.{
  if◌then◌else◌, truthy, Result, ok, err, String, Option, none, some, List, [], ◌∷◌,
}
use warden_md.Broker.Types.{ConsumeResult}
use warden_md.Broker.Core.{Broker}
use warden_md.Broker.Consume.{ConsumeInput}
use warden_md.Broker.Middleware.{
  Fault, Consumer, MiddlewareOptions, Outcome, refused, handed, thrown, credential_error,
  operation_error, after_prefix, with_consumer,
}

-- A header of Node: absent, one text or several.
pub data NodeHeader : Type 0 where
  no_header : NodeHeader
  one_header : String → NodeHeader
  many_headers : List String → NodeHeader

-- `NodeLikeRequest`
pub record NodeRequest : Type 0 where
  pub method : Option String
  pub original_url : Option String
  pub authorization : NodeHeader
  pub dpop : NodeHeader

abbrev pub as_header : NodeHeader → Option String
as_header no_header = none
as_header (one_header s) = some s
as_header (many_headers []) = none
as_header (many_headers (s ∷ rest)) = some s

-- `value ?? other`
abbrev pub given_or : String → Option String → String
given_or other none = other
given_or other (some s) = s

-- The credential and the proof, where both headers are fit.
unfoldable pub node_credentials : Option String → Option String → Option (String × String)
unfolding after_prefix
node_credentials none dpop = none
node_credentials (some authorization) none = none
node_credentials (some authorization) (some dpop) = elim (after_prefix "Bearer " authorization) [
  | none ↦ none
  | some credential ↦ if truthy dpop then some (credential, dpop) else none
]

-- `options.onEvidence?.(consumed)`, and `next()`.
unfoldable pub finish : MiddlewareOptions → Result Fault ConsumeResult → Outcome (Unit {0})
finish options (err e) = operation_error e
finish options (ok used) = elim options.on_evidence [
  | none ↦ handed tt
  | some f ↦ if f used then handed tt else refused "temporarily_unavailable" 503
]

-- `consumer.consume({ credential, proof, audience })`, and what follows.
unfoldable pub consume_and_finish :
    MiddlewareOptions → Consumer → ConsumeInput → Broker → Outcome (Unit {0}) × Broker
consume_and_finish options consumer input s =
    let (result, s') = consumer input s in (finish options result, s')

-- `resolve_url` is `new URL(url, base).toString()`, with `none` where it throws.
module _ (resolve_url : String → String → Option String) (options : MiddlewareOptions)
    (consumer : Consumer) where
  -- From the credential on, the URL being resolved.
  unfoldable pub node_use :
      NodeRequest → String → String → String → Broker → Outcome (Unit {0}) × Broker
  node_use request credential dpop url s =
      let input : ConsumeInput = record {
        credential = credential;
        proof = record { token = dpop; method = given_or "GET" request.method; url = url };
        audience = options.audience;
      } in
      elim options.verifier [
        | none ↦ consume_and_finish options consumer input s
        | some verify ↦ elim (verify credential (options.now s.ticks)) [
          | some e ↦ (credential_error e, s)
          | none ↦ consume_and_finish options consumer input s
        ]
      ]

  -- The middleware that `createNodeMiddleware` returns; `handed` is its call of `next`.
  unfoldable pub node_middleware : NodeRequest → Broker → Outcome (Unit {0}) × Broker
  node_middleware request s =
      elim (node_credentials (as_header request.authorization) (as_header request.dpop)) [
        | none ↦ (refused "invalid_credential" 401, s)
        | some (credential, dpop) ↦
            elim (resolve_url (given_or "/" request.original_url) options.audience) [
              | none ↦ (thrown, s)
              | some url ↦ node_use request credential dpop url s
            ]
      ]

-- `createNodeMiddleware`, with `none` where it throws.
unfoldable pub create_node_middleware :
    (String → String → Option String)
    → MiddlewareOptions
    → Option (NodeRequest → Broker → Outcome (Unit {0}) × Broker)
create_node_middleware resolve_url options =
    with_consumer options (node_middleware resolve_url options)
