-- ===== src/Lifecycle/Server/Propagation.antt =====
-- How a definition reaches the other organizations (ReconcileDefinition of rpc.go).
use fabric_x_chaincode_compa.Prelude.{
  ◌≡◌, refl, sym, subst, ◌∙◌, ap, ◌⊎◌, inl, inr, Bool, true, Option, none, some, List, [], ◌∷◌,
  ◌++◌, String, arith, Bool-cases, Option-cases, All, if◌then◌else◌,
}
use fabric_x_chaincode_compa.Prelude.Exec.{Result-cases, ok}
use fabric_x_chaincode_compa.Prelude.Assoc.{lookup}
use fabric_x_chaincode_compa.Lifecycle.Definition.{ChaincodeDefinition}
use fabric_x_chaincode_compa.Lifecycle.Authorization.Request.{SignedRequest}
use fabric_x_chaincode_compa.Lifecycle.Authorization.Check.{Code, unavailable}
use fabric_x_chaincode_compa.Lifecycle.Authorization.Signing.{
  commit_request, mark_initialized_request,
}
use fabric_x_chaincode_compa.Lifecycle.Server.State.{
  Peer, Server, DefinitionPropagation, sign_internal,
}
use fabric_x_chaincode_compa.Lifecycle.Server.Handlers.{
  updates, by_msp, first_seen, propagate, resolve_progress, propagate_definition, ask_organizations,
}

-- The organization's peer confirmed the request.
abbrev pub HasAcknowledged : Bool → SignedRequest → List (String × Peer) → String → Type 0
HasAcknowledged initialized req peers msp =
    (p : Peer) × (lookup msp peers ≡ some p) × (updates initialized req p ≡ true)

-- The loop stopped with these organizations left.
abbrev pub IsBlocked :
    Bool → SignedRequest → List (String × Peer) → Option Code × List String → Type 0
IsBlocked initialized req peers (e, []) = e ≡ none
IsBlocked initialized req peers (e, msp ∷ more) =
    (e ≡ some unavailable) × ¬ HasAcknowledged initialized req peers msp

-- What was asked for is the front of the list, and was confirmed by each.
pub record Propagated (initialized : Bool) (req : SignedRequest) (peers : List (String × Peer))
    (orgs : List String) (r : Option Code × List String) : Type 0 where
  pub asked : List String
  pub split : orgs ≡ asked ++ r.1
  pub confirmed : All (HasAcknowledged initialized req peers) asked
  pub rest : IsBlocked initialized req peers r

propagate-Propagated :
    (initialized : Bool) (req : SignedRequest) (peers : List (String × Peer)) (orgs : List String)
    → Propagated initialized req peers orgs (propagate initialized req peers orgs)
unfolding propagate
propagate-Propagated initialized req peers [] = record {
  asked = [];
  split = refl;
  confirmed = tt;
  rest = refl;
}
propagate-Propagated initialized req peers (msp ∷ more) = elim (Option-cases (lookup msp peers)) [
  | inl e ↦ rw (e, propagate) (blocked λ (q, found, k). cc)
  | inr (p, e) ↦ elim (Bool-cases (updates initialized req p)) [
    | inl u ↦
        rw (e, u, propagate) (extended p e u (propagate-Propagated initialized req peers more))
    | inr u ↦ rw (e, u, propagate) (blocked λ (q, found, k). ground arith)
  ]
]
  where
    blocked :
        ¬ HasAcknowledged initialized req peers msp
        → Propagated initialized req peers (msp ∷ more) (some unavailable, msp ∷ more)
    blocked n = record { asked = []; split = refl; confirmed = tt; rest = (refl, n) }

    extended :
        (p : Peer)
        → lookup msp peers ≡ some p
        → updates initialized req p ≡ true
        → {r : Option Code × List String} → Propagated initialized req peers more r
        → Propagated initialized req peers (msp ∷ more) r
    extended p e u k = record {
      asked = msp ∷ k.asked;
      split = ap (λ x. msp ∷ x) k.split;
      confirmed = ((p, e, u), k.confirmed);
      rest = k.rest;
    }

module _ {Identity : Type 0} (srv : Server Identity) (def : ChaincodeDefinition)
    (initialized : Bool) where
  -- A peer of this organization confirmed a request that this server signed.
  pub record Acknowledged (msp : String) : Type 0 where
    pub peers : List Peer
    pub resolved : srv.remotes def ≡ some peers
    pub request : SignedRequest
    pub signed :
        sign_internal srv (if initialized then mark_initialized_request else commit_request) def
        ≡ ok request
    pub peer : Peer
    pub found : lookup msp (by_msp peers []) ≡ some peer
    pub confirmed : updates initialized request peer ≡ true

  -- The front of the organizations confirmed, the others are left; without an error none is.
  pub record Served (orgs : List String) (r : Option Code × DefinitionPropagation) : Type 0 where
    pub asked : List String
    pub split : orgs ≡ asked ++ r.1.organizations
    pub confirmed : All Acknowledged asked
    pub ends : r.0 ≡ none → r.1.organizations ≡ []

  nobody_asked : (e : Code) (p : DefinitionPropagation) → Served p.organizations (some e, p)
  nobody_asked e p = record { asked = []; split = refl; confirmed = tt; ends = λ h. cc }

  blocked_left :
      (req : SignedRequest) (peers : List (String × Peer)) (r : Option Code × List String)
      → IsBlocked initialized req peers r
      → r.0 ≡ none
      → r.1 ≡ []
  blocked_left req peers (e, []) b h = refl
  blocked_left req peers (e, m ∷ more) (b, n) h = cc

  module _ (peers : List Peer) (at : srv.remotes def ≡ some peers) where
    each_acknowledged :
        (req : SignedRequest)
        → sign_internal srv (if initialized then mark_initialized_request else commit_request) def
          ≡ ok req
        → (orgs : List String) → All (HasAcknowledged initialized req (by_msp peers [])) orgs
        → All Acknowledged orgs
    each_acknowledged req signed [] h = tt
    each_acknowledged req signed (m ∷ more) ((p, found, confirmed), rest) = (
      record {
        peers = peers;
        resolved = at;
        request = req;
        signed = signed;
        peer = p;
        found = found;
        confirmed = confirmed;
      },
      each_acknowledged req signed more rest,
    )

    ask-Served :
        (known : DefinitionPropagation) (orgs : List String)
        → known.organizations ≡ orgs
        → Served orgs (ask_organizations srv def initialized peers known orgs)
          × ((ask_organizations srv def initialized peers known orgs).1.resolved ≡ known.resolved)
    ask-Served known [] e =
        (record { asked = []; split = sym e; confirmed = tt; ends = λ h. e }, refl)
    ask-Served known (msp ∷ more) e =
        elim (Result-cases (
          sign_internal srv (if initialized then mark_initialized_request else commit_request)
            def)) [
              | inl (x, failed) ↦
                  rw (failed, ask_organizations)
                    (subst (λ o. Served o (some x, known)) e (nobody_asked x known), refl)
              | inr (req, signed) ↦
                  let k = propagate-Propagated initialized req (by_msp peers []) (msp ∷ more) in
                  rw (signed, ask_organizations)
                    (
                      record {
                        asked = k.asked;
                        split = k.split;
                        confirmed = each_acknowledged req signed k.asked k.confirmed;
                        ends = blocked_left req (by_msp peers []) _ k.rest;
                      },
                      refl,
                    )
            ]

  resolved_organizations :
      (peers : List Peer) (p : DefinitionPropagation)
      → (resolve_progress peers p).organizations
        ≡ (if p.resolved then p.organizations else p.organizations ++ first_seen peers [])
  resolved_organizations peers p = ground arith

  resolved_flag :
      (peers : List Peer) (p : DefinitionPropagation) → (resolve_progress peers p).resolved ≡ true
  resolved_flag peers p = ground arith

  pub propagate_definition_progress :
      (progress : DefinitionPropagation)
      → ((srv.remotes def ≡ none)
          × (propagate_definition srv def initialized progress ≡ (some unavailable, progress)))
        ⊎ ((peers : List Peer) × (srv.remotes def ≡ some peers)
            × Served
                (if progress.resolved
                  then progress.organizations
                  else progress.organizations ++ first_seen peers [])
                (propagate_definition srv def initialized progress)
            × ((propagate_definition srv def initialized progress).1.resolved ≡ true))
  unfolding propagate_definition
  propagate_definition_progress progress = elim (Option-cases (srv.remotes def)) [
    | inl e ↦ inl (e, rw (e, propagate_definition) refl)
    | inr (peers, e) ↦
        let (served, kept) = ask-Served peers e (resolve_progress peers progress) _ refl in
        inr (
          peers,
          e,
          rw (e, propagate_definition)
              (subst
                (λ o. Served o (
                  ask_organizations srv def initialized peers (resolve_progress peers progress)
                    (resolve_progress peers progress).organizations))
                (resolved_organizations peers progress) served),
          rw (e, propagate_definition) (kept ∙ resolved_flag peers progress),
        )
  ]
