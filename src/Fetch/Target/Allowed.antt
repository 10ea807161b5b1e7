-- ===== src/Fetch/Target/Allowed.antt =====
-- What a target that passes the check is.
use daily_firehose.Common.{
  ℕ, ◌<◌, ◌≡◌, refl, ap, ◌∙◌, String, true, false, Option, none, some, List, [], ◌∷◌, is_none,
  length, All, Bool-cases, Option-cases, inl, inr, arith, ok,
}
use daily_firehose.Fetch.Wire.{
  Lookup, found_addresses, os_error, not_encodable, UrlParts, Address, Net, Env, Call, call_lib,
  ◌>>=◌,
}
use daily_firehose.Fetch.Wire.Laws.{>>=-sent, >>=-eq-ok}
use daily_firehose.Fetch.Target.{
  check_deadline, is_http, effective_port, is_allowed_port, is_public, check_addresses, resolved,
  lift, resolve, check_port, check_parts, is_plain_http, validate_target,
}

module _ {W : Type 0} (env : Env W) where
  -- The text is an address of the public network, and neither multicast nor site-local.
  abbrev pub IsPublic : String → Type 0
  IsPublic a =
      (ip : Address) × (env.address a ≡ some ip)
      × (ip.is_global ≡ true)
      × (ip.is_multicast ≡ false)
      × (ip.is_site_local ≡ false)

  -- The target's URL has no credentials and one of the two ports, and at some time its host
  -- resolved to public addresses only.
  pub record IsAllowed (url : String) : Type 0 where
    pub parts : UrlParts
    pub split : env.split_url url ≡ some parts
    pub scheme : is_http env parts ≡ true
    pub no_username : is_none parts.username ≡ true
    pub no_password : is_none parts.password ≡ true
    pub port : is_allowed_port env (effective_port env parts parts.port) ≡ true
    pub host : String
    pub named : parts.hostname ≡ some host
    pub time : W
    pub found : List String
    pub resolves :
        (env.addresses host (effective_port env parts parts.port) time).0 ≡ found_addresses found
    pub some_address : 0 < length found
    pub public : All IsPublic found

  check_addresses-IsPublic :
      (found : List String) → check_addresses env found ≡ ok tt → All IsPublic found
  unfolding check_addresses
  check_addresses-IsPublic [] h = tt
  check_addresses-IsPublic (a ∷ rest) h = elim (Option-cases (env.address a)) [
    | inl q ↦ ground (arith, q, h)
    | inr (ip, q) ↦ elim (Bool-cases (is_public env ip)) [
      | inl k ↦
          let others : check_addresses env rest ≡ ok tt = ground (arith, q, h, k) in
          (
            (ip, q, ground (arith, k), ground (arith, k), ground (arith, k)),
            check_addresses-IsPublic rest others,
          )
      | inr k ↦ ground (arith, q, h, k)
    ]
  ]

  resolved-eq-ok :
      (o : Lookup) {found : List String}
      → resolved env o ≡ ok found
      → (o ≡ found_addresses found) × (0 < length found)
  resolved-eq-ok os_error h = cc
  resolved-eq-ok not_encodable h = cc
  resolved-eq-ok (found_addresses []) h = cc
  resolved-eq-ok (found_addresses (a ∷ rest)) {found} h = ground (arith, h)

  resolve-found :
      (host : String) (port : ℕ) (s s' : Net W)
      → resolve env host port s ≡ (ok tt, s')
      → (time : W) × (found : List String) × ((env.addresses host port time).0
          ≡ found_addresses found)
        × (0 < length found)
        × All IsPublic found
  resolve-found host port s s' h =
      let look : Call W Lookup = call_lib (env.addresses host port) in
      let check = λ (a : List String). lift env (check_addresses env a) in
      let (o, t, q, k) = >>=-eq-ok look (λ o. lift env (resolved env o) >>= check) s h in
      let (found, u, e, l) = >>=-eq-ok (lift env (resolved env o)) check t k in
      let (some_found, positive) = resolved-eq-ok o (ap (λ r. r.0) e) in
      let answered : (env.addresses host port s.world).0 ≡ o = ground (arith, q) in
      (
        s.world,
        found,
        answered ∙ some_found,
        positive,
        check_addresses-IsPublic found (ap (λ r. r.0) l),
      )

  check_port-found :
      (p : UrlParts) (o : Option String) (s s' : Net W)
      → check_port env p o s ≡ (ok tt, s')
      → (host : String) × (o ≡ some host)
        × (is_allowed_port env (effective_port env p p.port) ≡ true)
        × (resolve env host (effective_port env p p.port) s ≡ (ok tt, s'))
  check_port-found p none s s' h = cc
  check_port-found p (some host) s s' h =
      elim (Bool-cases (is_allowed_port env (effective_port env p p.port))) [
        | inr k ↦ ground (arith, k, h)
        | inl k ↦ (host, refl, k, ground (arith, k, h))
      ]

  check_parts-found :
      (o : Option UrlParts) (s s' : Net W)
      → check_parts env o s ≡ (ok tt, s')
      → (p : UrlParts) × (o ≡ some p)
        × (is_plain_http env p ≡ true)
        × (check_port env p p.hostname s ≡ (ok tt, s'))
  check_parts-found none s s' h = cc
  check_parts-found (some p) s s' h = elim (Bool-cases (is_plain_http env p)) [
    | inr k ↦ ground (arith, k, h)
    | inl k ↦ (p, refl, k, ground (arith, k, h))
  ]

  -- A target that passes the check is allowed.
  pub validate_target-IsAllowed :
      (url : String) (s s' : Net W) → validate_target env url s ≡ (ok tt, s') → IsAllowed url
  unfolding validate_target
  validate_target-IsAllowed url s s' h =
      let (p, split, plain, k) = check_parts-found (env.split_url url) s s' h in
      let (host, named, port, l) = check_port-found p p.hostname s s' k in
      let (time, found, resolves, positive, public) =
        resolve-found host (effective_port env p p.port) s s' l in
      record {
        parts = p;
        split = split;
        scheme = ground (arith, plain);
        no_username = ground (arith, plain);
        no_password = ground (arith, plain);
        port = port;
        host = host;
        named = named;
        time = time;
        found = found;
        resolves = resolves;
        some_address = positive;
        public = public;
      }

  -- The check sends no request.
  pub check_deadline-sent :
      (deadline : ℕ) (s : Net W) → (check_deadline env deadline s).1.sent ≡ s.sent
  unfolding check_deadline
  check_deadline-sent deadline s = ground arith

  resolve-sent : (host : String) (port : ℕ) (s : Net W) → (resolve env host port s).1.sent ≡ s.sent
  resolve-sent host port s =
      let look : Call W Lookup = call_lib (env.addresses host port) in
      let check : List String → Call W (Unit {0}) = λ a. lift env (check_addresses env a) in
      >>=-sent look (λ o. lift env (resolved env o) >>= check) (λ t. refl)
        (λ o. >>=-sent (lift env (resolved env o)) check (λ t. refl) (λ a t. refl)) s

  check_port-sent :
      (p : UrlParts) (o : Option String) (s : Net W) → (check_port env p o s).1.sent ≡ s.sent
  check_port-sent p none s = refl
  check_port-sent p (some host) s =
      elim (Bool-cases (is_allowed_port env (effective_port env p p.port))) [
        | inl k ↦ rw k (resolve-sent host (effective_port env p p.port) s)
        | inr k ↦ rw k refl
      ]

  pub validate_target-sent :
      (url : String) (s : Net W) → (validate_target env url s).1.sent ≡ s.sent
  unfolding validate_target
  validate_target-sent url s = elim (Option-cases (env.split_url url)) [
    | inl q ↦ rw q refl
    | inr (p, q) ↦ rw q (elim (Bool-cases (is_plain_http env p)) [
      | inl k ↦ rw k (check_port-sent p p.hostname s)
      | inr k ↦ rw k refl
    ])
  ]
