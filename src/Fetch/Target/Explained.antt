-- ===== src/Fetch/Target/Explained.antt =====
-- The errors of a target's check have a code and a message, or are the resolver's `UnicodeError`.
use daily_firehose.Common.{
  ℕ, ◌≡◌, refl, String, true, Option, none, some, List, [], ◌∷◌, leb, truthy, Bool-cases, inl, inr,
  Result, str_eq,
}
use daily_firehose.Fetch.Wire.{
  FetchError, Lookup, found_addresses, os_error, not_encodable, UrlParts, Address, Net, Env, Call,
  call_lib, ◌>>=◌,
}
use daily_firehose.Fetch.Wire.Laws.{Fails, RaisesUnicode, >>=-Fails}
use daily_firehose.Fetch.Target.{
  check_deadline, effective_port, is_allowed_port, is_public, check_addresses, check_address,
  resolved, lift, resolve, check_port, check_parts, is_plain_http, validate_target, prepare_request,
  prepared_url,
}

module _ {W : Type 0} (env : Env W) where
  pub check_deadline-Fails :
      (deadline : ℕ) (s : Net W) → Fails (RaisesUnicode env) (check_deadline env deadline s).0
  unfolding check_deadline
  check_deadline-Fails deadline s = elim (Bool-cases (leb deadline (env.monotonic s.world).0)) [
    | inl q ↦ rw q (refl, refl)
    | inr q ↦ rw q tt
  ]

  prepared_url-Fails :
      (code : String) (o : Option (Option String))
      → truthy code ≡ true
      → Fails (RaisesUnicode env) (prepared_url env code o)
  prepared_url-Fails code none h = elim (Bool-cases (str_eq code "invalid_redirect")) [
    | inl q ↦ rw q (h, refl)
    | inr q ↦ rw q (h, refl)
  ]
  prepared_url-Fails code (some none) h = (h, refl)
  prepared_url-Fails code (some (some url)) h = tt

  pub prepare_request-Fails :
      (code url : String)
      → truthy code ≡ true
      → Fails (RaisesUnicode env) (prepare_request env code url)
  unfolding prepare_request
  prepare_request-Fails code url h = prepared_url-Fails code (env.prepare url) h

  check_address-Fails :
      (o : Option Address) (others : Result FetchError (Unit {0}))
      → Fails (RaisesUnicode env) others
      → Fails (RaisesUnicode env) (check_address env o others)
  check_address-Fails none others h = (refl, refl)
  check_address-Fails (some ip) others h = elim (Bool-cases (is_public env ip)) [
    | inl q ↦ rw q h
    | inr q ↦ rw q (refl, refl)
  ]

  check_addresses-Fails :
      (found : List String) → Fails (RaisesUnicode env) (check_addresses env found)
  unfolding check_addresses
  check_addresses-Fails [] = tt
  check_addresses-Fails (a ∷ rest) =
      check_address-Fails (env.address a) (check_addresses env rest) (check_addresses-Fails rest)

  resolved-Fails :
      (host : String) (port : ℕ) (w : W) (o : Lookup)
      → (env.addresses host port w).0 ≡ o
      → Fails (RaisesUnicode env) (resolved env o)
  resolved-Fails host port w os_error e = (refl, refl)
  resolved-Fails host port w not_encodable e = (host, port, w, e)
  resolved-Fails host port w (found_addresses []) e = (refl, refl)
  resolved-Fails host port w (found_addresses (a ∷ rest)) e = tt

  -- an answered call with its continuation, which need not be explained for any other answer
  looked_up-Fails :
      (host : String) (port : ℕ) (s : Net W) (next : Lookup → Call W (Unit {0}))
      → ((o : Lookup)
          → (env.addresses host port s.world).0 ≡ o
          → (t : Net W) → Fails (RaisesUnicode env) (next o t).0)
      → Fails (RaisesUnicode env) ((call_lib (env.addresses host port) >>= next) s).0
  looked_up-Fails host port s next h = h (env.addresses host port s.world).0 refl _

  resolve-Fails :
      (host : String) (port : ℕ) (s : Net W) → Fails (RaisesUnicode env) (resolve env host port s).0
  resolve-Fails host port s =
      let check : List String → Call W (Unit {0}) = λ a. lift env (check_addresses env a) in
      looked_up-Fails host port s (λ o. lift env (resolved env o) >>= check)
        (λ o e.
          >>=-Fails env (lift env (resolved env o)) check
            (λ t. resolved-Fails host port s.world o e) (λ a t. check_addresses-Fails a))

  check_port-Fails :
      (p : UrlParts) (o : Option String) (s : Net W)
      → Fails (RaisesUnicode env) (check_port env p o s).0
  check_port-Fails p none s = (refl, refl)
  check_port-Fails p (some host) s =
      elim (Bool-cases (is_allowed_port env (effective_port env p p.port))) [
        | inl k ↦ rw k (resolve-Fails host (effective_port env p p.port) s)
        | inr k ↦ rw k (refl, refl)
      ]

  check_parts-Fails :
      (o : Option UrlParts) (s : Net W) → Fails (RaisesUnicode env) (check_parts env o s).0
  check_parts-Fails none s = (refl, refl)
  check_parts-Fails (some p) s = elim (Bool-cases (is_plain_http env p)) [
    | inl k ↦ rw k (check_port-Fails p p.hostname s)
    | inr k ↦ rw k (refl, refl)
  ]

  pub validate_target-Fails :
      (url : String) (s : Net W) → Fails (RaisesUnicode env) (validate_target env url s).0
  unfolding validate_target
  validate_target-Fails url s = check_parts-Fails (env.split_url url) s
