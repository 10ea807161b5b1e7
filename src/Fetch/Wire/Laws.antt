-- ===== src/Fetch/Wire/Laws.antt =====
-- Inversion and invariants of a chain of calls.
use daily_firehose.Common.{◌≡◌, refl, ◌∙◌, true, truthy, ℕ, String, Result, ok, err}
use daily_firehose.Fetch.Wire.{
  FetchError, feed_fetch_error, unicode_error, not_encodable, Env, Net, Call, continue, ◌>>=◌,
}

-- A `FeedFetchError` carries a code and a message; a `UnicodeError` is raised where the resolver
-- raises one, which is the type.
abbrev pub IsExplained : Type 0 → FetchError → Type 0
IsExplained Unencodable (feed_fetch_error code message) =
    (truthy code ≡ true) × (truthy message ≡ true)
IsExplained Unencodable unicode_error = Unencodable

-- What an outcome raises, if it raises, is explained.
abbrev pub Fails : {A : Type 0} → Type 0 → Result FetchError A → Type 0
Fails Unencodable (err e) = IsExplained Unencodable e
Fails Unencodable (ok a) = Unit

-- At some time, for some host and port, the resolver of the environment raised a `UnicodeError`.
abbrev pub RaisesUnicode : {W : Type 0} → Env W → Type 0
RaisesUnicode {W} env =
    (host : String) × (port : ℕ) × (w : W) × ((env.addresses host port w).0 ≡ not_encodable)

module _ {W A B : Type 0} where
  continue-eq-ok :
      (f : A → Call W B) (r : Result FetchError A × Net W) {b : B} {s' : Net W}
      → continue f r ≡ (ok b, s')
      → (a : A) × (s : Net W) × (r ≡ (ok a, s)) × (f a s ≡ (ok b, s'))
  continue-eq-ok f (err e, s) h = cc
  continue-eq-ok f (ok a, s) h = (a, s, refl, h)

  -- A chain that answers has a first call that does.
  pub >>=-eq-ok :
      (m : Call W A) (f : A → Call W B) (s : Net W) {b : B} {s' : Net W}
      → (m >>= f) s ≡ (ok b, s')
      → (a : A) × (t : Net W) × (m s ≡ (ok a, t)) × (f a t ≡ (ok b, s'))
  >>=-eq-ok m f s h = continue-eq-ok f (m s) h

  continue-Fails :
      (env : Env W) (f : A → Call W B) (r : Result FetchError A × Net W)
      → Fails (RaisesUnicode env) r.0
      → ((a : A) (s : Net W) → Fails (RaisesUnicode env) (f a s).0)
      → Fails (RaisesUnicode env) (continue f r).0
  continue-Fails env f (err e, s) h k = h
  continue-Fails env f (ok a, s) h k = k a s

  pub >>=-Fails :
      (env : Env W) (m : Call W A) (f : A → Call W B)
      → ((s : Net W) → Fails (RaisesUnicode env) (m s).0)
      → ((a : A) (s : Net W) → Fails (RaisesUnicode env) (f a s).0)
      → (s : Net W) → Fails (RaisesUnicode env) ((m >>= f) s).0
  >>=-Fails env m f h k s = continue-Fails env f (m s) (h s) k

  continue-sent :
      (f : A → Call W B) (r : Result FetchError A × Net W)
      → ((a : A) (s : Net W) → (f a s).1.sent ≡ s.sent)
      → (continue f r).1.sent ≡ r.1.sent
  continue-sent f (err e, s) k = refl
  continue-sent f (ok a, s) k = k a s

  -- A chain of calls that send nothing sends nothing.
  pub >>=-sent :
      (m : Call W A) (f : A → Call W B)
      → ((s : Net W) → (m s).1.sent ≡ s.sent)
      → ((a : A) (s : Net W) → (f a s).1.sent ≡ s.sent)
      → (s : Net W) → ((m >>= f) s).1.sent ≡ s.sent
  >>=-sent m f h k s = continue-sent f (m s) k ∙ h s
