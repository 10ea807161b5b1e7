-- ===== src/Fetch/Body/Bounded.antt =====
-- A body is never empty and never above the limit.
use daily_firehose.Common.{
  ℕ, ◌≤◌, ◌<◌, ◌≡◌, refl, ap, Bool, true, false, List, [], ◌∷◌, ◌++◌, length, ltb, any, not, str_eq,
  Bool-cases, inl, inr, arith, ok, err, if◌then◌else◌,
}
use daily_firehose.Fetch.Wire.{StreamEvent, chunk, broken, Response, Net, Env, Call, ◌>>=◌}
use daily_firehose.Fetch.Wire.Laws.{Fails, RaisesUnicode, >>=-Fails, >>=-sent, >>=-eq-ok}
use daily_firehose.Fetch.Target.{check_deadline, lift}
use daily_firehose.Fetch.Target.Allowed.{check_deadline-sent}
use daily_firehose.Fetch.Target.Explained.{check_deadline-Fails}
use daily_firehose.Fetch.Body.{
  classify_stream_error, is_over, too_large, encodings, validate_content_encoding, content_length,
  check_length, read_chunks, nonempty, read_bounded,
}

module _ {W : Type 0} (env : Env W) (max_bytes deadline : ℕ) where
  abbrev next_chunk : List StreamEvent → List ℕ → Call W (List ℕ)
  next_chunk rest received =
      if ltb max_bytes (length received)
      then lift env (err too_large)
      else read_chunks env max_bytes deadline rest received

  read_chunks-length :
      (events : List StreamEvent) (received : List ℕ) (s s' : Net W) {content : List ℕ}
      → length received ≤ max_bytes
      → read_chunks env max_bytes deadline events received s ≡ (ok content, s')
      → length content ≤ max_bytes
  unfolding read_chunks
  read_chunks-length [] received s s' {content} h e = ground (arith, h, e)
  read_chunks-length (broken tls timeout ∷ rest) received s s' {content} h e = cc
  read_chunks-length (chunk bytes ∷ rest) received s s' {content} h e =
      let (u, t, q, k) =
        >>=-eq-ok (check_deadline env deadline) (λ _. next_chunk rest (received ++ bytes)) s e in
      let joined = received ++ bytes in
      elim (Bool-cases (ltb max_bytes (length joined))) [
        | inl over ↦ ground (arith, over, k)
        | inr within ↦
            let more : read_chunks env max_bytes deadline rest joined t ≡ (ok content, s') =
              ground (arith, within, k) in
            let fits : length joined ≤ max_bytes = ground (arith, within) in
            read_chunks-length rest joined t s' fits more
      ]

  nonempty-length :
      (content : List ℕ) {body : List ℕ}
      → nonempty env content ≡ ok body
      → (body ≡ content) × (0 < length body)
  nonempty-length [] h = cc
  nonempty-length (b ∷ rest) h = ground (arith, h)

  -- the steps after each of the four checks
  abbrev close : List ℕ → Call W (List ℕ)
  close content = lift env (nonempty env content)

  abbrev read : Response → Unit {0} → Call W (List ℕ)
  read r u = read_chunks env max_bytes deadline r.stream [] >>= close

  abbrev timed : Response → Unit {0} → Call W (List ℕ)
  timed r u = check_deadline env deadline >>= read r

  abbrev sized : Response → Unit {0} → Call W (List ℕ)
  sized r u = lift env (check_length env max_bytes r) >>= timed r

  -- A body that is read has at least one byte and at most `max_bytes`.
  pub read_bounded-length :
      (r : Response) (s s' : Net W) {body : List ℕ}
      → read_bounded env max_bytes deadline r s ≡ (ok body, s')
      → (0 < length body) × (length body ≤ max_bytes)
  unfolding read_bounded
  read_bounded-length r s s' {body} h =
      let (u1, s1, q1, k1) = >>=-eq-ok (lift env (validate_content_encoding env r)) (sized r) s h in
      let (u2, s2, q2, k2) = >>=-eq-ok (lift env (check_length env max_bytes r)) (timed r) s1 k1 in
      let (u3, s3, q3, k3) = >>=-eq-ok (check_deadline env deadline) (read r) s2 k2 in
      let (content, s4, q4, k4) =
        >>=-eq-ok (read_chunks env max_bytes deadline r.stream []) close s3 k3 in
      let (same, positive) = nonempty-length content (ap (λ x. x.0) k4) in
      let bound = read_chunks-length r.stream [] s3 s4 (omega arith) q4 in (positive, rw same bound)

  read_chunks-sent :
      (events : List StreamEvent) (received : List ℕ) (s : Net W)
      → (read_chunks env max_bytes deadline events received s).1.sent ≡ s.sent
  unfolding read_chunks
  read_chunks-sent [] received s = refl
  read_chunks-sent (broken tls timeout ∷ rest) received s = refl
  read_chunks-sent (chunk bytes ∷ rest) received s =
      let joined = received ++ bytes in
      >>=-sent (check_deadline env deadline) (λ u. next_chunk rest joined)
        (check_deadline-sent env deadline)
        (λ u t. elim (Bool-cases (ltb max_bytes (length joined))) [
          | inl over ↦ rw over refl
          | inr within ↦ rw within (read_chunks-sent rest joined t)
        ])
        s

  pub read_bounded-sent :
      (r : Response) (s : Net W) → (read_bounded env max_bytes deadline r s).1.sent ≡ s.sent
  unfolding read_bounded
  read_bounded-sent r s =
      >>=-sent (lift env (validate_content_encoding env r)) (sized r) (λ t. refl)
        (λ u.
          >>=-sent (lift env (check_length env max_bytes r)) (timed r) (λ t. refl)
            (λ u.
              >>=-sent (check_deadline env deadline) (read r) (check_deadline-sent env deadline)
                (λ u.
                  >>=-sent (read_chunks env max_bytes deadline r.stream []) close
                    (read_chunks-sent r.stream []) (λ a t. refl))))
        s

  broken-Fails :
      (tls timeout : Bool)
      → Fails {A = List ℕ} (RaisesUnicode env) (err (classify_stream_error tls timeout))
  broken-Fails true timeout = (refl, refl)
  broken-Fails false true = (refl, refl)
  broken-Fails false false = (refl, refl)

  read_chunks-Fails :
      (events : List StreamEvent) (received : List ℕ) (s : Net W)
      → Fails (RaisesUnicode env) (read_chunks env max_bytes deadline events received s).0
  unfolding read_chunks
  read_chunks-Fails [] received s = tt
  read_chunks-Fails (broken tls timeout ∷ rest) received s = broken-Fails tls timeout
  read_chunks-Fails (chunk bytes ∷ rest) received s =
      let joined = received ++ bytes in
      >>=-Fails env (check_deadline env deadline) (λ u. next_chunk rest joined)
        (check_deadline-Fails env deadline)
        (λ u t. elim (Bool-cases (ltb max_bytes (length joined))) [
          | inl over ↦ rw over (refl, refl)
          | inr within ↦ rw within (read_chunks-Fails rest joined t)
        ])
        s

  encoding-Fails : (r : Response) → Fails (RaisesUnicode env) (validate_content_encoding env r)
  unfolding validate_content_encoding
  encoding-Fails r = elim (Bool-cases (any (λ e. not (str_eq e "identity")) (encodings env r))) [
    | inl q ↦ rw q (refl, refl)
    | inr q ↦ rw q tt
  ]

  length-Fails : (r : Response) → Fails (RaisesUnicode env) (check_length env max_bytes r)
  unfolding check_length
  length-Fails r = elim (Bool-cases (is_over max_bytes (content_length env r))) [
    | inl q ↦ rw q (refl, refl)
    | inr q ↦ rw q tt
  ]

  nonempty-Fails : (content : List ℕ) → Fails (RaisesUnicode env) (nonempty env content)
  nonempty-Fails [] = (refl, refl)
  nonempty-Fails (b ∷ rest) = tt

  pub read_bounded-Fails :
      (r : Response) (s : Net W)
      → Fails (RaisesUnicode env) (read_bounded env max_bytes deadline r s).0
  unfolding read_bounded
  read_bounded-Fails r s =
      >>=-Fails env (lift env (validate_content_encoding env r)) (sized r) (λ t. encoding-Fails r)
        (λ u.
          >>=-Fails env (lift env (check_length env max_bytes r)) (timed r) (λ t. length-Fails r)
            (λ u.
              >>=-Fails env (check_deadline env deadline) (read r)
                (check_deadline-Fails env deadline)
                (λ u.
                  >>=-Fails env (read_chunks env max_bytes deadline r.stream []) close
                    (read_chunks-Fails r.stream []) (λ a t. nonempty-Fails a))))
        s
