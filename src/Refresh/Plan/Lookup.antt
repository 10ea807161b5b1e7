-- ===== src/Refresh/Plan/Lookup.antt =====
-- What the two dictionaries over the snapshot answer, where the unique constraints hold.
use daily_firehose.Common.{
  ◌≡◌, ◌≢◌, Bool, true, false, none, some, List, [], ◌∷◌, any, arith, All, Bool-cases, Option-cases,
  inl, inr, ◌⊎◌, ◌==◌, ==-self, str_eq, eq_iff, String, All-weaken,
}
use mathlib.Core.Path.{subst}
use daily_firehose.Refresh.Feed.{Article}
use daily_firehose.Refresh.Plan.{last_match}

-- Two rows with different keys, guids and URLs.
pub record Separate (a b : Article) : Type 0 where
  pub ids : a.id ≢ b.id
  pub guids : a.guid ≢ b.guid
  pub urls : a.url ≢ b.url

-- The primary key and the unique constraints of the table, within one feed.
abbrev pub UniqueRows : List Article → Type 0
UniqueRows [] = Unit
UniqueRows (a ∷ rest) = All (Separate a) rest × UniqueRows rest

pub str_eq-false : (s t : String) → str_eq s t ≡ false → s ≢ t
str_eq-false s t h e = cc (h, (eq_iff s t).1 e)

pub str_ne : (s t : String) → s ≢ t → str_eq s t ≡ false
str_ne s t h = elim (Bool-cases (str_eq s t)) [ inl q ↦ absurd (h ((eq_iff s t).0 q)) | inr q ↦ q ]

module _ (fits : Article → Bool) where
  first :
      (x : Article) (rest : List Article) (a : Article)
      → last_match fits rest ≡ none
      → last_match fits (x ∷ rest) ≡ some a
      → x ≡ a
  unfolding last_match
  first x rest a q e = ground arith

  later :
      (x : Article) (rest : List Article) (a b : Article)
      → last_match fits rest ≡ some b
      → last_match fits (x ∷ rest) ≡ some a
      → b ≡ a
  unfolding last_match
  later x rest a b q e = ground arith

  pub last_match-All {κ} :
      (P : Article → Type κ) (rows : List Article) (a : Article)
      → All P rows
      → last_match fits rows ≡ some a
      → P a
  unfolding last_match
  last_match-All P [] a h e = cc
  last_match-All P (x ∷ rest) a h e = elim (Option-cases (last_match fits rest)) [
    | inl q ↦ subst P (first x rest a q e) h.0
    | inr (b, q) ↦ subst P (later x rest a b q e) (last_match-All P rest b h.1 q)
  ]

  pub last_match-fits :
      (rows : List Article) (a : Article) → last_match fits rows ≡ some a → fits a ≡ true
  unfolding last_match
  last_match-fits [] a e = cc
  last_match-fits (x ∷ rest) a e = ground (arith, last_match-fits rest a)

  pub last_match-present :
      (rows : List Article) (a : Article)
      → last_match fits rows ≡ some a
      → any (λ r. r.id == a.id) rows ≡ true
  unfolding last_match
  last_match-present [] a e = cc
  last_match-present (x ∷ rest) a e = ground (arith, last_match-present rest a, ==-self a.id)

  pub last_match-none :
      (rows : List Article) → last_match fits rows ≡ none → All (λ r. fits r ≡ false) rows
  unfolding last_match
  last_match-none [] e = tt
  last_match-none (x ∷ rest) e = (ground arith, last_match-none rest (ground arith))

  -- Where separate rows never both fit, every other row does not fit.
  pub last_match-others :
      ((x y : Article) → Separate x y → fits y ≡ true → fits x ≡ false)
      → (rows : List Article) (a : Article) → UniqueRows rows
      → last_match fits rows ≡ some a
      → All (λ r. ((r.id == a.id) ≡ true) ⊎ (fits r ≡ false)) rows
  last_match-others apart [] a u e = tt
  last_match-others apart (x ∷ rest) a u e = elim (Option-cases (last_match fits rest)) [
    | inl q ↦
        let same = first x rest a q e in
        (
          inl (subst (λ (b : Article). (x.id == b.id) ≡ true) same (==-self x.id)),
          All-weaken (λ r. fits r ≡ false) (λ r. ((r.id == a.id) ≡ true) ⊎ (fits r ≡ false)) rest
              (λ r p. inr p) (last_match-none rest q),
        )
    | inr (b, q) ↦
        let found = subst (λ c. last_match fits rest ≡ some c) (later x rest a b q e) q in
        (
          inr (
              apart x a (last_match-All (Separate x) rest a u.0 found)
                (last_match-fits rest a found)),
          last_match-others apart rest a u.1 found,
        )
  ]
