-- ===== src/Claims/Extraction.antt =====
-- The claims that extract_claims of backend/src/newsintel/domain/intelligence/claims.py returns.
use newzyfy.Prelude.{
  ℕ, zero, suc, ◌+◌, ◌-◌, Option, none, some, ◌≤◌, ◌<◌, ◌≡◌, refl, inl, inr, String, Bool, true,
  false, List, [], ◌∷◌, length, leb, leb→le, All, All-map, IsSorted, arith, Bool-cases, and_true,
}
use newzyfy.Claims.{
  Language, ExtractedClaim, claim_score, claim_features, split_sentences, extract_from,
  extract_claims,
}

claim_score-le :
    (signals words : ℕ) (speculates : Bool) → claim_score signals words speculates ≤ 1000000
unfolding claim_score
claim_score-le signals words true = omega arith
claim_score-le signals words false = omega arith

-- sentences[i]
abbrev pub get_elem? : List String → ℕ → Option String
get_elem? [] i = none
get_elem? (s ∷ sentences) zero = some s
get_elem? (s ∷ sentences) (suc i) = get_elem? sentences i

get_elem?-later :
    (s text : String) (sentences : List String) (index i : ℕ)
    → suc index ≤ i
    → get_elem? sentences (i - suc index) ≡ some text
    → get_elem? (s ∷ sentences) (i - index) ≡ some text
get_elem?-later s text sentences index i low h =
    let step : i - index ≡ suc (i - suc index) = omega arith in rw step h

module _ (language : Language) where
  -- A claim of one of these sentences, the first of which has the given index: it has the text of the
  -- sentence that its index names, which passes the test of its features.
  abbrev pub IsClaim : ℕ → List String → ExtractedClaim → Type 0
  IsClaim first sentences c =
      (first ≤ c.sentence_index)
      × (get_elem? sentences (c.sentence_index - first) ≡ some c.text)
      × (c.features ≡ claim_features language c.text)
      × (c.features.is_claim_candidate ≡ true)
      × (8 ≤ c.features.word_count)
      × (c.features.word_count ≤ 80)
      × (2 ≤ c.features.signal_count)
      × (c.features.score ≤ 1000000)

  abbrev pub Precedes : ExtractedClaim → ExtractedClaim → Type 0
  Precedes a b = a.sentence_index < b.sentence_index

  claim_features-IsClaim :
      (sentence : String) (index : ℕ) (sentences : List String)
      → (claim_features language sentence).is_claim_candidate ≡ true
      → IsClaim index (sentence ∷ sentences) (record {
        text = sentence;
        sentence_index = index;
        features = claim_features language sentence;
      })
  unfolding claim_features
  claim_features-IsClaim sentence index sentences h =
      let signals = and_true _ _ h in
      let words = and_true _ _ (and_true _ _ (and_true _ _ signals.0).0).0 in
      let low = words.0 in
      let high = words.1 in
      let enough = signals.1 in
      (
        omega arith,
        (let here : index - index ≡ 0 = omega arith in rw here refl),
        refl,
        h,
        leb→le _ _ low,
        leb→le _ _ high,
        leb→le _ _ enough,
        claim_score-le _ _ _,
      )

  later :
      (sentence : String) (index : ℕ) (sentences : List String) (claims : List ExtractedClaim)
      → All (IsClaim (suc index) sentences) claims
      → All (IsClaim index (sentence ∷ sentences)) claims
  later sentence index sentences =
      All-map (IsClaim (suc index) sentences) (IsClaim index (sentence ∷ sentences)) (λ c h.
        let low = h.0 in
        (
          omega arith,
          get_elem?-later sentence c.text sentences index c.sentence_index low h.1,
          h.2,
          h.3,
          h.4,
          h.5,
          h.6,
          h.7,
        ))

  after :
      (claim : ExtractedClaim) (index : ℕ) (sentences : List String) (claims : List ExtractedClaim)
      → claim.sentence_index ≤ index
      → All (IsClaim (suc index) sentences) claims
      → All (Precedes claim) claims
  after claim index sentences claims h =
      All-map (IsClaim (suc index) sentences) (Precedes claim) (λ c k. let low = k.0 in omega arith)
        claims

  extract_from-IsClaim :
      (max_claims index count : ℕ) (sentences : List String)
      → count < max_claims
      → let claims = extract_from language max_claims index count sentences in
        All (IsClaim index sentences) claims
        × IsSorted Precedes claims
        × (count + length claims ≤ max_claims)
  unfolding extract_from
  extract_from-IsClaim max_claims index count [] h = (tt, tt, omega arith)
  extract_from-IsClaim max_claims index count (sentence ∷ sentences) h =
      elim (Bool-cases (claim_features language sentence).is_claim_candidate) [
        | inl e ↦ elim (Bool-cases (leb max_claims (suc count))) [
          | inl f ↦
              rw (e, f, extract_from)
                ((claim_features-IsClaim sentence index sentences e, tt), (tt, tt), omega arith)
          | inr f ↦
              let rest =
                extract_from-IsClaim max_claims (suc index) (suc count) sentences (ground arith) in
              let claim : ExtractedClaim = record {
                text = sentence;
                sentence_index = index;
                features = claim_features language sentence;
              } in
              rw (e, f, extract_from)
                (
                  (
                    claim_features-IsClaim sentence index sentences e,
                    later sentence index sentences _ rest.0,
                  ),
                  (after claim index sentences _ (omega arith) rest.0, rest.1),
                  omega (arith, rest.2),
                )
        ]
        | inr e ↦ elim (Bool-cases (leb max_claims count)) [
          | inl f ↦ absurd (ground arith)
          | inr f ↦
              let rest = extract_from-IsClaim max_claims (suc index) count sentences h in
              rw (e, f, extract_from) (later sentence index sentences _ rest.0, rest.1, rest.2)
        ]
      ]

  -- Where at least one claim is allowed, extract_claims returns at most as many as are; each has the text
  -- of the sentence of the text that its index names, and that sentence passes the test: 8 to 80 words,
  -- two signals or more, a score of at most 1; and the indices rise.
  pub extract_claims-IsClaim :
      (body : String) (max_claims : ℕ)
      → 1 ≤ max_claims
      → let claims = extract_claims language body max_claims in
        All (IsClaim 0 (split_sentences language body)) claims
        × IsSorted Precedes claims
        × (length claims ≤ max_claims)
  extract_claims-IsClaim body max_claims h =
      let found = extract_from-IsClaim max_claims 0 0 (split_sentences language body) h in
      (found.0, found.1, omega (arith, found.2))
