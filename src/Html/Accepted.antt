-- ===== src/Html/Accepted.antt =====
-- Which blocks _extract_paragraph_text of backend/src/newsintel/adapters/extractors/article_html.py takes.
use newzyfy.Prelude.{
  ◌+◌, ◌≤◌, ◌≡◌, ◌⊎◌, inl, inr, refl, ◌∙◌, String, eq_iff, true, false, Option, List, [], ◌∷◌, map,
  length, All, All-map, arith, Bool-cases, or_false,
}
use newzyfy.Text.{is_empty, is_seen, IsDistinct, str_eq_comm}
use newzyfy.Html.{Web, ExtractionPolicy, join, normalize_text}
use newzyfy.Html.Paragraphs.{
  Paragraphs, is_repeated, is_boilerplate, is_short, reject, reject_boilerplate, reject_short,
  accept, take_blocks, extract_paragraph_text,
}

module _ (web : Web) (policy : Option ExtractionPolicy) where
  -- A text that may stand in an article: not empty, not of low value, and not short.
  pub record IsProse (s : String) : Type 0 where
    pub stands : is_empty s ≡ false
    pub valued : is_boilerplate web policy s ≡ false
    pub long : is_short web policy s ≡ false

  abbrev lowered : List String → List String
  lowered = map web.lower

  -- A block without a reason against it is among the accepted ones, or was seen before.
  abbrev pub IsSettled : List String → List String → String → Type 0
  IsSettled seen accepted block =
      let s = normalize_text web block in
      (is_repeated web policy seen s ≡ true)
      ⊎ (is_boilerplate web policy s ≡ true)
      ⊎ (is_short web policy s ≡ true)
      ⊎ (is_seen (web.lower s) (map web.lower accepted) ≡ true)

  record IsSound (seen blocks : List String) (p : Paragraphs) : Type 0 where
    counted : length p.accepted + p.rejected ≡ length blocks
    reasons : p.rejected_boilerplate + p.rejected_short ≤ p.rejected
    prose : All IsProse p.accepted
    fresh : All (λ s. is_seen (web.lower s) seen ≡ false) p.accepted
    distinct : IsDistinct (lowered p.accepted)
    settled : All (IsSettled seen p.accepted) blocks

  fresh_apart :
      (s : String) (seen xs : List String)
      → All (λ x. is_seen (web.lower x) (web.lower s ∷ seen) ≡ false) xs
      → is_seen (web.lower s) (lowered xs) ≡ false
  fresh_apart s seen [] h = refl
  fresh_apart s seen (x ∷ xs) h =
      let apart = or_false _ _ h.0 in
      rw (str_eq_comm (web.lower x) (web.lower s) ∙ apart.0) (fresh_apart s seen xs h.1)

  IsSettled-with :
      (s : String) (seen accepted : List String) (block : String)
      → IsSettled (web.lower s ∷ seen) accepted block
      → IsSettled seen (s ∷ accepted) block
  IsSettled-with s seen accepted block (inl e) =
      elim (Bool-cases (is_repeated web policy seen (normalize_text web block))) [
        | inl f ↦ inl f
        | inr f ↦ inr (inr (inr (ground arith)))
      ]
  IsSettled-with s seen accepted block (inr (inl e)) = inr (inl e)
  IsSettled-with s seen accepted block (inr (inr (inl e))) = inr (inr (inl e))
  IsSettled-with s seen accepted block (inr (inr (inr e))) = inr (inr (inr (ground arith)))

  All-IsSettled :
      (s : String) (seen accepted blocks : List String)
      → All (IsSettled (web.lower s ∷ seen) accepted) blocks
      → All (IsSettled seen (s ∷ accepted)) blocks
  All-IsSettled s seen accepted =
      All-map (IsSettled (web.lower s ∷ seen) accepted) (IsSettled seen (s ∷ accepted))
        (IsSettled-with s seen accepted)

  module _ (seen blocks : List String) (block : String) (p : Paragraphs) where
    -- A block that is rejected for a reason.
    module _ (h : IsSound seen blocks p) (reason : IsSettled seen p.accepted block) where
      reject-IsSound : IsSound seen (block ∷ blocks) (reject web policy p)
      reject-IsSound = record {
        counted = omega (arith, h.counted);
        reasons = omega (arith, h.reasons);
        prose = h.prose;
        fresh = h.fresh;
        distinct = h.distinct;
        settled = (reason, h.settled);
      }

      reject_boilerplate-IsSound : IsSound seen (block ∷ blocks) (reject_boilerplate web policy p)
      reject_boilerplate-IsSound = record {
        counted = omega (arith, h.counted);
        reasons = omega (arith, h.reasons);
        prose = h.prose;
        fresh = h.fresh;
        distinct = h.distinct;
        settled = (reason, h.settled);
      }

      reject_short-IsSound : IsSound seen (block ∷ blocks) (reject_short web policy p)
      reject_short-IsSound = record {
        counted = omega (arith, h.counted);
        reasons = omega (arith, h.reasons);
        prose = h.prose;
        fresh = h.fresh;
        distinct = h.distinct;
        settled = (reason, h.settled);
      }

    accept-IsSound :
        let s = normalize_text web block in
        IsSound (web.lower s ∷ seen) blocks p
        → IsProse s
        → is_seen (web.lower s) seen ≡ false
        → IsSound seen (block ∷ blocks) (accept web policy s p)
    accept-IsSound h prose new =
        let s = normalize_text web block in
        record {
          counted = omega (arith, h.counted);
          reasons = h.reasons;
          prose = (prose, h.prose);
          fresh = (
            new,
            All-map (λ x. is_seen (web.lower x) (web.lower s ∷ seen) ≡ false)
                (λ x. is_seen (web.lower x) seen ≡ false) (λ x k. (or_false _ _ k).1) p.accepted
                h.fresh,
          );
          distinct = (fresh_apart s seen p.accepted h.fresh, h.distinct);
          settled = (
            inr (inr (inr (rw ((eq_iff (web.lower s) (web.lower s)).1 refl) refl))),
            All-IsSettled s seen p.accepted blocks h.settled,
          );
        }

  take_blocks-IsSound :
      (seen blocks : List String) → IsSound seen blocks (take_blocks web policy seen blocks)
  unfolding take_blocks
  take_blocks-IsSound seen [] = record {
    counted = refl;
    reasons = omega arith;
    prose = tt;
    fresh = tt;
    distinct = tt;
    settled = tt;
  }
  take_blocks-IsSound seen (block ∷ blocks) =
      let s = normalize_text web block in
      let ih = take_blocks-IsSound seen blocks in
      let accepting = take_blocks-IsSound (web.lower s ∷ seen) blocks in
      elim (Bool-cases (is_repeated web policy seen s)) [
        | inl e ↦ rw e (reject-IsSound seen blocks block _ ih (inl e))
        | inr e ↦ elim (Bool-cases (is_boilerplate web policy s)) [
          | inl f ↦ rw (e, f) (reject_boilerplate-IsSound seen blocks block _ ih (inr (inl f)))
          | inr f ↦ elim (Bool-cases (is_short web policy s)) [
            | inl g ↦ rw (e, f, g) (reject_short-IsSound seen blocks block _ ih (inr (inr (inl g))))
            | inr g ↦
                rw (e, f, g)
                  (accept-IsSound seen blocks block _ accepting
                    (record { stands = (or_false _ _ e).0; valued = f; long = g })
                    (or_false _ _ e).1)
          ]
        ]
      ]

  -- The blocks that are accepted are joined to the text. Each of them has
  -- 40 characters at least or ends like a sentence, none is empty or holds a phrase of low value, and no two are
  -- equal in lower case. Every block is counted once, as accepted or as rejected, and the rejections for
  -- boilerplate and for shortness are among the rejections. A block that is not accepted is empty, boilerplate or short, or
  -- equals an accepted one in lower case.
  pub extract_paragraph_text-IsProse :
      (blocks : List String)
      → let result = extract_paragraph_text web policy blocks in
        (accepted : List String) × (result.text ≡ join "\n\n" accepted)
        × (result.accepted_block_count ≡ length accepted)
        × (length accepted + result.rejected_block_count ≡ length blocks)
        × (result.rejected_boilerplate_count + result.rejected_short_count
            ≤ result.rejected_block_count)
        × All IsProse accepted
        × IsDistinct (map web.lower accepted)
        × All (IsSettled [] accepted) blocks
  unfolding extract_paragraph_text
  extract_paragraph_text-IsProse blocks =
      let sound = take_blocks-IsSound [] blocks in
      (_, refl, refl, sound.counted, sound.reasons, sound.prose, sound.distinct, sound.settled)
