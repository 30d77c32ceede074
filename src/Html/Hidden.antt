-- ===== src/Html/Hidden.antt =====
-- What the parser of backend/src/newsintel/adapters/extractors/article_html.py does with the texts
-- inside a tag that it skips.
use newzyfy.Prelude.{
  ◌≤◌, ◌≡◌, refl, ap, ◌∙◌, inl, inr, String, Bool, true, false, Option, List, [], ◌∷◌, ◌++◌, length,
  All, keep, arith, Bool-cases, ltb, lt→ltb, length-append,
}
use newzyfy.Text.{is_seen}
use newzyfy.Sources.Endpoints.{HtmlEvent, start_tag, text_data, end_tag}
use newzyfy.Html.{Web, ExtractionPolicy}
use newzyfy.Html.Parser.{
  ParserState, initial_state, pop_skipped, open_block, close_block, handle_starttag, handle_endtag,
  handle_data, add_data, handle, feed, Body,
}
use newzyfy.Html.Balance.{
  IsBalanced, pop_skipped-append, open_block-IsBalanced, close_block-IsBalanced, close_block-stack,
  close_block-pops, feed-IsBalanced,
}

abbrev pub is_tag : HtmlEvent → Bool
is_tag (text_data content) = false
is_tag _ = true

-- The tags at the bottom of the stack of skipped tags, of which there is one at least.
abbrev Skips : String → List String → Body → Type 0
Skips tag lower s = IsBalanced s × ((upper : List String) × (s.skip_stack ≡ upper ++ tag ∷ lower))

module _ (web : Web) (base_url : String) (policy : Option ExtractionPolicy) where
  -- The event is no end of a tag among these.
  abbrev Spares : List String → HtmlEvent → Type 0
  Spares kept (end_tag tag) = is_seen (web.lower tag) kept ≡ false
  Spares kept _ = Unit

  module _ (hidden : String) (lower : List String) where
    abbrev kept : List String
    kept = hidden ∷ lower

    open_block-Skips :
        (tag : String) (skipped : Bool) (s : Body)
        → Skips hidden lower s
        → Skips hidden lower (open_block web base_url policy tag skipped s)
    open_block-Skips tag skipped s (balanced, (upper, stack)) = (
      open_block-IsBalanced web base_url policy tag skipped s balanced,
      elim skipped
          as (λ b.
            (u : List String) × ((open_block web base_url policy tag b s).skip_stack
              ≡ u ++ hidden ∷ lower)) [
                | true ↦ (tag ∷ upper, unfold open_block in ap (λ l. tag ∷ l) stack)
                | false ↦ (upper, unfold open_block in ground arith)
              ],
    )

    is_positive : (s : Body) → Skips hidden lower s → ltb 0 s.skip_depth ≡ true
    is_positive s (balanced, (upper, stack)) =
        lt→ltb _ _ (omega (arith, ap length stack, length-append upper kept))

    close_block-Skips :
        (tag : String) (s : Body)
        → Skips hidden lower s
        → is_seen tag kept ≡ false
        → Skips hidden lower (close_block web base_url policy tag s)
    close_block-Skips tag s (balanced, (upper, stack)) spared = (
      close_block-IsBalanced web base_url policy tag s balanced,
      elim (Bool-cases (is_seen tag s.skip_stack)) [
        | inl e ↦
            let (left, same) =
              pop_skipped-append tag s.skip_depth upper kept spared (rw stack at e) in
            (
              left,
              close_block-pops web base_url policy tag s (is_positive s (balanced, (upper, stack)))
                    e
                  ∙ ap (λ l. (pop_skipped tag s.skip_depth l).1) stack
                  ∙ same,
            )
        | inr e ↦ (
          upper,
          close_block-stack web base_url policy tag s (is_positive s (balanced, (upper, stack))) e
              ∙ stack,
        )
      ],
    )

    handle_data-body :
        (content : String) (s : ParserState)
        → Skips hidden lower s.body
        → (handle web base_url policy (text_data content) s).body ≡ s.body
    unfolding handle handle_data add_data
    handle_data-body content s h = ground (arith, is_positive s.body h)

    handle-Skips :
        (event : HtmlEvent) (s : ParserState)
        → Skips hidden lower s.body
        → Spares kept event
        → Skips hidden lower (handle web base_url policy event s).body
    unfolding handle handle_starttag handle_endtag
    handle-Skips (start_tag tag attrs) s h spared = open_block-Skips _ _ s.body h
    handle-Skips (end_tag tag) s h spared = close_block-Skips _ s.body h spared
    handle-Skips (text_data content) s h spared = rw (handle_data-body content s h) h

    same_start :
        (tag : String) (attrs : List (String × Option String)) (s s' : ParserState)
        → s.body ≡ s'.body
        → (handle web base_url policy (start_tag tag attrs) s).body
          ≡ (handle web base_url policy (start_tag tag attrs) s').body
    unfolding handle handle_starttag
    same_start tag attrs s s' same =
        ap
          (λ (b : Body).
            (handle web base_url policy (start_tag tag attrs) (record s { body = b })).body)
          same

    same_end :
        (tag : String) (s s' : ParserState)
        → s.body ≡ s'.body
        → (handle web base_url policy (end_tag tag) s).body
          ≡ (handle web base_url policy (end_tag tag) s').body
    unfolding handle handle_endtag
    same_end tag s s' same =
        ap (λ (b : Body). (handle web base_url policy (end_tag tag) (record s { body = b })).body)
          same

    -- Of two states with one body, one sees all events and the other the tags among them.
    feed-hidden :
        (events : List HtmlEvent) (s s' : ParserState)
        → s.body ≡ s'.body
        → Skips hidden lower s.body
        → All (Spares kept) events
        → ((feed web base_url policy events s).body
            ≡ (feed web base_url policy (keep is_tag events) s').body)
          × Skips hidden lower (feed web base_url policy events s).body
    unfolding feed
    feed-hidden [] s s' same h spared = (same, h)
    feed-hidden (start_tag tag attrs ∷ events) s s' same h spared =
        feed-hidden events _ _ (same_start tag attrs s s' same)
          (handle-Skips (start_tag tag attrs) s h tt) spared.1
    feed-hidden (end_tag tag ∷ events) s s' same h spared =
        feed-hidden events _ _ (same_end tag s s' same) (handle-Skips (end_tag tag) s h spared.0)
          spared.1
    feed-hidden (text_data content ∷ events) s s' same h spared =
        feed-hidden events _ s' (handle_data-body content s h ∙ same)
          (handle-Skips (text_data content) s h tt) spared.1

  -- Once a tag is skipped, the texts that follow change nothing in the blocks, before the tag or one around
  -- it is closed: after any events, with `hidden` the innermost tag on the stack of skipped tags, the
  -- blocks are the same whether or not the texts among the next events are there, as long as no end tag among them
  -- names a tag of that stack; and the depth that is counted is still the height of the stack, which is
  -- not empty.
  pub feed_skips_text :
      (before after : List HtmlEvent) (hidden : String) (lower : List String)
      → (feed web base_url policy before initial_state).body.skip_stack ≡ hidden ∷ lower
      → All (Spares (hidden ∷ lower)) after
      → let s = feed web base_url policy before initial_state in
        ((feed web base_url policy after s).body.blocks
          ≡ (feed web base_url policy (keep is_tag after) s).body.blocks)
        × ((feed web base_url policy after s).body.skip_depth
            ≡ length (feed web base_url policy after s).body.skip_stack)
        × (1 ≤ (feed web base_url policy after s).body.skip_depth)
  feed_skips_text before after hidden lower stack spared =
      let s = feed web base_url policy before initial_state in
      let (same, (balanced, (upper, left))) =
        feed-hidden hidden lower after s s refl
          (feed-IsBalanced web base_url policy before initial_state refl, ([], stack)) spared in
      (
        ap (λ (b : Body). b.blocks) same,
        balanced,
        omega (arith, ap length left, length-append upper (hidden ∷ lower)),
      )
