-- ===== src/Html/Balance.antt =====
-- The stack of skipped tags and its depth in the parser of
-- backend/src/newsintel/adapters/extractors/article_html.py, where a tag is opened and closed.
use newzyfy.Prelude.{
  ℕ, ◌-◌, ◌≡◌, refl, inl, inr, String, Bool, true, false, Option, none, some, List, [], ◌∷◌, ◌++◌,
  length, str_eq, arith, Bool-cases, ltb,
}
use newzyfy.Text.{is_seen}
use newzyfy.Sources.Endpoints.{HtmlEvent, start_tag, text_data, end_tag}
use newzyfy.Html.{Web, ExtractionPolicy}
use newzyfy.Html.Parser.{
  ParserState, TextBlock, pop_skipped, pop_block, open_block, close_block, close_found,
  handle_starttag, handle_endtag, handle_data, add_data, handle, feed, Body,
}

abbrev pub IsBalanced : Body → Type 0
IsBalanced s = s.skip_depth ≡ length s.skip_stack

pop_skipped-length :
    (tag : String) (depth : ℕ) (stack : List String)
    → depth ≡ length stack
    → let (left, rest) = pop_skipped tag depth stack in left ≡ length rest
unfolding pop_skipped
pop_skipped-length tag depth [] h = h
pop_skipped-length tag depth (t ∷ stack) h =
    ground (arith, pop_skipped-length tag (depth - 1) stack (omega arith))

-- A tag that is closed above the kept ones leaves those.
pub pop_skipped-append :
    (tag : String) (depth : ℕ) (upper kept : List String)
    → is_seen tag kept ≡ false
    → is_seen tag (upper ++ kept) ≡ true
    → (left : List String) × ((pop_skipped tag depth (upper ++ kept)).1 ≡ left ++ kept)
unfolding pop_skipped
pop_skipped-append tag depth [] kept h k = cc
pop_skipped-append tag depth (t ∷ upper) kept h k = elim (Bool-cases (str_eq t tag)) [
  | inl e ↦ (upper, rw e)
  | inr e ↦
      let (left, same) = pop_skipped-append tag (depth - 1) upper kept h (rw e at k) in
      (left, rw e same)
]

module _ (web : Web) (base_url : String) (policy : Option ExtractionPolicy) where
  pub open_block-IsBalanced :
      (tag : String) (skipped : Bool) (s : Body)
      → IsBalanced s
      → IsBalanced (open_block web base_url policy tag skipped s)
  unfolding open_block
  open_block-IsBalanced tag skipped s h = ground arith

  close_found-IsBalanced :
      (found : Option (TextBlock × List TextBlock)) (s : Body)
      → IsBalanced s
      → IsBalanced (close_found web base_url policy found s)
  close_found-IsBalanced none s h = h
  close_found-IsBalanced (some (block, stack)) s h = ground arith

  pub close_block-IsBalanced :
      (tag : String) (s : Body) → IsBalanced s → IsBalanced (close_block web base_url policy tag s)
  unfolding close_block
  close_block-IsBalanced tag s h = ground (
    arith,
    pop_skipped-length tag s.skip_depth s.skip_stack h,
    close_found-IsBalanced (pop_block tag s.block_stack) s h,
  )

  close_found-stack :
      (found : Option (TextBlock × List TextBlock)) (s : Body)
      → (close_found web base_url policy found s).skip_stack ≡ s.skip_stack
  close_found-stack none s = refl
  close_found-stack (some (block, stack)) s = ground arith

  pub close_block-stack :
      (tag : String) (s : Body)
      → ltb 0 s.skip_depth ≡ true
      → is_seen tag s.skip_stack ≡ false
      → (close_block web base_url policy tag s).skip_stack ≡ s.skip_stack
  unfolding close_block
  close_block-stack tag s h k = ground (arith, close_found-stack (pop_block tag s.block_stack) s)

  pub close_block-pops :
      (tag : String) (s : Body)
      → ltb 0 s.skip_depth ≡ true
      → is_seen tag s.skip_stack ≡ true
      → (close_block web base_url policy tag s).skip_stack
        ≡ (pop_skipped tag s.skip_depth s.skip_stack).1
  unfolding close_block
  close_block-pops tag s h k = rw (h, k) refl

  handle-IsBalanced :
      (event : HtmlEvent) (s : ParserState)
      → IsBalanced s.body
      → IsBalanced (handle web base_url policy event s).body
  unfolding handle handle_starttag handle_endtag handle_data add_data
  handle-IsBalanced (start_tag tag attrs) s h = open_block-IsBalanced _ _ s.body h
  handle-IsBalanced (end_tag tag) s h = close_block-IsBalanced _ s.body h
  handle-IsBalanced (text_data content) s h = ground arith

  pub feed-IsBalanced :
      (events : List HtmlEvent) (s : ParserState)
      → IsBalanced s.body
      → IsBalanced (feed web base_url policy events s).body
  unfolding feed
  feed-IsBalanced [] s h = h
  feed-IsBalanced (event ∷ events) s h = feed-IsBalanced events _ (handle-IsBalanced event s h)
