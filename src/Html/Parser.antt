-- ===== src/Html/Parser.antt =====
-- _ArticleHTMLParser of backend/src/newsintel/adapters/extractors/article_html.py. Of the two stacks the
-- top stands first.
use newzyfy.Prelude.{
  ℕ, ◌+◌, ◌-◌, String, Bool, false, ◌&&◌, ◌||◌, Option, none, some, List, [], ◌∷◌, ◌++◌, str_eq,
  ltb, ◌==◌, if◌then◌else◌,
}
use newzyfy.Text.{is_empty, is_seen}
use newzyfy.Sources.Endpoints.{HtmlEvent, start_tag, text_data, end_tag}
use newzyfy.Html.{Web, ExtractionPolicy, join, normalize_text}
use newzyfy.Html.Tags.{Head, read_tag, close_title, close_script}
use newzyfy.Html.Attributes.{should_skip_by_attributes, attr_map}

pub record TextBlock : Type 0 where
  pub tag : String
  pub pieces : List String

-- The blocks, and what is skipped.
pub record Body : Type 0 where
  pub blocks : List String
  pub skip_depth : ℕ
  pub skip_stack : List String
  pub block_stack : List TextBlock

pub record ParserState : Type 0 where
  pub head : Head
  pub body : Body

abbrev pub initial_state : ParserState
initial_state = record {
  head = record {
    title_parts = [];
    meta = [];
    links = [];
    json_ld_scripts = [];
    html_language = none;
    in_title = false;
    capture_json_ld = false;
    script_parts = [];
  };
  body = record { blocks = []; skip_depth = 0; skip_stack = []; block_stack = [] };
}

abbrev skip_tags : List String
skip_tags =
    "script" ∷ "style" ∷ "noscript" ∷ "svg" ∷ "canvas" ∷ "iframe" ∷ "nav" ∷ "header" ∷ "footer"
    ∷ "aside" ∷ "form" ∷ "button" ∷ "select" ∷ "textarea" ∷ []

abbrev block_tags : List String
block_tags = "p" ∷ "li" ∷ "blockquote" ∷ "h1" ∷ "h2" ∷ "h3" ∷ "h4" ∷ "h5" ∷ "h6" ∷ []

-- The top of the stack takes one more piece.
abbrev add_piece : String → List TextBlock → List TextBlock
add_piece s [] = []
add_piece s (block ∷ stack) = record block { pieces = block.pieces ++ s ∷ [] } ∷ stack

-- The `while` loop of handle_endtag: the depth and the stack.
unfoldable pub pop_skipped : String → ℕ → List String → ℕ × List String
pop_skipped tag_name depth [] = (depth, [])
pop_skipped tag_name depth (skipped ∷ stack) =
    let rest = pop_skipped tag_name (depth - 1) stack in
    if str_eq skipped tag_name then (depth - 1, stack) else rest

-- The innermost block of a tag, and the stack without it.
abbrev after_block :
    TextBlock → Option (TextBlock × List TextBlock) → Option (TextBlock × List TextBlock)
after_block block none = none
after_block block (some (found, stack)) = some (found, block ∷ stack)

unfoldable pub pop_block : String → List TextBlock → Option (TextBlock × List TextBlock)
pop_block tag_name [] = none
pop_block tag_name (block ∷ stack) =
    let rest = after_block block (pop_block tag_name stack) in
    if str_eq block.tag tag_name then some (block, stack) else rest

module _ (web : Web) (base_url : String) (policy : Option ExtractionPolicy) where
  abbrev Attributes : Type 0
  Attributes = List (String × String)

  abbrev skips : String → Attributes → Bool
  skips tag_name attrs =
      is_seen tag_name skip_tags || should_skip_by_attributes web policy tag_name attrs

  -- The end of handle_starttag.
  unfoldable pub open_block : String → Bool → Body → Body
  open_block tag_name skipped s =
      if skipped
      then record s { skip_depth = s.skip_depth + 1; skip_stack = tag_name ∷ s.skip_stack }
      else if s.skip_depth == 0 && is_seen tag_name block_tags
      then record s { block_stack = record { tag = tag_name; pieces = [] } ∷ s.block_stack }
      else s

  abbrev handle_named : String → Attributes → ParserState → ParserState
  handle_named tag_name attrs s = record {
    head = read_tag web base_url tag_name attrs s.head;
    body = open_block tag_name (skips tag_name attrs) s.body;
  }

  unfoldable pub handle_starttag :
      String → List (String × Option String) → ParserState → ParserState
  handle_starttag tag attrs s = handle_named (web.lower tag) (attr_map web attrs) s

  -- A block that is closed: its text is stored, and also joins the block around it.
  abbrev store_block : String → List TextBlock → Body → Body
  store_block content stack s =
      if is_empty content
      then record s { block_stack = stack }
      else record s { blocks = s.blocks ++ content ∷ []; block_stack = add_piece content stack }

  abbrev pub close_found : Option (TextBlock × List TextBlock) → Body → Body
  close_found none s = s
  close_found (some (block, stack)) s =
      store_block (normalize_text web (join " " block.pieces)) stack s

  -- The end of handle_endtag, from its test of the skipped tags on.
  unfoldable pub close_block : String → Body → Body
  close_block tag_name s =
      if ltb 0 s.skip_depth && is_seen tag_name s.skip_stack
      then (let (depth, stack) = pop_skipped tag_name s.skip_depth s.skip_stack in
          record s { skip_depth = depth; skip_stack = stack })
      else if is_seen tag_name block_tags
      then close_found (pop_block tag_name s.block_stack) s
      else s

  unfoldable pub handle_endtag : String → ParserState → ParserState
  handle_endtag tag s =
      let tag_name = web.lower tag in
      record {
        head = close_script web base_url tag_name (close_title web base_url tag_name s.head);
        body = close_block tag_name s.body;
      }

  -- The last two tests of handle_data.
  unfoldable pub add_data : String → Body → Body
  add_data content s =
      if ltb 0 s.skip_depth then s else record s { block_stack = add_piece content s.block_stack }

  unfoldable pub handle_data : String → ParserState → ParserState
  handle_data content s =
      if s.head.capture_json_ld
      then record s { head = record s.head { script_parts = s.head.script_parts ++ content ∷ [] } }
      else if s.head.in_title
      then record s { head = record s.head { title_parts = s.head.title_parts ++ content ∷ [] } }
      else record s { body = add_data content s.body }

  unfoldable pub handle : HtmlEvent → ParserState → ParserState
  unfolding handle_starttag handle_endtag handle_data
  handle (start_tag tag attrs) s = handle_starttag tag attrs s
  handle (end_tag tag) s = handle_endtag tag s
  handle (text_data content) s = handle_data content s

  -- parser.feed, over what HTMLParser reports.
  unfoldable pub feed : List HtmlEvent → ParserState → ParserState
  feed [] s = s
  feed (event ∷ events) s = feed events (handle event s)
