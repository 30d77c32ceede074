-- ===== src/Feeds/Alternate.antt =====
-- The link of an Atom entry, for backend/src/newsintel/adapters/collectors/feeds.py.
use newzyfy.Prelude.{
  ◌≡◌, inl, inr, refl, String, Bool, true, Option, none, some, List, [], ◌∷◌, str_eq, or_option,
  ◌&&◌, if◌then◌else◌, sym, ap, ◌∙◌, arith, Bool-cases, Option-cases,
}
use newzyfy.Text.{text_or_option}
use newzyfy.Feeds.{
  Element, attrib, attribute, text_of, children, Xml, local_name, atom_link_from, atom_link,
}

or_option_assoc :
    (a b c : Option String) → or_option (or_option a b) c ≡ or_option a (or_option b c)
or_option_assoc none b c = refl
or_option_assoc (some s) b c = refl

or_option-none : (a : Option String) → or_option a none ≡ a
or_option-none none = refl
or_option-none (some s) = refl

module _ (xml : Xml) where
  -- The target of the first link that has one, among the links that pass a test.
  abbrev href_of : Element → Option String
  href_of e = text_or_option (attribute "href" (attrib e)) none

  abbrev pub target : (Element → Bool) → Element → Option String
  target passes e = if str_eq (local_name xml e) "link" && passes e then href_of e else none

  abbrev pub first_target : (Element → Bool) → List Element → Option String
  first_target passes [] = none
  first_target passes (e ∷ es) = or_option (target passes e) (first_target passes es)

  abbrev pub is_alternate : Element → Bool
  is_alternate e = str_eq (text_of (attribute "rel" (attrib e))) "alternate"

  abbrev pub any_link : Element → Bool
  any_link e = true

  atom_link_from_lem :
      (fallback : Option String) (es : List Element)
      → atom_link_from xml fallback es
        ≡ or_option (first_target is_alternate es) (or_option fallback (first_target any_link es))
  unfolding atom_link_from
  atom_link_from_lem fallback [] = sym (or_option-none fallback)
  atom_link_from_lem fallback (e ∷ es) = elim (Bool-cases (str_eq (local_name xml e) "link")) [
    | inr h ↦ rw h (atom_link_from_lem fallback es)
    | inl h ↦ elim (Option-cases (href_of e)) [
      | inl k ↦ rw (h, k) (ground (arith, atom_link_from_lem fallback es))
      | inr (url, k) ↦ elim (Bool-cases (is_alternate e)) [
        | inl alternate ↦ rw (h, k, alternate) refl
        | inr other ↦
            rw (h, k, other)
              (atom_link_from_lem (or_option fallback (some url)) es
                ∙ ap (λ rest. or_option (first_target is_alternate es) rest)
                    (or_option_assoc fallback (some url) (first_target any_link es)))
      ]
    ]
  ]

  -- The link of an Atom entry is the target of its first alternate link, and of its first link where none is alternate.
  pub atom_link_lem :
      (entry : Element)
      → atom_link xml entry
        ≡ or_option
            (first_target is_alternate (children entry))
            (first_target any_link (children entry))
  unfolding atom_link
  atom_link_lem entry = atom_link_from_lem none (children entry)
