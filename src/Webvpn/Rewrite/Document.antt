-- ===== src/Webvpn/Rewrite/Document.antt =====
-- internal/webvpn/rewrite.go: tag and HTML, on the tokens of a document.
pub mod Splice
use wvpn.Base.{
  ℕ, ◌≡◌, refl, ap, ◌∙◌, Bool, true, false, not, ◌&&◌, ◌||◌, List, [], ◌∷◌, ◌++◌, Option, none,
  some, if◌then◌else◌, is_empty, any, ◌==◌,
}
use wvpn.Text.{Bytes, codes, same, trim_space, trim_both, to_lower}
use wvpn.Webvpn.Url.{Url, scheme_supported}
use wvpn.Webvpn.Rewrite.{Rewriter, ref, css, js}
use wvpn.Webvpn.Rewrite.Srcset.{srcset}

-- html.Token, as far as tag goes by it.
pub record Tag : Type 0 where
  pub name : Bytes
  pub attrs : List (Bytes × Bytes)

-- What the tokenizer gives: the bytes of Raw as they are when HTML writes them, which for a start tag is
-- after Token has been called, and for a start tag what Token gives and whether it closes itself.
pub data Token : Type 0 where
  start : Bool → Tag → Bytes → Token
  end text passed_on : Bytes → Token

-- urlAttrs: the elements, and the attributes of each that hold one URL.
abbrev pub url_attrs : List (Bytes × List Bytes)
url_attrs =
    (codes "a", codes "href" ∷ [])
    ∷ (codes "area", codes "href" ∷ [])
    ∷ (codes "audio", codes "src" ∷ [])
    ∷ (codes "base", codes "href" ∷ [])
    ∷ (codes "blockquote", codes "cite" ∷ [])
    ∷ (codes "body", codes "background" ∷ [])
    ∷ (codes "button", codes "formaction" ∷ [])
    ∷ (codes "del", codes "cite" ∷ [])
    ∷ (codes "embed", codes "src" ∷ [])
    ∷ (codes "form", codes "action" ∷ [])
    ∷ (codes "frame", codes "src" ∷ codes "longdesc" ∷ [])
    ∷ (codes "iframe", codes "src" ∷ codes "longdesc" ∷ [])
    ∷ (codes "image", codes "href" ∷ [])
    ∷ (codes "img", codes "src" ∷ codes "longdesc" ∷ [])
    ∷ (codes "input", codes "src" ∷ codes "formaction" ∷ [])
    ∷ (codes "ins", codes "cite" ∷ [])
    ∷ (codes "link", codes "href" ∷ [])
    ∷ (codes "object", codes "data" ∷ codes "codebase" ∷ [])
    ∷ (codes "q", codes "cite" ∷ [])
    ∷ (codes "script", codes "src" ∷ [])
    ∷ (codes "source", codes "src" ∷ [])
    ∷ (codes "table", codes "background" ∷ [])
    ∷ (codes "td", codes "background" ∷ [])
    ∷ (codes "th", codes "background" ∷ [])
    ∷ (codes "track", codes "src" ∷ [])
    ∷ (codes "use", codes "href" ∷ [])
    ∷ (codes "video", codes "src" ∷ codes "poster" ∷ [])
    ∷ []

abbrev pub holds_url : Bytes → Bytes → Bool
holds_url name key =
    same key (codes "xlink:href")
    || any (λ row. same row.0 name && any (λ k. same k key) row.1) url_attrs

-- srcsetAttrs[name], which is empty where the map has no entry.
abbrev pub srcset_attr : Bytes → Bytes
srcset_attr name =
    if same name (codes "img") || same name (codes "source")
    then codes "srcset"
    else if same name (codes "link")
    then codes "imagesrcset"
    else []

abbrev pub holds_srcset : Bytes → Bytes → Bool
holds_srcset name key = same key (srcset_attr name)

-- droppedAttrs
abbrev pub is_dropped : Bytes → Bool
is_dropped key = same key (codes "integrity") || same key (codes "crossorigin")

-- baseHref
unfoldable pub base_href : List (Bytes × Bytes) → Option Bytes
unfolding same
base_href [] = none
base_href ((key, val) ∷ attrs) =
    let rest = base_href attrs in if same key (codes "href") then some val else rest

module _ (rw' : Rewriter) where
  -- The value of an attribute that stays, in the loop of tag.
  unfoldable pub new_value : Url → Bytes → Bytes → Bytes → Bytes
  unfolding same css srcset ref
  new_value base name key val =
      let r = ref rw' val base in
      if same key (codes "style")
      then css rw' val base
      else if holds_srcset name key
      then srcset rw' base val
      else if holds_url name key && not (is_empty r)
      then r
      else val

  -- The loop of tag: the attributes, and whether one has changed. A URL counts as changed where Ref gives
  -- one.
  unfoldable pub tag_attrs : Url → Bytes → List (Bytes × Bytes) → List (Bytes × Bytes) × Bool
  unfolding new_value same ref
  tag_attrs base name [] = ([], false)
  tag_attrs base name ((key, val) ∷ attrs) =
      let (rest, changed) = tag_attrs base name attrs in
      let v = new_value base name key val in
      let single =
        not (same key (codes "style")) && not (holds_srcset name key) && holds_url name key in
      let touched = not (same v val) || (single && not (is_empty (ref rw' val base))) in
      if is_dropped key then (rest, true) else ((key, v) ∷ rest, touched || changed)

  -- The last http-equiv of a tag, cleaned.
  unfoldable pub http_equiv : Bytes → List (Bytes × Bytes) → Bytes
  unfolding same to_lower trim_space
  http_equiv found [] = found
  http_equiv found ((key, val) ∷ attrs) =
      let next = if same key (codes "http-equiv") then to_lower (trim_space val) else found in
      http_equiv next attrs

  -- metaRefreshRe, which is given: what stands before the address, and the address.
  module _ (refresh : Bytes → Option (Bytes × Bytes)) where
    unfoldable pub refresh_attrs : Url → List (Bytes × Bytes) → List (Bytes × Bytes) × Bool
    unfolding same trim_space trim_both ref
    refresh_attrs base [] = ([], false)
    refresh_attrs base ((key, val) ∷ attrs) =
        let (rest, changed) = refresh_attrs base attrs in
        elim (refresh val) [
          | none ↦ ((key, val) ∷ rest, changed)
          | some (before, address) ↦
              let r = ref rw' (trim_both (λ c. c == 39 || c == b'"') (trim_space address)) base in
              if same key (codes "content") && not (is_empty r)
              then ((key, before ++ r) ∷ rest, true)
              else ((key, val) ∷ rest, changed)
        ]

    -- tag: the attributes, whether they have changed, and whether the tag is dropped.
    unfoldable pub tag : Url → Tag → List (Bytes × Bytes) × Bool × Bool
    unfolding same http_equiv refresh_attrs tag_attrs
    tag base t =
        let equiv = http_equiv [] t.attrs in
        let (refreshed, moved) = refresh_attrs base t.attrs in
        let (attrs, changed) = tag_attrs base t.name t.attrs in
        let meta = same t.name (codes "meta") in
        if meta
          && (same equiv (codes "content-security-policy")
              || same equiv (codes "content-security-policy-report-only"))
        then (t.attrs, false, true)
        else if meta && same equiv (codes "refresh")
        then (refreshed, moved, false)
        else (attrs, changed, false)

    -- The state of HTML's loop: the base, whether the shim is in place, and whether the text is that of a
    -- style sheet or of a script.
    pub record Reading : Type 0 where
      pub base : Url
      pub injected : Bool
      pub in_style : Bool
      pub in_script : Bool

    -- The base that a <base> tag declares, its href measured from the document's.
    unfoldable pub declared_base : Url → Tag → Url
    unfolding same trim_space scheme_supported base_href
    declared_base base t =
        if not (same t.name (codes "base")) then base else elim (base_href t.attrs) [
          | none ↦ base
          | some href ↦ elim (rw'.lib.resolve base (trim_space href)) [
            | none ↦ base
            | some u ↦ if scheme_supported u.scheme then u else base
          ]
        ]

    -- `print_tag` is Token.String.
    module _ (print_tag : Bool → Tag → Bytes) (inject : Bytes) where
      -- What HTML writes for one token, and the state behind it.
      unfoldable pub write_token : Reading → Token → Bytes × Reading
      unfolding tag declared_base css js same
      write_token st (end raw) = (raw, record st { in_style = false; in_script = false })
      write_token st (passed_on raw) = (raw, st)
      write_token st (text raw) = (
        if st.in_style
            then css rw' raw st.base
            else if st.in_script
            then js rw' raw st.base
            else raw,
        st,
      )
      write_token st (start closed t raw) =
          let (attrs, changed, drop) = tag st.base t in
          let here =
            not st.injected && (same t.name (codes "head") || same t.name (codes "body")) in
          let written =
            if drop
            then []
            else if changed
            then print_tag closed (record { name = t.name; attrs = attrs })
            else raw in
          (
            if here then written ++ inject else written,
            record {
              base = declared_base st.base t;
              injected = st.injected || here;
              in_style = not closed && same t.name (codes "style");
              in_script = not closed && same t.name (codes "script");
            },
          )

      -- The loop of HTML: the document, and whether the shim is in it.
      unfoldable pub html_loop : Reading → List Token → Bytes × Bool
      unfolding write_token
      html_loop st [] = ([], st.injected)
      html_loop st (t ∷ ts) =
          let (out, next) = write_token st t in
          let (rest, injected) = html_loop next ts in (out ++ rest, injected)

      -- HTML
      unfoldable pub html : Url → List Token → Bytes
      unfolding html_loop
      html base ts =
          let (out, injected) =
            html_loop
              (record {
                base = base;
                injected = is_empty inject;
                in_style = false;
                in_script = false;
              })
              ts in
          if injected then out else inject ++ out
