-- ===== src/Webvpn/Cookie/Shape.antt =====
-- The shape of every cookie that parseSetCookie returns.
use wvpn.Base.{
  ℕ, ◌≡◌, ◌≢◌, refl, Bool, true, false, not, ◌||◌, List, [], ◌∷◌, ◌++◌, none, some, All, Bool-cases,
  inl, inr, is_empty, sym, subst, ◌∙◌,
}
use wvpn.Text.{Bytes, cut, split, trim_space}
use wvpn.Text.Laws.{Lacks}
use wvpn.Text.Trim.{IsTrimmed, trim_space_idem, trim_space-Lacks}
use wvpn.Text.Parts.{split-All-Lacks, cut-Lacks, cut-Lacks_of, cut_found}
use wvpn.Webvpn.Cookie.{
  CookieAttr, SetCookie, parse_attr, parse_attrs, parse_parts, parse_set_cookie, pair_value,
}

-- A part between two semicolons: trimmed, not blank, and with no semicolon of its own.
pub record IsPart (p : Bytes) : Type 0 where
  pub trimmed : IsTrimmed p
  pub filled : p ≢ []
  pub whole : Lacks b';' p

abbrev pub IsAttr : CookieAttr → Type 0
IsAttr a = (a ≡ parse_attr a.raw) × IsPart a.raw

pub record IsParsed (sc : SetCookie) : Type 0 where
  pub name_part : IsPart sc.name
  pub name_plain : Lacks b'=' sc.name
  pub pair_part : IsPart sc.pair
  pub before : Bytes
  pub spelled : sc.pair ≡ before ++ (b'=' ∷ pair_value sc)
  pub attrs : All IsAttr sc.attrs

trim_space-IsPart :
    (p : Bytes) → Lacks b';' p → is_empty (trim_space p) ≡ false → IsPart (trim_space p)
trim_space-IsPart p h e = record {
  trimmed = trim_space_idem p;
  filled = λ n. not_nil (trim_space p) e n;
  whole = trim_space-Lacks b';' p h;
}
  where
    not_nil : (s : Bytes) → is_empty s ≡ false → s ≡ [] → ⊥
    not_nil [] e n = cc
    not_nil (c ∷ s) e n = cc

parse_attrs-IsAttr : (ps : List Bytes) → All (Lacks b';') ps → All IsAttr (parse_attrs ps)
unfolding parse_attrs
parse_attrs-IsAttr [] h = tt
parse_attrs-IsAttr (p ∷ ps) h = elim (Bool-cases (is_empty (trim_space p))) [
  | inl e ↦ rw e (parse_attrs-IsAttr ps h.1)
  | inr e ↦ rw e ((attr_raw (trim_space p), raw_part e), parse_attrs-IsAttr ps h.1)
]
  where
    attr_raw : (s : Bytes) → parse_attr s ≡ parse_attr (parse_attr s).raw
    attr_raw s = unfold parse_attr in refl

    raw_part : is_empty (trim_space p) ≡ false → IsPart (parse_attr (trim_space p)).raw
    raw_part e = unfold parse_attr in trim_space-IsPart p h.0 e

append-ne-nil : (x y : Bytes) (c : ℕ) → x ++ (c ∷ y) ≢ []
append-ne-nil [] y c = cc
append-ne-nil (_ ∷ x) y c = cc

module _ (first : Bytes) (rest : List Bytes) where
  abbrev pair : Bytes
  pair = trim_space first

  abbrev parsed : SetCookie
  parsed = record { name = trim_space (cut b'=' pair).0; pair = pair; attrs = parse_attrs rest }

  parsed-IsParsed :
      All (Lacks b';') (first ∷ rest)
      → (cut b'=' pair).2 ≡ true
      → is_empty (trim_space (cut b'=' pair).0) ≡ false
      → IsParsed parsed
  unfolding pair_value
  parsed-IsParsed h found e = record {
    name_part = trim_space-IsPart (cut b'=' pair).0 (cut-Lacks_of b'=' b';' pair lacks).0 e;
    name_plain = trim_space-Lacks b'=' (cut b'=' pair).0 (cut-Lacks b'=' pair);
    pair_part = record {
      trimmed = trim_space_idem first;
      filled = λ n.
          append-ne-nil (cut b'=' pair).0 (cut b'=' pair).1 b'='
            (sym (cut_found b'=' pair found) ∙ n);
      whole = lacks;
    };
    before = (cut b'=' pair).0;
    spelled = cut_found b'=' pair found;
    attrs = parse_attrs-IsAttr rest h.1;
  }
    where
      lacks : Lacks b';' pair
      lacks = trim_space-Lacks b';' first h.0

some_inj : (a b : SetCookie) → some a ≡ some b → a ≡ b
some_inj a b e = cc

both_false : (f e : Bool) → (not f || e) ≡ false → (f ≡ true) × (e ≡ false)
both_false true e h = (refl, h)
both_false false e h = cc

-- The shape of what parseSetCookie returns behind its Split.
parse_parts-IsParsed :
    (ps : List Bytes) (sc : SetCookie)
    → All (Lacks b';') ps
    → parse_parts ps ≡ some sc
    → IsParsed sc
unfolding parse_parts
parse_parts-IsParsed [] sc h e = cc
parse_parts-IsParsed (first ∷ rest) sc h e =
    elim (Bool-cases (
      not (cut b'=' (trim_space first)).2
      || is_empty (trim_space (cut b'=' (trim_space first)).0))) [
        | inl t ↦ let none_some : none ≡ some sc = rw t at e in cc
        | inr t ↦
            let (found, filled) = both_false _ _ t in
            let e' : some (parsed first rest) ≡ some sc = rw t at e in
            subst IsParsed (some_inj _ _ e') (parsed-IsParsed first rest h found filled)
      ]

-- Every cookie that parseSetCookie accepts has this shape.
pub parse_set_cookie-IsParsed :
    (raw : Bytes) (sc : SetCookie) → parse_set_cookie raw ≡ some sc → IsParsed sc
unfolding parse_set_cookie
parse_set_cookie-IsParsed raw sc e =
    parse_parts-IsParsed (split b';' raw) sc (split-All-Lacks b';' raw) e
