-- ===== src/Webvpn/Rewrite/Document/Splice.antt =====
-- The shim goes into a document once, and changes nothing else of it.
use wvpn.Base.{
  ◌≡◌, ◌⊎◌, refl, sym, ap, ◌∙◌, Bool, true, false, not, ◌&&◌, ◌||◌, List, [], ◌∷◌, ◌++◌, Option,
  if◌then◌else◌, is_empty, inl, inr, append_assoc,
}
use wvpn.Text.{Bytes, codes, same}
use wvpn.Webvpn.Url.{Url}
use wvpn.Webvpn.Rewrite.{Rewriter, css, js}
use wvpn.Webvpn.Rewrite.Document.{
  Tag, Token, start, end, text, passed_on, tag, Reading, declared_base, write_token, html_loop,
  html,
}

module _ (rewriter : Rewriter) (refresh : Bytes → Option (Bytes × Bytes))
    (print_tag : Bool → Tag → Bytes) (inject : Bytes) where
  abbrev State : Type 0
  State = Reading rewriter refresh

  abbrev loop : Bytes → State → List Token → Bytes × Bool
  loop shim st ts = html_loop rewriter refresh print_tag shim st ts

  -- Behind the shim, the loop goes on as it does without one.
  loop_quiet :
      (st : State) (ts : List Token)
      → loop inject (record st { injected = true }) ts ≡ loop [] (record st { injected = true }) ts
  unfolding html_loop write_token
  loop_quiet st [] = refl
  loop_quiet st (end raw ∷ ts) =
      ap (λ x. (raw ++ x.0, x.1))
        (loop_quiet (record st { in_style = false; in_script = false }) ts)
  loop_quiet st (passed_on raw ∷ ts) = ap (λ x. (raw ++ x.0, x.1)) (loop_quiet st ts)
  loop_quiet st (text raw ∷ ts) =
      ap
        (λ x. (
          (if st.in_style
                then css rewriter raw st.base
                else if st.in_script
                then js rewriter raw st.base
                else raw)
              ++ x.0,
          x.1,
        ))
        (loop_quiet st ts)
  loop_quiet st (start closed t raw ∷ ts) =
      let (attrs, changed, drop) = tag rewriter refresh st.base t in
      let written =
        if drop
        then []
        else if changed
        then print_tag closed (record { name = t.name; attrs = attrs })
        else raw in
      ap (λ x. (written ++ x.0, x.1))
        (loop_quiet
          (record {
            base = declared_base rewriter refresh st.base t;
            injected = true;
            in_style = not closed && same t.name (codes "style");
            in_script = not closed && same t.name (codes "script");
          })
          ts)

  -- The output with the shim, and whether it is there, beside the output without it.
  Spliced : Bytes × Bool → Bytes → Type 0
  Spliced (out, injected) quiet =
      ((injected ≡ false) × (out ≡ quiet))
      ⊎ ((injected ≡ true)
          × (before : Bytes) × (after : Bytes) × (out ≡ before ++ (inject ++ after))
          × (quiet ≡ before ++ after))

  Spliced-prepend :
      (s : Bytes) (out : Bytes × Bool) (quiet : Bytes)
      → Spliced out quiet
      → Spliced (s ++ out.0, out.1) (s ++ quiet)
  unfolding Spliced
  Spliced-prepend s (out, injected) quiet (inl (n, e)) = inl (n, ap (λ t. s ++ t) e)
  Spliced-prepend s (out, injected) quiet (inr (y, before, after, e, q)) = inr (
    y,
    s ++ before,
    after,
    ap (λ t. s ++ t) e ∙ sym (append_assoc s before (inject ++ after)),
    ap (λ t. s ++ t) q ∙ sym (append_assoc s before after),
  )

  loop_injected :
      (shim : Bytes) (st : State) (ts : List Token)
      → (loop shim (record st { injected = true }) ts).1 ≡ true
  unfolding html_loop write_token
  loop_injected shim st [] = refl
  loop_injected shim st (end raw ∷ ts) =
      loop_injected shim (record st { in_style = false; in_script = false }) ts
  loop_injected shim st (passed_on raw ∷ ts) = loop_injected shim st ts
  loop_injected shim st (text raw ∷ ts) = loop_injected shim st ts
  loop_injected shim st (start closed t raw ∷ ts) =
      loop_injected shim
        (record {
          base = declared_base rewriter refresh st.base t;
          injected = true;
          in_style = not closed && same t.name (codes "style");
          in_script = not closed && same t.name (codes "script");
        })
        ts

  -- At a tag: the shim is written behind it, or the loop goes on.
  at_tag :
      (here : Bool) (written : Bytes) (st : State) (ts : List Token)
      → Spliced
          (loop inject (record st { injected = false }) ts)
          (loop [] (record st { injected = true }) ts).0
      → let rest = loop inject (record st { injected = here }) ts in
        Spliced
          ((if here then written ++ inject else written) ++ rest.0, rest.1)
          (written ++ (loop [] (record st { injected = true }) ts).0)
  unfolding Spliced
  at_tag true written st ts h = inr (
    loop_injected inject st ts,
    written,
    (loop [] (record st { injected = true }) ts).0,
    append_assoc written inject _ ∙ ap (λ x. written ++ (inject ++ x.0)) (loop_quiet st ts),
    refl,
  )
  at_tag false written st ts h =
      Spliced-prepend written (loop inject (record st { injected = false }) ts)
        (loop [] (record st { injected = true }) ts).0 h

  loop-Spliced :
      (st : State) (ts : List Token)
      → Spliced
          (loop inject (record st { injected = false }) ts)
          (loop [] (record st { injected = true }) ts).0
  unfolding html_loop write_token
  loop-Spliced st [] = unfold Spliced in inl (refl, refl)
  loop-Spliced st (end raw ∷ ts) =
      let next : State = record st { in_style = false; in_script = false } in
      Spliced-prepend raw (loop inject (record next { injected = false }) ts)
        (loop [] (record next { injected = true }) ts).0 (loop-Spliced next ts)
  loop-Spliced st (passed_on raw ∷ ts) =
      Spliced-prepend raw (loop inject (record st { injected = false }) ts)
        (loop [] (record st { injected = true }) ts).0 (loop-Spliced st ts)
  loop-Spliced st (text raw ∷ ts) =
      Spliced-prepend
        (if st.in_style
          then css rewriter raw st.base
          else if st.in_script
          then js rewriter raw st.base
          else raw)
        (loop inject (record st { injected = false }) ts)
        (loop [] (record st { injected = true }) ts).0 (loop-Spliced st ts)
  loop-Spliced st (start closed t raw ∷ ts) =
      let (attrs, changed, drop) = tag rewriter refresh st.base t in
      let written =
        if drop
        then []
        else if changed
        then print_tag closed (record { name = t.name; attrs = attrs })
        else raw in
      let next : State = record {
        base = declared_base rewriter refresh st.base t;
        injected = true;
        in_style = not closed && same t.name (codes "style");
        in_script = not closed && same t.name (codes "script");
      } in
      at_tag (same t.name (codes "head") || same t.name (codes "body")) written next ts
        (loop-Spliced next ts)

  in_front :
      (out quiet : Bytes) (injected : Bool)
      → Spliced (out, injected) quiet
      → (before : Bytes) × (after : Bytes) × ((if injected then out else inject ++ out)
          ≡ before ++ (inject ++ after))
        × (quiet ≡ before ++ after)
  unfolding Spliced
  in_front out quiet true (inl (n, e)) = cc
  in_front out quiet false (inl (n, e)) = ([], out, refl, sym e)
  in_front out quiet true (inr (y, before, after, e, q)) = (before, after, e, q)
  in_front out quiet false (inr (y, before, after, e, q)) = cc

  -- The document that HTML writes with a shim is the one that it writes without, and the shim at one place
  -- of it.
  pub html_once :
      (base : Url) (ts : List Token)
      → is_empty inject ≡ false
      → (before : Bytes) × (after : Bytes) × (html rewriter refresh print_tag inject base ts
          ≡ before ++ (inject ++ after))
        × (html rewriter refresh print_tag [] base ts ≡ before ++ after)
  unfolding html
  html_once base ts n =
      let st : State = record {
        base = base;
        injected = true;
        in_style = false;
        in_script = false;
      } in
      let (out, injected) = loop inject (record st { injected = false }) ts in
      let (before, after, e, q) = in_front out (loop [] st ts).0 injected (loop-Spliced st ts) in
      (before, after, rw n e, rw (loop_injected [] st ts) q)
