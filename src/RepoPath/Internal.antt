-- ===== src/RepoPath/Internal.antt =====
-- The internal string form of lib/src/repo_path.rs: the printers and the parser.
use jj.Prelude.{
  ℕ, ◌≡◌, refl, sym, ap, ◌∙◌, inl, inr, false, none, some, List, [], ◌∷◌, ◌++◌, map, arith, nat_beq,
  is_empty, last, Bool-cases, ◌==◌, nat_eq, option_eq,
}
use mathlib.Core.Option.{some-injective}
use mathlib.Core.List.{append_assoc, append-nil}
use jj.RepoPath.{
  Text, RepoPathComponent, RepoPath, slash, contains_slash, root, grow_first, split_slash,
  ends_with_slash, to_component, component_value, from_internal_string, push_components,
  to_internal_dir_string, join_slash, to_internal_file_string, join,
}

-- Joining what was split at the slashes gives the text back.
join-grow_first :
    (c : ℕ) (t : Text) (ts : List Text)
    → join_slash (grow_first c (t ∷ ts)) ≡ c ∷ join_slash (t ∷ ts)
unfolding join_slash
join-grow_first c t [] = refl
join-grow_first c t (u ∷ us) = refl

split_slash-cons : (s : Text) → (t : Text) × (ts : List Text) × (split_slash s ≡ t ∷ ts)
unfolding split_slash
split_slash-cons [] = ([], [], refl)
split_slash-cons (c ∷ cs) =
    let (t, ts, e) = split_slash-cons cs in
    elim (Bool-cases (nat_beq c slash)) [
      | inl h ↦ ([], split_slash cs, rw h)
      | inr h ↦ (c ∷ t, ts, rw (h, e))
    ]

join_slash-cons :
    (t u : Text) (ts : List Text) → join_slash (t ∷ u ∷ ts) ≡ t ++ slash ∷ join_slash (u ∷ ts)
unfolding join_slash
join_slash-cons t u ts = refl

join-split_slash : (s : Text) → join_slash (split_slash s) ≡ s
unfolding split_slash
join-split_slash [] = unfold join_slash in refl
join-split_slash (c ∷ cs) =
    let (t, ts, e) = split_slash-cons cs in
    let ih : join_slash (t ∷ ts) ≡ cs = ap join_slash (sym e) ∙ join-split_slash cs in
    elim (Bool-cases (nat_beq c slash)) [
      | inl h ↦ rw (h, e, join_slash-cons [] t ts) (ground arith)
      | inr h ↦ rw (h, e, join-grow_first c t ts) (ap (λ l. c ∷ l) ih)
    ]

values-to_component : (ts : List Text) → map component_value (map to_component ts) ≡ ts
values-to_component [] = refl
values-to_component (t ∷ ts) = ap (λ l. t ∷ l) (values-to_component ts)

to_component-values : (cs : List RepoPathComponent) → map to_component (map component_value cs) ≡ cs
to_component-values [] = refl
to_component-values (c ∷ cs) = ap (λ l. c ∷ l) (to_component-values cs)

-- Whatever text the parser accepts is the internal file string of the path that it returns.
pub to_internal_file_string-from_internal_string :
    (s : Text) (p : RepoPath) → from_internal_string s ≡ some p → to_internal_file_string p ≡ s
unfolding from_internal_string to_internal_file_string root join_slash ends_with_slash
to_internal_file_string-from_internal_string s p = go s
  where
    go : (s : Text) → from_internal_string s ≡ some p → to_internal_file_string p ≡ s
    go [] h = ap to_internal_file_string (sym (some-injective _ _ h))
    go (c ∷ cs) h = elim (Bool-cases (ends_with_slash (c ∷ cs))) [
      | inl e ↦
          let panics : from_internal_string (c ∷ cs) ≡ none = rw (e, from_internal_string) in
          cc (h, panics)
      | inr e ↦
          let path : RepoPath = record { components = map to_component (split_slash (c ∷ cs)) } in
          let parsed : some path ≡ some p = rw (e, from_internal_string) at h in
          ap to_internal_file_string (sym (some-injective _ _ parsed))
          ∙ ap join_slash (values-to_component (split_slash (c ∷ cs)))
          ∙ join-split_slash (c ∷ cs)
    ]

-- A component that can be printed and parsed: not empty, and with no slash in it.
pub record IsPlain (c : RepoPathComponent) : Type 0 where
  pub no_slash : contains_slash c.value ≡ false
  pub not_empty : is_empty c.value ≡ false

abbrev pub AllPlain : List RepoPathComponent → Type 0
AllPlain [] = Unit
AllPlain (c ∷ cs) = IsPlain c × AllPlain cs

split_slash_plain : (t : Text) → contains_slash t ≡ false → split_slash t ≡ t ∷ []
unfolding split_slash contains_slash
split_slash_plain [] h = refl
split_slash_plain (c ∷ cs) h = ground (arith, split_slash_plain cs)

split_slash-append :
    (t rest : Text)
    → contains_slash t ≡ false
    → split_slash (t ++ slash ∷ rest) ≡ t ∷ split_slash rest
unfolding split_slash contains_slash
split_slash-append [] rest h = refl
split_slash-append (c ∷ cs) rest h = ground (arith, split_slash-append cs rest)

split-join_slash :
    (c : RepoPathComponent) (cs : List RepoPathComponent)
    → AllPlain (c ∷ cs)
    → split_slash (join_slash (map component_value (c ∷ cs))) ≡ map component_value (c ∷ cs)
unfolding join_slash
split-join_slash c [] v = split_slash_plain c.value v.0.no_slash
split-join_slash c (d ∷ ds) v =
    split_slash-append c.value (join_slash (map component_value (d ∷ ds))) v.0.no_slash
    ∙ ap (λ l. c.value ∷ l) (split-join_slash d ds v.1)

last-append : (xs : Text) (y : ℕ) (ys : Text) → last (xs ++ y ∷ ys) ≡ last (y ∷ ys)
last-append [] y ys = refl
last-append (x ∷ []) y ys = refl
last-append (x ∷ z ∷ xs) y ys = last-append (z ∷ xs) y ys

last_plain : (t : Text) → contains_slash t ≡ false → (last t == some slash) ≡ false
unfolding contains_slash
last_plain [] h = refl
last_plain (c ∷ []) h = ground arith
last_plain (c ∷ d ∷ ds) h = last_plain (d ∷ ds) (ground arith)

is_empty-join_slash :
    (c : RepoPathComponent) (cs : List RepoPathComponent)
    → AllPlain (c ∷ cs)
    → (t : ℕ) × (ts : Text) × (join_slash (map component_value (c ∷ cs)) ≡ t ∷ ts)
unfolding join_slash
is_empty-join_slash c [] v = go c.value v.0.not_empty
  where
    go : (w : Text) → is_empty w ≡ false → (t : ℕ) × (ts : Text) × (w ≡ t ∷ ts)
    go [] h = cc
    go (t ∷ ts) h = (t, ts, refl)
is_empty-join_slash c (d ∷ ds) v =
    go c.value (join_slash (map component_value (d ∷ ds))) v.0.not_empty
  where
    go : (w rest : Text) → is_empty w ≡ false → (t : ℕ) × (ts : Text) × (w ++ slash ∷ rest ≡ t ∷ ts)
    go [] rest h = cc
    go (t ∷ ts) rest h = (t, ts ++ slash ∷ rest, refl)

ends_with_slash-join_slash :
    (c : RepoPathComponent) (cs : List RepoPathComponent)
    → AllPlain (c ∷ cs)
    → ends_with_slash (join_slash (map component_value (c ∷ cs))) ≡ false
unfolding join_slash ends_with_slash
ends_with_slash-join_slash c [] v = last_plain c.value v.0.no_slash
ends_with_slash-join_slash c (d ∷ ds) v =
    let (t, ts, e) = is_empty-join_slash d ds v.1 in
    let shift =
      last-append c.value slash (join_slash (map component_value (d ∷ ds)))
      ∙ ap (λ l. last (slash ∷ l)) e
      ∙ ap last (sym e) in
    ap (λ l. l == some slash) shift ∙ ends_with_slash-join_slash d ds v.1

-- A path whose components are not empty and hold no slash comes back when its internal file string
-- is parsed.
pub from_internal_string-to_internal_file_string :
    (p : RepoPath)
    → AllPlain p.components
    → from_internal_string (to_internal_file_string p) ≡ some p
unfolding from_internal_string to_internal_file_string root
from_internal_string-to_internal_file_string p = go p.components
  where
    go :
        (cs : List RepoPathComponent)
        → AllPlain cs
        → from_internal_string (join_slash (map component_value cs))
          ≡ some (record { components = cs })
    go [] v = unfold join_slash ends_with_slash in refl
    go (c ∷ cs) v =
        let (t, ts, e) = is_empty-join_slash c cs v in
        ground (
          arith,
          e,
          ends_with_slash-join_slash c cs v,
          split-join_slash c cs v,
          to_component-values (c ∷ cs),
        )

push_components-append :
    (result : Text) (cs : List RepoPathComponent)
    → push_components result cs ≡ result ++ push_components [] cs
unfolding push_components
push_components-append result [] = sym (append-nil result)
push_components-append result (c ∷ cs) =
    push_components-append ((result ++ c.value) ++ slash ∷ []) cs
    ∙ regroup (push_components [] cs)
    ∙ ap (λ l. result ++ l) (sym (push_components-append (c.value ++ slash ∷ []) cs))
  where
    regroup :
        (rest : Text)
        → ((result ++ c.value) ++ slash ∷ []) ++ rest ≡ result ++ ((c.value ++ slash ∷ []) ++ rest)
    regroup rest = simp append_assoc

-- The internal directory string of a path, with a base name behind it, is the internal file
-- string of that base name joined to the path.
pub to_internal_dir_string-append :
    (p : RepoPath) (c : RepoPathComponent)
    → to_internal_dir_string p ++ c.value ≡ to_internal_file_string (join p c)
unfolding to_internal_dir_string to_internal_file_string join push_components join_slash
to_internal_dir_string-append p c = go p.components
  where
    go :
        (cs : List RepoPathComponent)
        → push_components [] cs ++ c.value ≡ join_slash (map component_value (cs ++ c ∷ []))
    go [] = refl
    go (d ∷ []) = append_assoc d.value (slash ∷ []) c.value
    go (d ∷ e ∷ es) =
        ap (λ l. l ++ c.value) (push_components-append (d.value ++ slash ∷ []) (e ∷ es))
        ∙ regroup d.value (push_components [] (e ∷ es))
        ∙ ap (λ l. d.value ++ slash ∷ l) (go (e ∷ es))
      where
        regroup :
            (v rest : Text)
            → ((v ++ slash ∷ []) ++ rest) ++ c.value ≡ v ++ slash ∷ (rest ++ c.value)
        regroup v rest = simp append_assoc
