-- ===== src/Nccl/Healer/Playbook/Templates.antt =====
-- A template that is one token: the parameter of that name takes its place, in whichever order the
-- parameters are put in.
use nemesis.Prelude.{
  ℕ, zero, ◌-◌, true, false, [], ◌∷◌, ◌++◌, ◌≡◌, ◌≢◌, refl, sym, ap, ◌∙◌, inl, inr, All, All-append,
  All→Mem, Mem, Pairs, Bool-cases, ◌==◌, append-nil, length, Lacks, starts_with, replace_from,
  replace, Text, codes, arith,
}
use nemesis.Nccl.Healer.Playbook.{Params, token, expand_template}

-- A text without braces.
abbrev pub Plain : Text → Type 0
Plain t = Lacks b'{' t × Lacks b'}' t

-- Keys without braces, each of them once.
abbrev pub WellKeyed : Params → Type 0
WellKeyed params = All (λ e. Plain e.0) params × Pairs (λ e d. e.0 ≢ d.0) params

starts_with_self : (p s : Text) → starts_with p (p ++ s) ≡ true
starts_with_self [] s = refl
starts_with_self (a ∷ p) s =
    let same : (a == a) ≡ true = ground arith in rw (same) (starts_with_self p s)

replace_from_skip :
    (pat by p s : Text) → replace_from pat by (length p) (p ++ s) ≡ replace_from pat by zero s
unfolding replace_from
replace_from_skip pat by [] s = refl
replace_from_skip pat by (c ∷ p) s = replace_from_skip pat by p s

-- A pattern is replaced in itself.
replace_self : (a : ℕ) (p by : Text) → replace (a ∷ p) (a ∷ p) by ≡ by
unfolding replace_from
replace_self a p by =
    let start = ap (λ t. starts_with (a ∷ p) t) (ap (λ t. a ∷ t) (append-nil p)) in
    let found : starts_with (a ∷ p) (a ∷ p) ≡ true = sym start ∙ starts_with_self (a ∷ p) [] in
    let rest : replace_from (a ∷ p) by (length p) p ≡ [] =
      sym (ap (replace_from (a ∷ p) by (length p)) (append-nil p))
      ∙ replace_from_skip (a ∷ p) by p [] in
    let less : length (a ∷ p) - 1 ≡ length p = omega arith in
    rw (replace_from, found, less, rest, append-nil)

starts_with-Lacks : (a : ℕ) (p s : Text) → Lacks a s → starts_with (a ∷ p) s ≡ false
starts_with-Lacks a p [] h = refl
starts_with-Lacks a p (c ∷ s) h =
    let apart : (a == c) ≡ false = (let test = h.0 in ground arith) in rw (apart)

-- Where its first character does not occur, a pattern is not found.
replace-Lacks : (a : ℕ) (p by s : Text) → Lacks a s → replace s (a ∷ p) by ≡ s
unfolding replace_from
replace-Lacks a p by [] h = refl
replace-Lacks a p by (c ∷ s) h =
    rw (replace_from, starts_with-Lacks a p (c ∷ s) h, replace-Lacks a p by s h.1)

starts_with-key :
    (j k : Text)
    → Lacks b'}' j
    → Lacks b'}' k
    → starts_with (j ++ codes "}}") (k ++ codes "}}") ≡ true
    → j ≡ k
starts_with-key [] [] hj hk h = refl
starts_with-key [] (c ∷ k) hj hk h = let test = hk.0 in ground arith
starts_with-key (a ∷ j) [] hj hk h = let test = hj.0 in ground arith
starts_with-key (a ∷ j) (c ∷ k) hj hk h = ground (arith, starts_with-key j k hj.1 hk.1)

-- A token has no other key's token in it.
replace_other :
    (j k by : Text) → Plain j → Plain k → j ≢ k → replace (token k) (token j) by ≡ token k
unfolding replace_from
replace_other j k by hj hk apart =
    let tail : Lacks b'{' (k ++ codes "}}") = All-append _ k (codes "}}") hk.0 (refl, (refl, tt)) in
    let inner = starts_with-Lacks b'{' (j ++ codes "}}") (k ++ codes "}}") tail in
    let same = replace-Lacks b'{' (b'{' ∷ (j ++ codes "}}")) by (k ++ codes "}}") tail in
    elim (Bool-cases (starts_with (j ++ codes "}}") (k ++ codes "}}"))) [
      | inl e ↦ absurd (apart (starts_with-key j k hj.1 hk.1 e))
      | inr outer ↦ rw (replace_from, outer, inner, same)
    ]

-- A key that is not among the parameters keeps its token.
pub expand_template_absent :
    (k : Text) (params : Params)
    → Plain k
    → All (λ e. Plain e.0) params
    → All (λ e. e.0 ≢ k) params
    → expand_template (token k) params ≡ token k
unfolding expand_template
expand_template_absent k [] hk plain apart = refl
expand_template_absent k ((j, w) ∷ params) hk plain apart =
    ap (λ t. expand_template t params) (replace_other j k w plain.0 hk apart.0)
    ∙ expand_template_absent k params hk plain.1 apart.1

-- A text without an opening brace holds no token.
expand_template-Lacks : (s : Text) (params : Params) → Lacks b'{' s → expand_template s params ≡ s
unfolding expand_template
expand_template-Lacks s [] h = refl
expand_template-Lacks s ((k, v) ∷ params) h =
    ap (λ t. expand_template t params) (replace-Lacks b'{' (b'{' ∷ (k ++ codes "}}")) v s h)
    ∙ expand_template-Lacks s params h

-- Let each key of the parameters occur once and have no brace, and let the value of one key have no
-- opening brace. Then the template that is this key's token expands to the value, whatever the
-- other values are and in whichever order the parameters are put in.
pub expand_template-token :
    (k v : Text) (params : Params)
    → WellKeyed params
    → Mem (k, v) params
    → Lacks b'{' v
    → expand_template (token k) params ≡ v
unfolding expand_template
expand_template-token k v ((j, w) ∷ params) keyed (inl here) h =
    let key : k ≡ j = ap (λ e. e.0) here in
    let val : v ≡ w = ap (λ e. e.1) here in
    rw (← key, ← val)
      (ap (λ t. expand_template t params) (replace_self b'{' (b'{' ∷ (k ++ codes "}}")) v)
        ∙ expand_template-Lacks v params h)
expand_template-token k v ((j, w) ∷ params) keyed (inr there) h =
    let apart = All→Mem (λ e. j ≢ e.0) (k, v) params keyed.1.0 there in
    let plain = All→Mem (λ e. Plain e.0) (k, v) params keyed.0.1 there in
    ap (λ t. expand_template t params) (replace_other j k w keyed.0.0 plain apart)
    ∙ expand_template-token k v params (keyed.0.1, keyed.1.1) there h
expand_template-token k v [] keyed m h = absurd m
