-- ===== src/Nccl/Healer/Playbook/Excluded.antt =====
-- Which ranks a step takes away whose `exclude_ranks` is one token.
use nemesis.Prelude.{
  ℕ, ◌+◌, ◌<◌, ◌^◌, true, false, List, [], ◌∷◌, ◌++◌, none, some, map, ◌≡◌, ◌≢◌, refl, ap, ◌∙◌,
  Text, codes, text_get, All, All-map, All-append, Mem, Lacks, is_digit, decimal, decimal-digits,
  join, behind, split, trim, trim_end, keep_end, parse_unsigned, parse_digits, ◌==◌, arith,
  split-part_end, length, subst, sym,
}
use nemesis.Nccl.Sim.{shrink}
use nemesis.Nccl.Sim.Ranks.{IsValid, shrink_success}
use nemesis.Nccl.Healer.{HealerService, SimState}
use nemesis.Nccl.Healer.Playbook.{
  Params, PlaybookStep, token, parsed, parse_ranks, resolve, shrink_request,
}
use nemesis.Nccl.Healer.Playbook.Resolved.{text_get-resolve}
use nemesis.Nccl.Healer.Playbook.Ranks.{parse_ranks-join}
use nemesis.Nccl.Healer.Playbook.Templates.{
  Plain, WellKeyed, expand_template-token, expand_template_absent,
}

digit-brace : (c : ℕ) → is_digit c ≡ true → (c == b'{') ≡ false
digit-brace c h = ground arith

decimal-brace : (n : ℕ) → Lacks b'{' (decimal n)
decimal-brace n = All-map _ _ (decimal n) digit-brace (decimal-digits n)

behind-brace : (ns : List ℕ) → Lacks b'{' (behind b',' (map decimal ns))
behind-brace [] = tt
behind-brace (n ∷ ns) = (
  refl,
  All-append _ (decimal n) (behind b',' (map decimal ns)) (decimal-brace n) (behind-brace ns),
)

pub join-brace : (ns : List ℕ) → Lacks b'{' (join b',' (map decimal ns))
join-brace [] = tt
join-brace (n ∷ ns) =
    All-append _ (decimal n) (behind b',' (map decimal ns)) (decimal-brace n) (behind-brace ns)

keep_end-parse : (s : Text) → parse_unsigned 32 (keep_end b'{' s) ≡ none
unfolding parse_unsigned parse_digits
keep_end-parse [] = refl
keep_end-parse (c ∷ s) = refl

-- A token is no list of ranks.
parse_ranks-token : (k : Text) → Lacks b',' k → parse_ranks (token k) ≡ []
unfolding parse_ranks trim
parse_ranks-token k h =
    let one : split b',' (token k) ≡ token k ∷ [] =
      split-part_end b',' (token k)
        (refl, (refl, All-append _ k (codes "}}") h (refl, (refl, tt)))) in
    ap parsed one ∙ rw (parsed, keep_end-parse (trim_end (b'{' ∷ (k ++ codes "}}")))) refl

module _ (s : HealerService SimState) (step : PlaybookStep) (parameters : Params) (k : Text)
    (asks : text_get (codes "exclude_ranks") step.params ≡ some (token k)) where
  -- Let a step's `exclude_ranks` be the token of a key. If the request's parameters, each key once
  -- and without braces, give this key 32-bit ranks in decimal with commas between them, then those
  -- ranks are the ones that the back end is asked to exclude.
  pub shrink_request-ranks :
      (ranks : List ℕ)
      → WellKeyed parameters
      → Mem (k, join b',' (map decimal ranks)) parameters
      → All (λ n. n < 2 ^ 32) ranks
      → (shrink_request s parameters (resolve step.params parameters)).exclude_ranks ≡ ranks
  unfolding shrink_request
  shrink_request-ranks ranks keyed given small =
      let found = text_get-resolve (codes "exclude_ranks") step.params parameters in
      let value =
        expand_template-token k (join b',' (map decimal ranks)) parameters keyed given
          (join-brace ranks) in
      rw (found, asks, value) (parse_ranks-join ranks small)

  -- Let a step's `exclude_ranks` be the token of a key without braces and commas that the request's
  -- parameters, of keys without braces, do not have. On a valid back end the shrink that the step
  -- asks for then succeeds, and takes no rank away.
  pub missing_parameter :
      IsValid s.backend
      → Plain k
      → Lacks b',' k
      → All (λ e. Plain e.0) parameters
      → All (λ e. e.0 ≢ k) parameters
      → let (m, s') =
          shrink s.backend (shrink_request s parameters (resolve step.params parameters)) in
        (m.success ≡ true) × (s'.active_ranks ≡ s.backend.active_ranks)
  unfolding shrink_request
  missing_parameter v plain comma keys apart =
      let found = text_get-resolve (codes "exclude_ranks") step.params parameters in
      let stays = expand_template_absent k parameters plain keys apart in
      let req = shrink_request s parameters (resolve step.params parameters) in
      let nothing : req.exclude_ranks ≡ [] = rw (found, asks, stays) (parse_ranks-token k comma) in
      let none_asked = ap (λ l. length l) nothing in
      let done =
        shrink_success s.backend req v.in_range
          (subst (λ n. n < s.backend.active_ranks) (sym none_asked) v.some_active) in
      let total = ap (λ n. (shrink s.backend req).0.active_rank_count + n) none_asked in
      let same : (shrink s.backend req).0.active_rank_count + 0
          ≡ (shrink s.backend req).0.active_rank_count =
        omega arith in
      (done.0, done.2 ∙ sym same ∙ sym total ∙ done.1)
