-- ===== src/Nccl/Healer/Playbook/Ranks.antt =====
-- Lists of ranks: what is printed for the record is what a playbook reads.
use nemesis.Prelude.{
  ℕ, ◌<◌, ◌^◌, true, false, List, [], ◌∷◌, map, ◌≡◌, refl, ap, ◌∙◌, All, All-map, arith, ◌==◌, join,
  split, split-join, Lacks, trim, trim-NoSpace, is_whitespace, is_digit, decimal, decimal-digits,
  parse_unsigned, parse_unsigned-decimal,
}
use nemesis.Nccl.Healer.Playbook.{parsed, parse_ranks}

digit-comma : (c : ℕ) → is_digit c ≡ true → (c == b',') ≡ false
digit-comma c h = ground arith

digit-space : (c : ℕ) → is_digit c ≡ true → is_whitespace c ≡ false
digit-space c h = ground arith

decimal-Lacks : (n : ℕ) → Lacks b',' (decimal n)
decimal-Lacks n = All-map _ _ (decimal n) digit-comma (decimal-digits n)

decimals-Lacks : (ns : List ℕ) → All (Lacks b',') (map decimal ns)
decimals-Lacks [] = tt
decimals-Lacks (n ∷ ns) = (decimal-Lacks n, decimals-Lacks ns)

parsed-decimal : (ns : List ℕ) → All (λ n. n < 2 ^ 32) ns → parsed (map decimal ns) ≡ ns
parsed-decimal [] h = refl
parsed-decimal (n ∷ ns) h =
    let bare = trim-NoSpace (decimal n) (All-map _ _ (decimal n) digit-space (decimal-digits n)) in
    rw (parsed, bare, parse_unsigned-decimal 32 n h.0, parsed-decimal ns h.1)

-- Ranks that are 32-bit numbers, printed in decimal with commas between them, are read back as they
-- were, in order.
pub parse_ranks-join :
    (ranks : List ℕ)
    → All (λ n. n < 2 ^ 32) ranks
    → parse_ranks (join b',' (map decimal ranks)) ≡ ranks
unfolding parse_ranks split parse_unsigned trim
parse_ranks-join [] h = refl
parse_ranks-join (n ∷ ns) h =
    ap parsed (split-join b',' (decimal n) (map decimal ns) (decimal-Lacks n) (decimals-Lacks ns))
    ∙ parsed-decimal (n ∷ ns) h
