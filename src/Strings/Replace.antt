-- ===== src/Strings/Replace.antt =====
-- Replacing every occurrence of a pattern in a text that is written out byte by byte.
use migang_bot_cpp.Base.{
  ℕ, ◌≡◌, refl, ap, ◌∙◌, Bool, true, not, [], ◌∷◌, ◌++◌, Bytes, arith, nat_beq, all,
}
use migang_bot_cpp.Strings.{replace_from}

-- Each byte of a text written by `f`.
unfoldable pub expand : (ℕ → Bytes) → Bytes → Bytes
expand f [] = []
expand f (c ∷ s) = f c ++ expand f s

-- A pass that turns what `f` writes for one byte, whatever follows, into what `g` writes turns the
-- whole text that `f` writes into the one that `g` writes.
pub replace_from-expand :
    (pattern by : Bytes) (f g : ℕ → Bytes)
    → ((c : ℕ) (rest : Bytes)
        → replace_from pattern by 0 (f c ++ rest) ≡ g c ++ replace_from pattern by 0 rest)
    → (s : Bytes) → replace_from pattern by 0 (expand f s) ≡ expand g s
unfolding expand replace_from
replace_from-expand pattern by f g each [] = refl
replace_from-expand pattern by f g each (c ∷ s) =
    each c (expand f s) ∙ ap (◌++◌ (g c)) (replace_from-expand pattern by f g each s)

pub expand-single : (s : Bytes) → expand (λ c. c ∷ []) s ≡ s
unfolding expand
expand-single [] = refl
expand-single (c ∷ s) = ap (◌∷◌ c) (expand-single s)

-- No byte of the text is `c`.
abbrev pub lacks : ℕ → Bytes → Bool
lacks c s = all (λ x. not (nat_beq x c)) s

-- A beginning without the pattern's first byte is left alone.
pub replace_from-lacks :
    (c : ℕ) (pattern by s rest : Bytes)
    → lacks c s ≡ true
    → replace_from (c ∷ pattern) by 0 (s ++ rest) ≡ s ++ replace_from (c ∷ pattern) by 0 rest
unfolding replace_from
replace_from-lacks c pattern by [] rest h = refl
replace_from-lacks c pattern by (x ∷ s) rest h =
    ground (arith, replace_from-lacks c pattern by s rest)
